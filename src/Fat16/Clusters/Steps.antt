-- ===== src/Fat16/Clusters/Steps.antt =====
-- One step of a read along the chain: an entry of the table, the walk, and one cluster.
use vana.Prelude.{
  ℕ, zero, suc, ◌+◌, ◌-◌, ◌*◌, ◌/◌, ◌%◌, ◌≤◌, ◌<◌, ◌≡◌, refl, ℤ, pos, some, List, ◌++◌, arith,
  lt→ltb, le→ltb, ==_ne,
}
use vana.Disk.Streamer.{sector_size, diskstreamer_seek}
use vana.Disk.Streamer.Bytes.{bytes, diskstreamer_read-bytes}
use vana.Fat16.{◌>>=◌, pure, M, Mount, Stream, seek_stream, read_stream}
use vana.Fat16.Clusters.{
  cluster_bytes, cluster_to_sector, get_first_fat_sector, get_fat_entry, walk_chain,
  get_cluster_for_offset, read_cluster,
}
use vana.Fat16.Clusters.Contents.{placed, fat_at, nth, IsChain, data_sector, cluster_to_sector-data}

short_read : (p n fuel : ℕ) → n < fuel → (p % sector_size + n) / sector_size < fuel
short_read p zero fuel h = omega arith
short_read p (suc n) fuel h = omega arith

module _ (sector : ℕ → List ℕ) (fuel : ℕ) (m : Mount) where
  read_fat :
      (q x n : ℕ)
      → n < fuel
      → read_stream sector fuel Stream.fat_read n (placed m x q)
        ≡ some ((pos 0, bytes sector x n), placed m (x + n) q)
  unfolding read_stream
  read_fat q x n h =
      rw (read_stream, diskstreamer_read-bytes sector fuel x n (short_read x n fuel h)) refl

  read_clusters :
      (p x n : ℕ)
      → n < fuel
      → read_stream sector fuel Stream.cluster_read n (placed m p x)
        ≡ some ((pos 0, bytes sector x n), placed m p (x + n))
  unfolding read_stream
  read_clusters p x n h =
      rw (read_stream, diskstreamer_read-bytes sector fuel x n (short_read x n fuel h)) refl

  get_fat_entry-fat_at :
      (c p q : ℕ)
      → 2 < fuel
      → (p' : ℕ) × (get_fat_entry sector fuel c (placed m p q)
          ≡ some (pos (fat_at sector m.header c), placed m p' q))
  unfolding get_fat_entry seek_stream diskstreamer_seek
  get_fat_entry-fat_at c p q h =
      let x = get_first_fat_sector m.header * sector_size + c * 2 in
      (x + 2, rw (read_fat q x 2 h) refl)

  walk_chain-nth :
      (n c p q : ℕ)
      → 2 < fuel
      → IsChain sector m.header n c
      → (p' : ℕ) × (walk_chain sector fuel n c (placed m p q)
          ≡ some (pos (nth sector m.header n c), placed m p' q))
  unfolding walk_chain
  walk_chain-nth zero c p q h k = (p, refl)
  walk_chain-nth (suc n) c p q h k =
      let (p1, e) = get_fat_entry-fat_at c p q h in
      let (p2, f) = walk_chain-nth n (fat_at sector m.header c) p1 q h k.2 in (p2, rw (e, k.1) f)

  -- The walk ends with an error at the first entry that stops it.
  pub get_cluster_for_offset-nth :
      (c offset p q : ℕ)
      → 2 < fuel
      → 0 < cluster_bytes m.header
      → IsChain sector m.header (offset / cluster_bytes m.header) c
      → (p' : ℕ) × (get_cluster_for_offset sector fuel c offset (placed m p q)
          ≡ some (pos (nth sector m.header (offset / cluster_bytes m.header) c), placed m p' q))
  unfolding get_cluster_for_offset
  get_cluster_for_offset-nth c offset p q h k chain =
      let (p', e) = walk_chain-nth (offset / cluster_bytes m.header) c p q h chain in
      (p', rw (==_ne (cluster_bytes m.header) 0 (omega arith), e) refl)

  -- What `read_cluster` does when the bytes it may read are those of the disk from `x` on.
  pub read_cluster-last :
      (c offset total p q : ℕ) (rest : ℕ → M (ℤ × List ℕ))
      → 2 ≤ c
      → total < fuel
      → total ≤ cluster_bytes m.header
      → read_cluster sector fuel Stream.cluster_read c offset total rest (placed m p q)
        ≡ some (
          (
            pos 0,
            bytes sector (data_sector m c * sector_size + offset % cluster_bytes m.header) total,
          ),
          placed m p (data_sector m c * sector_size + offset % cluster_bytes m.header + total),
        )
  unfolding read_cluster seek_stream diskstreamer_seek cluster_to_sector
  read_cluster-last c offset total p q rest low h k =
      let x = data_sector m c * sector_size + offset % cluster_bytes m.header in
      rw
        (
          read_cluster,
          cluster_to_sector-data m c low,
          le→ltb (cluster_bytes m.header) total k,
          read_clusters p x total h,
          le→ltb 0 (total - total) (omega arith),
        )
        refl

  pub read_cluster-more :
      (c offset total p q : ℕ) (rest : ℕ → M (ℤ × List ℕ))
      → 2 ≤ c
      → cluster_bytes m.header < fuel
      → cluster_bytes m.header < total
      → let k = cluster_bytes m.header in
        let x = data_sector m c * sector_size + offset % k in
        read_cluster sector fuel Stream.cluster_read c offset total rest (placed m p q)
        ≡ (rest k >>= λ (res, others). pure (res, bytes sector x k ++ others)) (placed m p (x + k))
  unfolding read_cluster seek_stream diskstreamer_seek cluster_to_sector
  read_cluster-more c offset total p q rest low h l =
      let k = cluster_bytes m.header in
      let x = data_sector m c * sector_size + offset % k in
      rw
        (
          read_cluster,
          cluster_to_sector-data m c low,
          lt→ltb k total l,
          read_clusters p x k h,
          lt→ltb 0 (total - k) (omega arith),
        )
        refl
