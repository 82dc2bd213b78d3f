-- ===== src/Fat16/Clusters.antt =====
-- Clusters of fat16.c: where they lie, the chain that the table gives, and reads along it. Sectors
-- and positions are below 2 ^ 31. The sectors of the disk are a parameter, and `fuel` is for the
-- rounds of the disk stream.
pub mod Chain
pub mod Contents
pub mod Steps
use vana.Prelude.{
  ℕ, zero, suc, ◌+◌, ◌-◌, ◌*◌, ◌/◌, ◌%◌, ◌^◌, Bool, ◌||◌, ◌&&◌, ℤ, pos, negsuc, sub_ℕ, List, [],
  ◌++◌, ltb, ◌==◌, if◌then◌else◌,
}
use vana.Disk.Streamer.{sector_size}
use vana.Fat16.{
  FatHeader, FatDirectoryItem, Mount, Stream, M, ◌>>=◌, pure, fault, get_header, le16, seek_stream,
  read_stream, is_ok, minus_eio,
}

abbrev pub fat_entry_size : ℕ
fat_entry_size = 2

unfoldable pub sector_to_absolute : ℕ → ℕ
sector_to_absolute sector = sector * sector_size

-- The low half has 16 bits, so the bitwise or is a sum.
unfoldable pub get_first_cluster : FatDirectoryItem → ℕ
get_first_cluster item = item.high_16_bits_first_cluster * 2 ^ 16 + item.low_16_bits_first_cluster

-- The sum with the product of `cluster - 2`, which is negative for the clusters 0 and 1, and so are
-- sectors before the clusters.
unfoldable pub cluster_to_sector : Mount → ℕ → ℤ
cluster_to_sector m cluster =
    sub_ℕ (m.root_directory.ending_sector_pos + cluster * m.header.sectors_per_cluster)
      (2 * m.header.sectors_per_cluster)

unfoldable pub get_first_fat_sector : FatHeader → ℕ
get_first_fat_sector header = header.reserved_sectors

-- An entry at which the walk along a chain stops.
unfoldable pub ends_walk : ℕ → Bool
ends_walk entry =
    (entry == 0xFFF8 || entry == 0xFFFF)
    || entry == 0xFF7
    || (entry == 0xFF0 || entry == 0xFF6)
    || entry == 0x00

abbrev pub is_negative : ℤ → Bool
is_negative (pos n) = Bool.false
is_negative (negsuc n) = Bool.true

-- What a cluster takes up.
abbrev pub cluster_bytes : FatHeader → ℕ
cluster_bytes header = header.sectors_per_cluster * sector_size

module _ (sector : ℕ → List ℕ) (fuel : ℕ) where
  unfoldable pub get_fat_entry : ℕ → M ℤ
  get_fat_entry cluster = do
    header ← get_header
    let fat_table_position = get_first_fat_sector header * sector_size
    res ← seek_stream Stream.fat_read (fat_table_position + cluster * fat_entry_size)
    let entry : M ℤ = (do
      (res', bytes) ← read_stream sector fuel Stream.fat_read 2
      pure (if is_negative res' then res' else pos (le16 bytes 0)))
    if is_negative res then pure res else entry

  -- The rounds left, and the cluster to use. No stream of the disk gives a negative entry.
  unfoldable pub walk_chain : ℕ → ℕ → M ℤ
  walk_chain zero cluster = pure (pos cluster)
  walk_chain (suc rounds) cluster = get_fat_entry cluster >>= λ res. elim res [
    | negsuc n ↦ fault
    | pos entry ↦ if ends_walk entry then pure minus_eio else walk_chain rounds entry
  ]

  -- A cluster of no sectors makes the code divide by zero.
  unfoldable pub get_cluster_for_offset : ℕ → ℕ → M ℤ
  get_cluster_for_offset starting_cluster offset = do
    header ← get_header
    let size_of_cluster_bytes = cluster_bytes header
    let walk = walk_chain (offset / size_of_cluster_bytes) starting_cluster
    if size_of_cluster_bytes == 0 then fault else walk

  -- The code behind the first early return, for the cluster found. `rest` reads what is left. A
  -- sector before the disk gives none.
  unfoldable pub read_cluster : Stream → ℕ → ℕ → ℕ → (ℕ → M (ℤ × List ℕ)) → M (ℤ × List ℕ)
  read_cluster w cluster_to_use offset total rest m =
      let size_of_cluster_bytes = cluster_bytes m.header in
      let total_to_read =
        if ltb size_of_cluster_bytes total then size_of_cluster_bytes else total in
      let run : M (ℤ × List ℕ) = (do
        (res, bytes) ← read_stream sector fuel w total_to_read
        let more : M (ℤ × List ℕ) = (do
          (res', others) ← rest total_to_read
          pure (res', bytes ++ others))
        if is_ok res && ltb 0 (total - total_to_read) then more else pure (res, bytes)) in
      let read_at : ℕ → M (ℤ × List ℕ) = λ starting_sector.
        let starting_pos = starting_sector * sector_size + offset % size_of_cluster_bytes in
        (seek_stream w starting_pos >>= λ res. if is_ok res then run else pure (res, [])) in
      elim (cluster_to_sector m cluster_to_use) [
        | negsuc n ↦ fault m
        | pos starting_sector ↦ read_at starting_sector m
      ]

  -- The first argument bounds the depth of the recursion.
  unfoldable pub read_internal_from_stream : ℕ → Stream → ℕ → ℕ → ℕ → M (ℤ × List ℕ)
  read_internal_from_stream zero w cluster offset total = fault
  read_internal_from_stream (suc depth) w cluster offset total =
      get_cluster_for_offset cluster offset >>= λ res. elim res [
        | negsuc n ↦ pure (negsuc n, [])
        | pos cluster_to_use ↦
            read_cluster w cluster_to_use offset total
              (λ done. read_internal_from_stream depth w cluster (offset + done) (total - done))
      ]

  unfoldable pub read_internal : ℕ → ℕ → ℕ → M (ℤ × List ℕ)
  read_internal starting_cluster offset total =
      read_internal_from_stream fuel Stream.cluster_read starting_cluster offset total
