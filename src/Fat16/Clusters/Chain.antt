-- ===== src/Fat16/Clusters/Chain.antt =====
-- Reads along the chain of clusters, against the contents of the file.
use vana.Prelude.{
  ℕ, zero, suc, ◌+◌, ◌-◌, ◌*◌, ◌/◌, ◌%◌, ◌≤◌, ◌<◌, ◌≡◌, ◌⊎◌, inl, inr, refl, sym, ap, ◌∙◌,
  Bool-cases, pos, some, List, ◌++◌, arith, ltb,
}
use native.Mathlib.Nat.{mod-lt}
use vana.Disk.Streamer.Bytes.{bytes, bytes-append}
use vana.Fat16.{Mount, Stream}
use vana.Fat16.Clusters.{cluster_bytes, read_internal_from_stream, read_internal}
use vana.Fat16.Clusters.Contents.{
  placed, split_at_end, nth, nth-2, IsChain, place, file_bytes, file_bytes-bytes, first_cluster,
}
use vana.Fat16.Clusters.Steps.{get_cluster_for_offset-nth, read_cluster-last, read_cluster-more}

mod_next : (o k : ℕ) → 0 < k → o % k ≡ 0 → (o + k) % k ≡ 0
mod_next o k p h = grind arith

div_floor : (o k : ℕ) → 0 < k → o / k * k ≤ o
div_floor o k p = grind arith

decide_≤ : (m n : ℕ) → (m ≤ n) ⊎ (n < m)
decide_≤ m n = elim (Bool-cases (ltb n m)) [
  | inl e ↦ inr (ground arith)
  | inr e ↦ inl (ground arith)
]

module _ (sector : ℕ → List ℕ) (fuel : ℕ) (m : Mount) where
  -- All links up to the byte number `end`, between clusters from 2 on.
  abbrev pub ChainTo : ℕ → ℕ → Type 0
  ChainTo c end = (n : ℕ) → n * cluster_bytes m.header < end → IsChain sector m.header n c

  -- The read starts with a cluster, or ends with the one that it starts in.
  abbrev pub FitsClusters : ℕ → ℕ → Type 0
  FitsClusters offset total =
      (offset % cluster_bytes m.header ≡ 0)
      ⊎ (offset % cluster_bytes m.header + total ≤ cluster_bytes m.header)

  start_fits :
      (offset total : ℕ)
      → total ≤ cluster_bytes m.header
      → FitsClusters offset total
      → offset % cluster_bytes m.header + total ≤ cluster_bytes m.header
  start_fits offset total l (inl o) = omega arith
  start_fits offset total l (inr h) = h

  aligned_start :
      (offset total : ℕ)
      → cluster_bytes m.header < total
      → FitsClusters offset total
      → offset % cluster_bytes m.header ≡ 0
  aligned_start offset total g (inl o) = o
  aligned_start offset total g (inr h) = absurd (omega arith)

  module _ (enough : 2 < fuel) (sized : 0 < cluster_bytes m.header) where
    read_across :
        (depth c offset total p q : ℕ)
        → 0 < depth
        → total < fuel
        → total ≤ cluster_bytes m.header
        → ChainTo c (offset + 1)
        → (p' q' : ℕ) × (read_internal_from_stream sector fuel depth Stream.cluster_read c offset
              total
              (placed m p q)
            ≡ some ((pos 0, bytes sector (place sector m c offset) total), placed m p' q'))
    unfolding read_internal_from_stream
    read_across zero c offset total p q d f l chain = absurd (omega arith)
    read_across (suc depth) c offset total p q d f l chain =
        let k = cluster_bytes m.header in
        let links = chain (offset / k) (omega (arith, div_floor offset k sized)) in
        let (p', e) = get_cluster_for_offset-nth sector fuel m c offset p q enough sized links in
        (
          p',
          place sector m c offset + total,
          rw
              (
                e,
                read_cluster-last sector fuel m (nth sector m.header (offset / k) c) offset total p'
                    q
                    (λ done.
                      read_internal_from_stream sector fuel depth Stream.cluster_read c
                        (offset + done) (total - done))
                    (nth-2 sector m.header (offset / k) c links) f l,
              )
              refl,
        )

    read_last :
        (depth c offset total p q : ℕ)
        → 0 < total
        → total < fuel
        → total ≤ cluster_bytes m.header
        → FitsClusters offset total
        → ChainTo c (offset + total)
        → (p' q' : ℕ) × (read_internal_from_stream sector fuel
              (suc depth)
              Stream.cluster_read
              c
              offset
              total
              (placed m p q)
            ≡ some ((pos 0, file_bytes sector m c offset total), placed m p' q'))
    read_last depth c offset total p q t f l fits chain =
        let (p', q', e) =
          read_across (suc depth) c offset total p q (omega arith) f l
            (λ n h. chain n (omega arith)) in
        (
          p',
          q',
          e
              ∙ ap (λ bs. some ((pos 0, bs), placed m p' q'))
                  (sym (
                    file_bytes-bytes sector m c offset total sized
                      (start_fits offset total l fits))),
        )

    read_chain :
        (depth c offset total p q : ℕ)
        → total ≤ depth
        → 0 < total
        → total < fuel
        → FitsClusters offset total
        → ChainTo c (offset + total)
        → (p' q' : ℕ) × (read_internal_from_stream sector fuel depth Stream.cluster_read c offset
              total
              (placed m p q)
            ≡ some ((pos 0, file_bytes sector m c offset total), placed m p' q'))
    unfolding read_internal_from_stream
    read_chain zero c offset total p q d t f fits chain = absurd (omega arith)
    read_chain (suc depth) c offset total p q d t f fits chain =
        let k = cluster_bytes m.header in
        elim (decide_≤ total k) [
          | inl l ↦ read_last depth c offset total p q t f l fits chain
          | inr g ↦
              let o = aligned_start offset total g fits in
              let links = chain (offset / k) (omega (arith, div_floor offset k sized)) in
              let (p1, e) =
                get_cluster_for_offset-nth sector fuel m c offset p q enough sized links in
              let c' = nth sector m.header (offset / k) c in
              let (p2, q2, ih) =
                read_chain depth c (offset + k) (total - k) p1 (place sector m c offset + k)
                  (omega arith) (omega arith) (omega arith) (inl (mod_next offset k sized o))
                  (λ n h. chain n (omega arith)) in
              (
                p2,
                q2,
                rw
                    (
                      e,
                      read_cluster-more sector fuel m c' offset total p1 q
                          (λ done.
                            read_internal_from_stream sector fuel depth Stream.cluster_read c
                              (offset + done) (total - done))
                          (nth-2 sector m.header (offset / k) c links) (omega arith) g,
                      ih,
                    )
                    (ap (λ t. some ((pos 0, t), placed m p2 q2))
                      (sym (first_cluster sector m c offset total sized g o))),
              )
        ]

    -- On a disk whose chain of clusters from the starting cluster on is good up to the bytes asked
    -- for, a read of one byte or more that starts with a cluster, or that ends with the cluster it
    -- starts in, succeeds, and returns these bytes of the file: those of the clusters in the order
    -- of the chain. The fuel is more than the number of bytes.
    pub read_internal-file_bytes :
        (c offset total p q : ℕ)
        → 0 < total
        → total < fuel
        → FitsClusters offset total
        → ChainTo c (offset + total)
        → (p' q' : ℕ) × (read_internal sector fuel c offset total (placed m p q)
            ≡ some ((pos 0, file_bytes sector m c offset total), placed m p' q'))
    unfolding read_internal
    read_internal-file_bytes c offset total p q t f fits chain =
        read_chain fuel c offset total p q (omega arith) t f fits chain

    -- A read of no more bytes than a cluster has, which starts inside one of a good chain of clusters
    -- from 2 on and crosses its end, returns the bytes of the file up to that end, and then the bytes
    -- that follow the cluster on the disk, whichever cluster the table names as the next. The fuel is
    -- more than the number of bytes, and more than 2.
    pub read_internal-crossing :
        (c offset total p q : ℕ)
        → total < fuel
        → total ≤ cluster_bytes m.header
        → cluster_bytes m.header < offset % cluster_bytes m.header + total
        → ChainTo c (offset + 1)
        → let k = cluster_bytes m.header in
          let within = k - offset % k in
          (p' q' : ℕ) × (read_internal sector fuel c offset total (placed m p q)
            ≡ some (
              (
                pos 0,
                file_bytes sector m c offset within
                    ++ bytes sector (place sector m c offset + within) (total - within),
              ),
              placed m p' q',
            ))
    unfolding read_internal
    read_internal-crossing c offset total p q f l over chain =
        let k = cluster_bytes m.header in
        let within = k - offset % k in
        let bound = mod-lt offset sized in
        let (p', q', e) = read_across fuel c offset total p q (omega arith) f l chain in
        (
          p',
          q',
          e
              ∙ ap (λ bs. some ((pos 0, bs), placed m p' q'))
                  (ap (bytes sector (place sector m c offset))
                      (split_at_end within total (omega arith))
                    ∙ bytes-append sector (place sector m c offset) within (total - within)
                    ∙ ap
                        (λ bs.
                          bs ++ bytes sector (place sector m c offset + within) (total - within))
                        (sym (file_bytes-bytes sector m c offset within sized (omega arith)))),
        )
