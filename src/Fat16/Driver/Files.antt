-- ===== src/Fat16/Driver/Files.antt =====
-- Reads of an open file through the driver.
use vana.Prelude.{
  ℕ, zero, suc, ◌+◌, ◌-◌, ◌*◌, ◌≤◌, ◌<◌, ◌≡◌, sym, ap, ap₂, ◌∙◌, pos, Option, some, List, [], arith,
  get_elem?, set,
}
use vana.PathParser.{Allocs}
use vana.Fat16.{FatDirectoryItem, FatItem, FatFileDescriptor, Mount}
use vana.Fat16.Clusters.{cluster_bytes, get_first_cluster}
use vana.Fat16.Clusters.Contents.{placed, file_bytes, file_bytes-append}
use vana.Fat16.Clusters.Chain.{ChainTo, FitsClusters, read_internal-file_bytes}
use vana.Fat16.Driver.{Driver, read_loop, fat16_read}

suc_block : (n size : ℕ) → suc n * size ≡ size + n * size
suc_block n size = grind arith

first_block : (n size : ℕ) → size ≤ suc n * size
first_block n size = grind arith

pred_suc : (i : ℕ) → suc i - 1 ≡ i
pred_suc i = omega arith

no_block : (size : ℕ) → 0 ≡ 0 * size
no_block size = grind arith

plus_zero : (n : ℕ) → n ≡ n + 0
plus_zero n = omega arith

last_offset : (n size offset : ℕ) → offset + size + n * size ≡ offset + suc n * size
last_offset n size offset = omega (arith, suc_block n size)

-- A driver with a mount, and an open file.
abbrev pub mounted : Mount → ℕ → ℕ → List (Option FatFileDescriptor) → Allocs → Driver
mounted m p q ds al = record { fs_private = some (placed m p q); descriptors = ds; allocs = al }

abbrev pub opened : FatDirectoryItem → ℕ → Option FatFileDescriptor
opened item offset = some (record { item = FatItem.file (some item); position = offset })

module _ (sector : ℕ → List ℕ) (fuel : ℕ) (m : Mount) (size : ℕ) where
  -- Each of the `n` objects from the offset on starts with a cluster or lies in one.
  abbrev pub AllFit : ℕ → ℕ → Type 0
  AllFit zero offset = Unit
  AllFit (suc n) offset = FitsClusters sector fuel m offset size × AllFit n (offset + size)

  module _ (enough : 2 < fuel) (sized : 0 < cluster_bytes m.header) where
    read_loop-file_bytes :
        (n c offset p q : ℕ)
        → 0 < size
        → size < fuel
        → AllFit n offset
        → ChainTo sector fuel m c (offset + n * size)
        → (p' q' : ℕ) × (read_loop sector fuel n size c offset (placed m p q)
            ≡ some (
              (pos 0, file_bytes sector m c offset (n * size), offset + n * size),
              placed m p' q',
            ))
    unfolding read_loop
    read_loop-file_bytes zero c offset p q z f fits chain = (
      p,
      q,
      ap (λ o. some ((pos 0, [], o), placed m p q)) (plus_zero offset)
          ∙ ap (λ b. some ((pos 0, file_bytes sector m c offset b, offset + b), placed m p q))
              (no_block size),
    )
    read_loop-file_bytes (suc n) c offset p q z f fits chain =
        let (p1, q1, e) =
          read_internal-file_bytes sector fuel m enough sized c offset size p q z f fits.0
            (λ k h. chain k (omega (arith, first_block n size))) in
        let (p2, q2, ih) =
          read_loop-file_bytes n c (offset + size) p1 q1 z f fits.1
            (λ k h. chain k (omega (arith, last_offset n size offset))) in
        (
          p2,
          q2,
          rw (e, ih)
              (ap₂ (λ bs o. some ((pos 0, bs, o), placed m p2 q2))
                (sym (file_bytes-append sector m c offset size (n * size))
                  ∙ ap (file_bytes sector m c offset) (sym (suc_block n size)))
                (last_offset n size offset)),
        )

    -- Reading `nmemb` objects from an open file, each of one byte or more and starting with a cluster
    -- or lying in one, along a good chain of clusters from 2 on, of one sector or more, returns
    -- `nmemb` and the bytes of the file from the descriptor's position on, and moves the position
    -- behind them. The fuel is more than the size of an object, and more than 2.
    pub fat16_read-file_bytes :
        (i nmemb offset p q : ℕ) (item : FatDirectoryItem) (ds : List (Option FatFileDescriptor))
        (al : Allocs)
        → get_elem? ds i ≡ some (opened item offset)
        → 0 < size
        → size < fuel
        → AllFit nmemb offset
        → ChainTo sector fuel m (get_first_cluster item) (offset + nmemb * size)
        → (p' q' : ℕ) × (fat16_read sector fuel (pos (suc i)) size nmemb (mounted m p q ds al)
            ≡ some (
              pos nmemb,
              file_bytes sector m (get_first_cluster item) offset (nmemb * size),
              mounted m p' q' (set ds i (opened item (offset + nmemb * size))) al,
            ))
    unfolding fat16_read
    fat16_read-file_bytes i nmemb offset p q item ds al d z f fits chain =
        let (p', q', e) =
          read_loop-file_bytes nmemb (get_first_cluster item) offset p q z f fits chain in
        (
          p',
          q',
          rw (fat16_read, d, e)
              (ap
                (λ j. some (
                  pos nmemb,
                  file_bytes sector m (get_first_cluster item) offset (nmemb * size),
                  mounted m p' q' (set ds j (opened item (offset + nmemb * size))) al,
                ))
                (pred_suc i)),
        )
