-- ===== src/Fat16/Clusters/Contents.antt =====
-- The contents of a file: the bytes of its clusters, in the order of the chain.
use vana.Prelude.{
  ℕ, zero, suc, ◌+◌, ◌-◌, ◌*◌, ◌/◌, ◌%◌, ◌≤◌, ◌<◌, ◌≡◌, refl, ap, ap₂, ◌∙◌, false, pos, sub_ℕ, leb,
  true, List, [], ◌∷◌, ◌++◌, arith,
}
use native.Mathlib.Nat.{add-mul}
use vana.Disk.Streamer.{DiskStream, sector_size}
use vana.Disk.Streamer.Bytes.{byte_at, bytes}
use vana.Fat16.{FatHeader, Mount}
use vana.Fat16.Clusters.{cluster_bytes, cluster_to_sector, ends_walk, get_first_fat_sector}

abbrev pub stream_at : ℕ → DiskStream
stream_at p = record { position = p; disk = 0 }

-- The mount with the streams of the table and of the clusters at two positions of the disk.
abbrev pub placed : Mount → ℕ → ℕ → Mount
placed m p q = record m { fat_read_stream = stream_at p; cluster_read_stream = stream_at q }

div_step : (o k : ℕ) → 0 < k → o % k + 1 < k → (o + 1) / k ≡ o / k
div_step o k p h = grind arith

mod_step : (o k : ℕ) → 0 < k → o % k + 1 < k → (o + 1) % k ≡ o % k + 1
mod_step o k p h = grind arith

suc_sum : (a b : ℕ) → suc a + b ≡ suc (a + b)
suc_sum a b = omega arith

pub split_at_end : (k n : ℕ) → k ≤ n → n ≡ k + (n - k)
split_at_end k n h = omega arith

-- The first sector of a cluster: the clusters from 2 on lie one after another behind the root
-- directory.
abbrev pub data_sector : Mount → ℕ → ℕ
data_sector m cluster =
    m.root_directory.ending_sector_pos + (cluster - 2) * m.header.sectors_per_cluster

le→leb : (a b : ℕ) → a ≤ b → leb a b ≡ true
le→leb a b h = ground arith

sub_ℕ-≤ : (a b : ℕ) → b ≤ a → sub_ℕ a b ≡ pos (a - b)
sub_ℕ-≤ a b h = rw (le→leb b a h) refl

split_two : (c : ℕ) → 2 ≤ c → c ≡ 2 + (c - 2)
split_two c h = omega arith

two_less : (e c k : ℕ) → 2 ≤ c → (2 * k ≤ e + c * k) × (e + c * k - 2 * k ≡ e + (c - 2) * k)
two_less e c k h =
    let f : c * k ≡ 2 * k + (c - 2) * k = ap (λ n. n * k) (split_two c h) ∙ add-mul 2 (c - 2) k in
    (omega (arith, f), omega (arith, f))

pub cluster_to_sector-data :
    (m : Mount) (c : ℕ) → 2 ≤ c → cluster_to_sector m c ≡ pos (data_sector m c)
unfolding cluster_to_sector
cluster_to_sector-data m c h =
    let k = m.header.sectors_per_cluster in
    let e = m.root_directory.ending_sector_pos in
    let (l, f) = two_less e c k h in sub_ℕ-≤ (e + c * k) (2 * k) l ∙ ap pos f

module _ (sector : ℕ → List ℕ) where
  -- The entry of the table for a cluster.
  abbrev pub fat_at : FatHeader → ℕ → ℕ
  fat_at header cluster =
      let p = get_first_fat_sector header * sector_size + cluster * 2 in
      byte_at sector p + 256 * byte_at sector (p + 1)

  -- The cluster `n` links behind one, and that the walk does not stop before it. The clusters of a
  -- chain are numbered from 2 on.
  abbrev pub nth : FatHeader → ℕ → ℕ → ℕ
  nth header zero cluster = cluster
  nth header (suc n) cluster = nth header n (fat_at header cluster)

  abbrev pub IsChain : FatHeader → ℕ → ℕ → Type 0
  IsChain header zero cluster = 2 ≤ cluster
  IsChain header (suc n) cluster =
      (2 ≤ cluster)
      × (ends_walk (fat_at header cluster) ≡ false)
      × IsChain header n (fat_at header cluster)

  pub nth-2 : (header : FatHeader) (n c : ℕ) → IsChain header n c → 2 ≤ nth header n c
  nth-2 header zero c h = h
  nth-2 header (suc n) c h = nth-2 header n (fat_at header c) h.2

  -- Where the byte of a number lies in the file that starts at a cluster.
  abbrev pub place : Mount → ℕ → ℕ → ℕ
  place m cluster i =
      let k = cluster_bytes m.header in
      data_sector m (nth m.header (i / k) cluster) * sector_size + i % k

  -- The bytes of the file from a number on.
  abbrev pub file_bytes : Mount → ℕ → ℕ → ℕ → List ℕ
  file_bytes m cluster i zero = []
  file_bytes m cluster i (suc n) =
      byte_at sector (place m cluster i) ∷ file_bytes m cluster (i + 1) n

  pub file_bytes-append :
      (m : Mount) (c i a b : ℕ)
      → file_bytes m c i (a + b) ≡ file_bytes m c i a ++ file_bytes m c (i + a) b
  file_bytes-append m c i zero b = ap₂ (file_bytes m c) (omega arith) (omega arith)
  file_bytes-append m c i (suc a) b =
      ap (file_bytes m c i) (suc_sum a b)
      ∙ ap (λ t. byte_at sector (place m c i) ∷ t)
          (file_bytes-append m c (i + 1) a b
            ∙ ap (λ j. file_bytes m c (i + 1) a ++ file_bytes m c j b) (omega arith))

  next_place :
      (m : Mount) (c i : ℕ)
      → (i + 1) / cluster_bytes m.header ≡ i / cluster_bytes m.header
      → (i + 1) % cluster_bytes m.header ≡ i % cluster_bytes m.header + 1
      → place m c (i + 1) ≡ place m c i + 1
  next_place m c i d e =
      ap₂ (λ q r. data_sector m (nth m.header q c) * sector_size + r) d e ∙ omega arith

  -- Within a cluster the bytes of the file lie side by side.
  pub file_bytes-bytes :
      (m : Mount) (c i n : ℕ)
      → 0 < cluster_bytes m.header
      → i % cluster_bytes m.header + n ≤ cluster_bytes m.header
      → file_bytes m c i n ≡ bytes sector (place m c i) n
  file_bytes-bytes m c i zero p h = refl
  file_bytes-bytes m c i (suc zero) p h = refl
  file_bytes-bytes m c i (suc (suc n)) p h =
      let k = cluster_bytes m.header in
      let d = div_step i k p (omega arith) in
      let e = mod_step i k p (omega arith) in
      ap (λ t. byte_at sector (place m c i) ∷ t)
        (file_bytes-bytes m c (i + 1) (suc n) p (omega (arith, e))
          ∙ ap (λ q. bytes sector q (suc n)) (next_place m c i d e))

  pub first_cluster :
      (m : Mount) (c i n : ℕ)
      → 0 < cluster_bytes m.header
      → cluster_bytes m.header < n
      → i % cluster_bytes m.header ≡ 0
      → file_bytes m c i n
        ≡ bytes sector (place m c i) (cluster_bytes m.header)
          ++ file_bytes m c (i + cluster_bytes m.header) (n - cluster_bytes m.header)
  first_cluster m c i n p h o =
      let k = cluster_bytes m.header in
      ap (file_bytes m c i) (split_at_end k n (omega arith))
      ∙ file_bytes-append m c i k (n - k)
      ∙ ap (λ t. t ++ file_bytes m c (i + k) (n - k))
          (file_bytes-bytes m c i k p (omega (arith, o)))
