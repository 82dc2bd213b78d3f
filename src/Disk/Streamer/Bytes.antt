-- ===== src/Disk/Streamer/Bytes.antt =====
-- The stream returns the bytes of the disk, whatever the sectors.
use vana.Prelude.{
  ℕ, zero, suc, ◌+◌, ◌-◌, ◌*◌, ◌/◌, ◌%◌, ◌≤◌, ◌<◌, ◌≡◌, refl, sym, ap, ap₂, ◌∙◌, some, List, [],
  ◌∷◌, ◌++◌, arith, leb, get_or, pos, Bool-cases, inl, inr, true, false,
}
use vana.Disk.Streamer.{
  DiskStream, sector_size, copy_out, is_negative, disk_read_block, diskstreamer_read,
}

suc-add : (m n : ℕ) → suc m + n ≡ suc (m + n)
suc-add m n = omega arith

within : (o t : ℕ) → leb sector_size (o + t) ≡ false → o + t ≤ sector_size
within o t h = ground arith

reaches : (o t : ℕ) → leb sector_size (o + t) ≡ true → sector_size ≤ o + t
reaches o t h = ground arith

module _ (sector : ℕ → List ℕ) where
  -- The byte of the disk at a position.
  abbrev pub byte_at : ℕ → ℕ
  byte_at p = get_or (sector (p / sector_size)) (p % sector_size) 0

  -- `n` bytes of the disk from `p` on.
  abbrev pub bytes : ℕ → ℕ → List ℕ
  bytes p zero = []
  bytes p (suc n) = byte_at p ∷ bytes (p + 1) n

  pub bytes-append : (p m n : ℕ) → bytes p (m + n) ≡ bytes p m ++ bytes (p + m) n
  bytes-append p zero n = ap₂ bytes (omega arith) (omega arith)
  bytes-append p (suc m) n =
      ap (λ k. bytes p k) (suc-add m n)
      ∙ ap (λ t. byte_at p ∷ t)
          (bytes-append (p + 1) m n ∙ ap (λ k. bytes (p + 1) m ++ bytes k n) (omega arith))

  byte_at_offset :
      (s i : ℕ) → i < sector_size → byte_at (s * sector_size + i) ≡ get_or (sector s) i 0
  byte_at_offset s i h = ap₂ (λ a b. get_or (sector a) b 0) (omega arith) (omega arith)

  -- Within a sector, the copy from the buffer gives these bytes.
  copy_out-offset :
      (n s i : ℕ) → i + n ≤ sector_size → copy_out n i (sector s) ≡ bytes (s * sector_size + i) n
  unfolding copy_out
  copy_out-offset zero s i h = refl
  copy_out-offset (suc n) s i h =
      ap₂ ◌∷◌ (sym (byte_at_offset s i (omega arith)))
        (copy_out-offset n s (i + 1) (omega arith) ∙ ap (λ k. bytes k n) (omega arith))

  copy_out-bytes :
      (n p : ℕ)
      → p % sector_size + n ≤ sector_size
      → copy_out n (p % sector_size) (sector (p / sector_size)) ≡ bytes p n
  copy_out-bytes n p h =
      copy_out-offset n (p / sector_size) (p % sector_size) h ∙ ap (λ k. bytes k n) (omega arith)

  abbrev stream_at : ℕ → DiskStream
  stream_at p = record { position = p; disk = 0 }

  -- A read of `total` bytes from a stream of the disk, with more rounds than it fills sectors,
  -- succeeds: it returns the bytes of the disk from the stream's position on, in order, and moves the
  -- position behind them.
  pub diskstreamer_read-bytes :
      (fuel p total : ℕ)
      → (p % sector_size + total) / sector_size < fuel
      → diskstreamer_read sector fuel (record { position = p; disk = 0 }) total
        ≡ some (pos 0, bytes p total, record { position = p + total; disk = 0 })
  unfolding diskstreamer_read disk_read_block is_negative
  diskstreamer_read-bytes zero p total h = absurd (omega arith)
  diskstreamer_read-bytes (suc fuel) p total h =
      elim (Bool-cases (leb sector_size (p % sector_size + total))) [
        | inr inside ↦
            rw (diskstreamer_read, inside)
              (ap (λ t. some (pos 0, t, stream_at (p + total)))
                (copy_out-bytes total p (within (p % sector_size) total inside)))
        | inl beyond ↦
            let m = total - (p % sector_size + total - sector_size) in
            let reach = reaches (p % sector_size) total beyond in
            rw
              (
                diskstreamer_read,
                beyond,
                copy_out-bytes m p (omega (arith, reach)),
                diskstreamer_read-bytes fuel (p + m) (total - m) (omega (arith, reach)),
              )
              (ap₂ (λ t k. some (pos 0, t, stream_at k))
                (sym (bytes-append p m (total - m)) ∙ ap (λ k. bytes p k) (omega (arith, reach)))
                (omega (arith, reach)))
      ]
