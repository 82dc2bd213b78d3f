-- ===== src/Disk/Streamer/Tests.antt =====
-- The theorem on the stream at a read across a sector boundary, and that on the drive's registers.
use vana.Prelude.{ℕ, ◌≡◌, pos, some, List, [], ◌∷◌, arith, replicate}
use vana.Disk.Streamer.{diskstreamer_read}
use vana.Disk.Streamer.Bytes.{diskstreamer_read-bytes}

-- Every byte of a sector is the sector's number.
abbrev numbered : ℕ → List ℕ
numbered i = replicate 512 i

diskstreamer_read-bytes_example :
    diskstreamer_read numbered 2 (record { position = 511; disk = 0 }) 3
    ≡ some (pos 0, 0 ∷ 1 ∷ 1 ∷ [], record { position = 514; disk = 0 })
diskstreamer_read-bytes_example = diskstreamer_read-bytes numbered 2 511 3 (omega arith)
