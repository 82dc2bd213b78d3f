-- ===== src/Disk.antt =====
-- The disk driver of src/disk/disk.c: the bytes that `disk_read_sector` writes to the ports of the
-- drive before it reads the data. The drive itself is not modelled here.
pub mod Streamer
pub mod Ports
use vana.Prelude.{ℕ, ◌+◌, ◌/◌, ◌%◌, ◌^◌, bit_or, List, [], ◌∷◌}

-- A write of a byte to a port.
pub record PortWrite : Type 0 where
  pub port : ℕ
  pub value : ℕ

outb : ℕ → ℕ → PortWrite
outb port value = record { port = port; value = value % 256 }

-- `lba` is below 2 ^ 31, so the shifts are divisions.
pub read_sector_commands : ℕ → ℕ → List PortWrite
unfolding outb
read_sector_commands lba total =
    outb 0x1F6 (bit_or (lba / 2 ^ 24) 0xE0)
    ∷ outb 0x1F2 total
    ∷ outb 0x1F3 (lba % 2 ^ 8)
    ∷ outb 0x1F4 (lba / 2 ^ 8)
    ∷ outb 0x1F5 (lba / 2 ^ 16)
    ∷ outb 0x1F7 0x20
    ∷ []
