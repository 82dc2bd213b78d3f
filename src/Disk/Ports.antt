-- ===== src/Disk/Ports.antt =====
-- What the drive reads from its registers after the commands of `disk_read_sector`.
use vana.Prelude.{
  holds_to, holds_to_at, ℕ, ◌+◌, ◌*◌, ◌/◌, ◌%◌, ◌^◌, ◌<◌, ◌≡◌, refl, bit_or, true, List, [], ◌∷◌,
  arith, ◌==◌, ==_eq, if◌then◌else◌,
}
use vana.Disk.{PortWrite, read_sector_commands}

-- The last value written to a port, 0 if there is none.
unfoldable pub register : ℕ → List PortWrite → ℕ
register port [] = 0
register port (w ∷ ws) = let later = register port ws in if w.port == port then w.value else later

-- The 28-bit address that a drive in LBA mode composes from its registers, by the ATA standard.
unfoldable pub composed_lba : List PortWrite → ℕ
composed_lba ws =
    register 0x1F6 ws % 16 * 2 ^ 24
    + register 0x1F5 ws * 2 ^ 16
    + register 0x1F4 ws * 2 ^ 8
    + register 0x1F3 ws

drive_table : holds_to (λ x. bit_or x 0xE0 == 0xE0 + x) 16 ≡ true
drive_table = refl

drive_bits : (x : ℕ) → x < 16 → bit_or x 0xE0 ≡ 0xE0 + x
drive_bits x h = ==_eq _ _ (holds_to_at (λ y. bit_or y 0xE0 == 0xE0 + y) 16 x h drive_table)

-- For a sector below 2 ^ 28 and a count below 256, the registers compose to that sector, in LBA mode
-- on the first drive, with that count.
pub read_sector_commands_lba :
    (lba total : ℕ)
    → lba < 2 ^ 28
    → total < 256
    → let ws = read_sector_commands lba total in
      (composed_lba ws ≡ lba) × (register 0x1F6 ws / 16 ≡ 0xE) × (register 0x1F2 ws ≡ total)
unfolding read_sector_commands composed_lba register
read_sector_commands_lba lba total h k =
    rw (drive_bits (lba / 2 ^ 24) (omega arith)) (omega arith, omega arith, omega arith)
