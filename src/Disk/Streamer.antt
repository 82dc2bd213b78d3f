-- ===== src/Disk/Streamer.antt =====
-- The byte stream over sectors of src/disk/streamer.c. What the drive holds is a parameter: `sector`
-- gives the bytes of each sector, as `disk_read_block` copies them into the buffer. A position is
-- below 2 ^ 31.
pub mod Bytes
mod Tests
use vana.Prelude.{
  ℕ, zero, suc, ◌+◌, ◌-◌, ◌/◌, ◌%◌, Option, none, some, List, [], ◌∷◌, ◌++◌, ◌>>=◌, leb, ◌==◌,
  get_or, if◌then◌else◌, ℤ, pos, negsuc, Bool,
}

abbrev pub sector_size : ℕ
sector_size = 512

-- `disk` is the id of the disk behind the stream's pointer.
pub record DiskStream : Type 0 where
  pub position : ℕ
  pub disk : ℕ

-- The only disk is disk 0.
-- `done` is whether the heap has memory for the stream. `some none` is the null pointer for a disk
-- that does not exist, and `none` a write through a null pointer from the heap.
pub diskstreamer_new : (done : Bool) → ℕ → Option (Option DiskStream)
diskstreamer_new done disk_id =
    let stream : Option (Option DiskStream) =
      if done then some (some (record { position = 0; disk = disk_id })) else none in
    if disk_id == 0 then stream else some none

unfoldable pub diskstreamer_seek : DiskStream → ℕ → ℤ × DiskStream
diskstreamer_seek stream p = (pos 0, record stream { position = p })

-- `disk_read_block` for one sector: -EIO for a pointer that is not the disk's.
pub disk_read_block : (ℕ → List ℕ) → ℕ → ℕ → ℤ × List ℕ
disk_read_block sector disk lba = if disk == 0 then (pos 0, sector lba) else (negsuc 0, [])

-- `n` bytes of the buffer from the index `i` on.
copy_out : ℕ → ℕ → List ℕ → List ℕ
copy_out zero i buf = []
copy_out (suc n) i buf = get_or buf i 0 ∷ copy_out n (i + 1) buf

is_negative : ℤ → Bool
is_negative (pos n) = leb 1 0
is_negative (negsuc n) = leb 0 0

-- The result, the bytes written to `out`, and the stream. `none`: the fuel ran out.
pub diskstreamer_read : (ℕ → List ℕ) → ℕ → DiskStream → ℕ → Option (ℤ × List ℕ × DiskStream)
unfolding copy_out disk_read_block is_negative
diskstreamer_read sector zero stream total = none
diskstreamer_read sector (suc fuel) stream total =
    let number = stream.position / sector_size in
    let offset = stream.position % sector_size in
    let overflow = leb sector_size (offset + total) in
    let total_to_read = if overflow then total - (offset + total - sector_size) else total in
    let (res, buf) = disk_read_block sector stream.disk number in
    let out = copy_out total_to_read offset buf in
    let stream' : DiskStream = record stream { position = stream.position + total_to_read } in
    let rest : Option (ℤ × List ℕ × DiskStream) = (do
      (res', more, stream'') ← diskstreamer_read sector fuel stream' (total - total_to_read)
      some (res', out ++ more, stream'')) in
    if is_negative res
    then some (res, [], stream)
    else if overflow
    then rest
    else some (res, out, stream')
