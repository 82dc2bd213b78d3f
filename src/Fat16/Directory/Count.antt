-- ===== src/Fat16/Directory/Count.antt =====
-- How many entries of a directory are counted.
use vana.Prelude.{
  ℕ, zero, suc, ◌+◌, ◌*◌, ◌<◌, ◌≡◌, ◌≢◌, refl, ap, ◌∙◌, Bool-cases, inl, inr, pos, some, List, [],
  ◌∷◌, arith, ◌==◌, ==_ne, if◌then◌else◌, length,
}
use vana.Disk.Streamer.{sector_size, diskstreamer_seek}
use vana.Disk.Streamer.Bytes.{byte_at, bytes, diskstreamer_read-bytes}
use vana.Fat16.{Mount, Stream, seek_stream, read_stream, item_size}
use vana.Fat16.Clusters.Contents.{stream_at}
use vana.Fat16.Directory.{count_loop, get_total_items_for_directory}

-- The mount with the stream of directories at a position.
abbrev pub directory_at : Mount → ℕ → Mount
directory_at m p = record m { directory_stream = stream_at p }

-- A deleted entry starts with 0xE5.
abbrev pub count_live : List ℕ → ℕ
count_live [] = 0
count_live (f ∷ fs) = let rest = count_live fs in if f == 0xE5 then rest else rest + 1

abbrev pub count_deleted : List ℕ → ℕ
count_deleted [] = 0
count_deleted (f ∷ fs) = let rest = count_deleted fs in if f == 0xE5 then rest + 1 else rest

pub live_and_deleted : (fs : List ℕ) → count_live fs + count_deleted fs ≡ length fs
live_and_deleted [] = refl
live_and_deleted (f ∷ fs) = elim (Bool-cases (f == 0xE5)) [
  | inl e ↦ rw e (omega (arith, live_and_deleted fs))
  | inr e ↦ rw e (omega (arith, live_and_deleted fs))
]

module _ (sector : ℕ → List ℕ) where
  -- The entries from a position on start with these bytes, and the one behind them with 0.
  abbrev pub EntriesAt : ℕ → List ℕ → Type 0
  EntriesAt p [] = byte_at sector p ≡ 0
  EntriesAt p (f ∷ fs) = (byte_at sector p ≡ f) × (f ≢ 0) × EntriesAt (p + item_size) fs

  module _ (fuel : ℕ) (m : Mount) (enough : 1 < fuel) where
    read_entry :
        (p : ℕ)
        → read_stream sector fuel Stream.directory_read item_size (directory_at m p)
          ≡ some ((pos 0, bytes sector p item_size), directory_at m (p + item_size))
    unfolding read_stream
    read_entry p =
        rw (read_stream, diskstreamer_read-bytes sector fuel p item_size (omega arith)) refl

    count_loop-live :
        (fs : List ℕ) (rounds p i : ℕ)
        → length fs < rounds
        → EntriesAt p fs
        → (p' : ℕ) × (count_loop sector fuel rounds i (directory_at m p)
            ≡ some (pos (i + count_live fs), directory_at m p'))
    unfolding count_loop
    count_loop-live fs zero p i r h = absurd (omega arith)
    count_loop-live [] (suc rounds) p i r h = (
      p + item_size,
      rw (read_entry p, h) (ap (λ k. some (pos k, directory_at m (p + item_size))) (omega arith)),
    )
    count_loop-live (f ∷ fs) (suc rounds) p i r h = elim (Bool-cases (f == 0xE5)) [
      | inl e ↦
          let (p', ih) = count_loop-live fs rounds (p + item_size) i (omega arith) h.2 in
          (p', rw (read_entry p, h.0, ==_ne f 0 h.1, e) ih)
      | inr e ↦
          let (p', ih) = count_loop-live fs rounds (p + item_size) (i + 1) (omega arith) h.2 in
          (
            p',
            rw (read_entry p, h.0, ==_ne f 0 h.1, e)
                (ih ∙ ap (λ k. some (pos k, directory_at m p')) (omega arith)),
          )
    ]

    -- The count of a directory is the number of its entries up to the first that starts with 0,
    -- without the deleted ones, which make up the rest. The
    -- fuel is more than the number of entries, and more than 1.
    pub get_total_items_for_directory-live :
        (fs : List ℕ) (start p : ℕ)
        → length fs < fuel
        → EntriesAt (start * sector_size) fs
        → (total p' : ℕ) × (get_total_items_for_directory sector fuel start (directory_at m p)
            ≡ some (pos total, directory_at m p'))
          × (total + count_deleted fs ≡ length fs)
    unfolding get_total_items_for_directory seek_stream diskstreamer_seek
    get_total_items_for_directory-live fs start p r h =
        let (p', e) = count_loop-live fs fuel (start * sector_size) 0 r h in
        (
          count_live fs,
          p',
          e ∙ ap (λ k. some (pos k, directory_at m p')) (omega arith),
          live_and_deleted fs,
        )
