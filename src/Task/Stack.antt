-- ===== src/Task/Stack.antt =====
-- The words on a task's stack.
use vana.Prelude.{ℕ, ◌+◌, ◌-◌, ◌*◌, ◌/◌, ◌%◌, ◌^◌, ◌<◌, ◌≤◌, ◌≡◌, refl, arith}
use vana.Paging.{Memory, page_size, get_physical_address, align_to_lower_page, get_page}
use vana.Paging.Mapping.{table_of-aligned}
use vana.Task.User.{byte_at, user_byte, task_get_stack_item}

same_base : (v k : ℕ) → v % 4 ≡ 0 → k < 4 → (v + k) - (v + k) % page_size ≡ v - v % page_size
same_base v k a h = omega arith

-- The bytes of an aligned word are translated together.
get_physical_address-word :
    (directory v k : ℕ) (mem : Memory)
    → v % 4 ≡ 0
    → k < 4
    → get_physical_address directory (v + k) mem ≡ get_physical_address directory v mem + k
unfolding get_physical_address align_to_lower_page
get_physical_address-word directory v k mem a h =
    let base = v - v % page_size in
    rw (same_base v k a h) (omega (arith, table_of-aligned (get_page directory base mem)))

get_physical_address-aligned :
    (directory v : ℕ) (mem : Memory) → v % 4 ≡ 0 → get_physical_address directory v mem % 4 ≡ 0
unfolding get_physical_address align_to_lower_page
get_physical_address-aligned directory v mem a =
    omega (arith, table_of-aligned (get_page directory (v - v % page_size) mem))

byte_of-word :
    (p k : ℕ) (mem : Memory) → p % 4 ≡ 0 → k < 4 → byte_at (p + k) mem ≡ mem p / 2 ^ (8 * k) % 256
unfolding byte_at
byte_of-word p k mem a h =
    let low : (p + k) % 4 ≡ k = omega arith in
    let base : p + k - k ≡ p = omega arith in rw (low, base) refl

whole_word :
    (w : ℕ)
    → w < 2 ^ 32
    → w / 2 ^ (8 * 0) % 256
        + 256 * (w / 2 ^ (8 * 1) % 256)
        + 2 ^ 16 * (w / 2 ^ (8 * 2) % 256)
        + 2 ^ 24 * (w / 2 ^ (8 * 3) % 256)
      ≡ w
whole_word w h = omega arith

wrap : (v k : ℕ) → v + 4 ≤ 2 ^ 32 → k < 4 → (v + k) % 2 ^ 32 ≡ v + k
wrap v k h l = omega arith

-- Where the stack pointer is aligned, an item is the word at the address that its own is translated
-- to.
pub task_get_stack_item-word :
    (directory esp index : ℕ) (mem : Memory)
    → esp % 4 ≡ 0
    → esp + 4 * index < 2 ^ 32
    → mem (get_physical_address directory (esp + 4 * index) mem) < 2 ^ 32
    → task_get_stack_item directory esp index mem
      ≡ mem (get_physical_address directory (esp + 4 * index) mem)
unfolding task_get_stack_item
task_get_stack_item-word directory esp index mem a h w =
    let v = esp + 4 * index in
    let p = get_physical_address directory v mem in
    let part : (k : ℕ)
        → k < 4
        → user_byte directory ((v + k) % 2 ^ 32) mem ≡ mem p / 2 ^ (8 * k) % 256 =
      λ k l. item_byte directory v k mem (omega arith) (omega arith) l in
    rw (part 0 (omega arith), part 1 (omega arith), part 2 (omega arith), part 3 (omega arith))
      (whole_word (mem p) w)
  where
    item_byte :
        (directory v k : ℕ) (mem : Memory)
        → v % 4 ≡ 0
        → v + 4 ≤ 2 ^ 32
        → k < 4
        → user_byte directory ((v + k) % 2 ^ 32) mem
          ≡ mem (get_physical_address directory v mem) / 2 ^ (8 * k) % 256
    item_byte directory v k mem a h l =
        unfold user_byte in
        rw (wrap v k h l, get_physical_address-word directory v k mem a l)
          (byte_of-word (get_physical_address directory v mem) k mem
            (get_physical_address-aligned directory v mem a) l)
