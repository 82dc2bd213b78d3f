-- ===== src/Task/Copy/Loop.antt =====
-- The copy of a task's text to the mapped buffer.
use vana.Prelude.{
  ℕ, zero, suc, ◌+◌, ◌*◌, ◌/◌, ◌%◌, ◌^◌, ◌≤◌, ◌<◌, ◌≡◌, ◌≢◌, refl, sym, ap, ◌∙◌, arith, List, [],
  ◌∷◌, length, get_or, ==_ne, ==_refl, ◌==◌, if◌then◌else◌, true, subst,
}
use native.Mathlib.Decide.{ℕ_discrete}
use vana.Strings.Lengths.{IsText}
use vana.Paging.{Memory, page_size, get_physical_address}
use vana.Paging.Identity.{Keeps}
use vana.Task.User.{byte_at, put_byte, user_byte, strncpy_user}
use vana.Task.Bytes.{byte_at-put_byte, byte_at-put_byte_ne, put_byte-Keeps, byte_at-bound}
use vana.Task.Copy.{Setup, UserText, get_physical_address-Keeps, UserText-Keeps}

-- The first `i` bytes of the buffer are those of the text, and the other pages are as in `mem`.
pub record Copied (p : ℕ) (text : List ℕ) (mem : Memory) (i : ℕ) (m : Memory) : Type 0 where
  pub keeps : Keeps p mem m
  pub bytes : (j : ℕ) → j < i → byte_at (p * page_size + j) m ≡ get_or text j 0

buffer_page : (p i : ℕ) → i < page_size → (p * page_size + i) / page_size ≡ p
buffer_page p i l = omega arith

Copied-put :
    (p c i : ℕ) (text : List ℕ) (mem m : Memory)
    → Copied p text mem i m
    → i < page_size
    → c < 256
    → c ≡ get_or text i 0
    → Copied p text mem (suc i) (put_byte (p * page_size + i) c m)
Copied-put p c i text mem m k l h e = record {
  keeps = λ x n.
      put_byte-Keeps (p * page_size + i) c m x (λ q. n (q ∙ buffer_page p i l)) ∙ k.keeps x n;
  bytes = λ j g. elim (ℕ_discrete j i) [
    | yes s ↦
        ap (λ y. byte_at (p * page_size + y) (put_byte (p * page_size + i) c m)) s
        ∙ byte_at-put_byte (p * page_size + i) c m h
        ∙ e
        ∙ ap (λ y. get_or text y 0) (sym s)
    | no n ↦
        byte_at-put_byte_ne (p * page_size + i) (p * page_size + j) c m (λ q. n (omega arith)) h
        ∙ k.bytes j (omega arith)
  ];
}

IsText-get_or : (text : List ℕ) (i : ℕ) → IsText text → i < length text → get_or text i 0 ≢ 0
IsText-get_or [] i t l = absurd (omega arith)
IsText-get_or (c ∷ text) zero t l = t.0
IsText-get_or (c ∷ text) (suc i) t l = IsText-get_or text i t.1 (omega arith)

get_or-end : (text : List ℕ) → get_or text (length text) 0 ≡ 0
get_or-end [] = refl
get_or-end (c ∷ text) = get_or-end text

wrap : (v : ℕ) → v < 2 ^ 32 → v % 2 ^ 32 ≡ v
wrap v h = omega arith

user_byte-bound : (directory v : ℕ) (m : Memory) → user_byte directory v m < 256
unfolding user_byte
user_byte-bound directory v m = byte_at-bound (get_physical_address directory v m) m

module _ (d p virt : ℕ) (text : List ℕ) (mem : Memory) (s : Setup d p mem)
    (u : UserText d p virt text mem) (t : IsText text) (h : p < 2 ^ 20)
    (mapped : (i : ℕ)
      → i < page_size
      → get_physical_address (d * page_size) (p * page_size + i) mem ≡ p * page_size + i) where
  target :
      (i : ℕ) (m : Memory)
      → Copied p text mem i m
      → i < page_size
      → get_physical_address (d * page_size) ((p * page_size + i) % 2 ^ 32) m ≡ p * page_size + i
  target i m k l =
      ap (λ v. get_physical_address (d * page_size) v m) (wrap (p * page_size + i) (omega arith))
      ∙ get_physical_address-Keeps d p mem s m k.keeps (p * page_size + i) (omega arith)
      ∙ mapped i l

  source :
      (i : ℕ) (m : Memory)
      → Copied p text mem i m
      → i ≤ length text
      → user_byte (d * page_size) ((virt + i) % 2 ^ 32) m ≡ get_or text i 0
  source i m k l =
      ap (λ v. user_byte (d * page_size) v m) (wrap (virt + i) (omega (arith, u.below)))
      ∙ (UserText-Keeps d p mem s m k.keeps virt text u).bytes i l

  char_bound : (i : ℕ) → i ≤ length text → get_or text i 0 < 256
  char_bound i l = omega (arith, u.bytes i l, user_byte-bound (d * page_size) (virt + i) mem)

  pub strncpy_user-Copied :
      (n i : ℕ) (m : Memory)
      → Copied p text mem i m
      → i ≤ length text
      → length text ≤ i + n
      → i + n < page_size
      → Copied p text mem
          (suc (length text))
          (strncpy_user n i (d * page_size) (p * page_size) virt m)
  unfolding strncpy_user
  strncpy_user-Copied zero i m k l f b =
      let last : i ≡ length text = omega arith in
      rw (target i m k (omega arith)) (
        rw (← last) (
          Copied-put p 0 i text mem m k (omega arith) (omega arith)
            (sym (ap (λ y. get_or text y 0) last ∙ get_or-end text))))
  strncpy_user-Copied (suc n) i m k l f b =
      let c = get_or text i 0 in
      let next = Copied-put p c i text mem m k (omega arith) (char_bound i l) refl in
      rw (source i m k l, target i m k (omega arith))
        (elim (ℕ_discrete i (length text)) [
          | yes last ↦
              let ended : get_or text i 0 ≡ 0 = ap (λ y. get_or text y 0) last ∙ get_or-end text in
              ended_copy c ended last next
          | no more ↦ rw (==_ne c 0 (IsText-get_or text i t (omega arith))) (
              strncpy_user-Copied n (i + 1) (put_byte (p * page_size + i) c m)
                (subst (λ y. Copied p text mem y (put_byte (p * page_size + i) c m)) (suc_one i)
                  next)
                (omega arith) (omega arith) (omega arith))
        ])
    where
      suc_one : (i : ℕ) → suc i ≡ i + 1
      suc_one i = omega arith

      ended_copy :
          (c : ℕ)
          → c ≡ 0
          → i ≡ length text
          → Copied p text mem (suc i) (put_byte (p * page_size + i) c m)
          → Copied p text mem (suc (length text)) (
              if c == 0
              then put_byte (p * page_size + i) c m
              else strncpy_user n
                  (i + 1)
                  (d * page_size)
                  (p * page_size)
                  virt
                  (put_byte (p * page_size + i) c m))
      ended_copy c e last k =
          let tested : (c == 0) ≡ true = rw e (==_refl 0) in rw (tested, ← last) k
