-- ===== src/Task/Bytes.antt =====
-- The bytes of the memory's words.
use vana.Prelude.{ℕ, ◌+◌, ◌-◌, ◌*◌, ◌/◌, ◌%◌, ◌^◌, ◌<◌, ◌≡◌, ◌≢◌, refl, sym, ap, ◌∙◌, arith, subst}
use native.Mathlib.Decide.{ℕ_discrete}
use vana.Paging.{Memory, store, page_size}
use vana.Paging.Mapping.{store_ne, store_self}
use vana.Paging.Identity.{Keeps}
use vana.Task.User.{byte_at, put_byte}

-- The byte `i` of a word, and the word with another one.
abbrev byte_of : ℕ → ℕ → ℕ
byte_of i w = w / 2 ^ (8 * i) % 256

abbrev with_byte : ℕ → ℕ → ℕ → ℕ
with_byte i c w = w / (2 ^ (8 * i) * 256) * (2 ^ (8 * i) * 256) + c * 2 ^ (8 * i) + w % 2 ^ (8 * i)

index_cases : (i : ℕ) → i < 4 → (P : ℕ → Type 0) → P 0 → P 1 → P 2 → P 3 → P i
index_cases i l P a b c d = elim (ℕ_discrete i 0) [
  | yes e ↦ subst P (sym e) a
  | no n0 ↦ elim (ℕ_discrete i 1) [
    | yes e ↦ subst P (sym e) b
    | no n1 ↦ elim (ℕ_discrete i 2) [
      | yes e ↦ subst P (sym e) c
      | no n2 ↦ let e : 3 ≡ i = omega arith in subst P e d
    ]
  ]
]

byte_of_self : (i c w : ℕ) → i < 4 → c < 256 → byte_of i (with_byte i c w) ≡ c
byte_of_self i c w l h =
    index_cases i l (λ k. byte_of k (with_byte k c w) ≡ c) (omega arith) (omega arith) (omega arith)
      (omega arith)

byte_of-first : (j c w : ℕ) → j < 4 → j ≢ 0 → c < 256 → byte_of j (with_byte 0 c w) ≡ byte_of j w
byte_of-first j c w l n h =
    index_cases j l (λ k. k ≢ 0 → byte_of k (with_byte 0 c w) ≡ byte_of k w)
      (λ n'. absurd (n' refl)) (λ n'. omega arith) (λ n'. omega arith) (λ n'. omega arith) n

byte_of-second : (j c w : ℕ) → j < 4 → j ≢ 1 → c < 256 → byte_of j (with_byte 1 c w) ≡ byte_of j w
byte_of-second j c w l n h =
    index_cases j l (λ k. k ≢ 1 → byte_of k (with_byte 1 c w) ≡ byte_of k w) (λ n'. omega arith)
      (λ n'. absurd (n' refl)) (λ n'. omega arith) (λ n'. omega arith) n

byte_of-third : (j c w : ℕ) → j < 4 → j ≢ 2 → c < 256 → byte_of j (with_byte 2 c w) ≡ byte_of j w
byte_of-third j c w l n h =
    index_cases j l (λ k. k ≢ 2 → byte_of k (with_byte 2 c w) ≡ byte_of k w) (λ n'. omega arith)
      (λ n'. omega arith) (λ n'. absurd (n' refl)) (λ n'. omega arith) n

byte_of-fourth : (j c w : ℕ) → j < 4 → j ≢ 3 → c < 256 → byte_of j (with_byte 3 c w) ≡ byte_of j w
byte_of-fourth j c w l n h =
    index_cases j l (λ k. k ≢ 3 → byte_of k (with_byte 3 c w) ≡ byte_of k w) (λ n'. omega arith)
      (λ n'. omega arith) (λ n'. omega arith) (λ n'. absurd (n' refl)) n

byte_of-other :
    (i j c w : ℕ) → i < 4 → j < 4 → j ≢ i → c < 256 → byte_of j (with_byte i c w) ≡ byte_of j w
byte_of-other i j c w l k n h =
    index_cases i l (λ x. j ≢ x → byte_of j (with_byte x c w) ≡ byte_of j w)
      (λ n'. byte_of-first j c w k n' h) (λ n'. byte_of-second j c w k n' h)
      (λ n'. byte_of-third j c w k n' h) (λ n'. byte_of-fourth j c w k n' h) n

pub byte_at-put_byte : (a c : ℕ) (mem : Memory) → c < 256 → byte_at a (put_byte a c mem) ≡ c
unfolding byte_at put_byte
byte_at-put_byte a c mem h =
    ap (byte_of (a % 4)) (store_self mem (a - a % 4) (with_byte (a % 4) c (mem (a - a % 4))))
    ∙ byte_of_self (a % 4) c (mem (a - a % 4)) (omega arith) h

pub byte_at-put_byte_ne :
    (a b c : ℕ) (mem : Memory) → b ≢ a → c < 256 → byte_at b (put_byte a c mem) ≡ byte_at b mem
unfolding byte_at put_byte
byte_at-put_byte_ne a b c mem n h =
    let word = with_byte (a % 4) c (mem (a - a % 4)) in
    elim (ℕ_discrete (b - b % 4) (a - a % 4)) [
      | yes e ↦
          let differ : b % 4 ≢ a % 4 = λ q. n (omega arith) in
          ap (λ x. byte_of (b % 4) (store mem (a - a % 4) word x)) e
          ∙ ap (byte_of (b % 4)) (store_self mem (a - a % 4) word)
          ∙ byte_of-other (a % 4) (b % 4) c (mem (a - a % 4)) (omega arith) (omega arith) differ h
          ∙ ap (λ x. byte_of (b % 4) (mem x)) (sym e)
      | no m ↦ ap (byte_of (b % 4)) (store_ne mem (a - a % 4) (b - b % 4) word m)
    ]

word_page : (a : ℕ) → (a - a % 4) / page_size ≡ a / page_size
word_page a = omega arith

-- A byte is written on its page.
pub put_byte-Keeps : (a c : ℕ) (mem : Memory) → Keeps (a / page_size) mem (put_byte a c mem)
unfolding put_byte
put_byte-Keeps a c mem x n =
    store_ne mem (a - a % 4) x (with_byte (a % 4) c (mem (a - a % 4)))
      (λ e. n (ap (λ y. y / page_size) e ∙ word_page a))

pub byte_at-same :
    (p a : ℕ) (mem mem' : Memory)
    → Keeps p mem mem'
    → a / page_size ≢ p
    → byte_at a mem' ≡ byte_at a mem
unfolding byte_at
byte_at-same p a mem mem' k n =
    ap (λ w. w / 2 ^ (8 * (a % 4)) % 256) (k (a - a % 4) (λ e. n (sym (word_page a) ∙ e)))

pub byte_at-bound : (a : ℕ) (mem : Memory) → byte_at a mem < 256
unfolding byte_at
byte_at-bound a mem = omega arith

-- A word on another page.
pub byte_at-other_page :
    (a at v : ℕ) (mem : Memory)
    → a / page_size ≢ at / page_size
    → byte_at a (store mem at v) ≡ byte_at a mem
unfolding byte_at
byte_at-other_page a at v mem n =
    ap (byte_of (a % 4))
      (store_ne mem at (a - a % 4) v (λ e. n (sym (word_page a) ∙ ap (λ y. y / page_size) e)))
