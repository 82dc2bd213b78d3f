-- ===== src/Keyboard/Ring.antt =====
-- The ring against a queue of characters.
use vana.Prelude.{
  ℕ, ◌+◌, ◌-◌, ◌%◌, ◌≤◌, ◌<◌, ◌≡◌, ◌≢◌, refl, sym, ◌∙◌, List, [], ◌∷◌, ◌++◌, arith, ==_ne, length,
  set, get_or, length-set, get_or-set_self, get_or-set_ne, length-snoc,
}
use native.Mathlib.Decide.{ℕ_discrete}
use vana.Keyboard.{KeyboardBuffer, buffer_size, get_tail_index, backspace, push, pop}

-- From the count `h` on, the slots hold the characters of `q`, none of them NUL.
abbrev pub Slots : List ℕ → ℕ → List ℕ → Type 0
Slots buf h [] = Unit
Slots buf h (c ∷ q) = (c ≢ 0) × (get_or buf (h % buffer_size) 0 ≡ c) × Slots buf (h + 1) q

-- The ring holds the characters of `q`, oldest first, and its other slots are 0.
pub record Holds (k : KeyboardBuffer) (q : List ℕ) : Type 0 where
  pub size : length k.buffer ≡ buffer_size
  pub span : k.tail ≡ k.head + length q
  pub room : length q ≤ buffer_size
  pub slots : Slots k.buffer k.head q
  pub clear :
      (i : ℕ) → k.tail ≤ i → i < k.head + buffer_size → get_or k.buffer (i % buffer_size) 0 ≡ 0

-- A write to the slot of a count that is less than a turn away from all of `q` does not disturb it.
Slots-set :
    (buf : List ℕ) (h i v : ℕ) (q : List ℕ)
    → Slots buf h q
    → ((j : ℕ) → h ≤ j → j < h + length q → i % buffer_size ≢ j % buffer_size)
    → Slots (set buf (i % buffer_size) v) h q
Slots-set buf h i v [] s apart = tt
Slots-set buf h i v (c ∷ q) s apart = (
  s.0,
  get_or-set_ne buf (i % buffer_size) (h % buffer_size) v 0 (apart h (omega arith) (omega arith))
      ∙ s.1,
  Slots-set buf (h + 1) i v q s.2 (λ j p r. apart j (omega arith) (omega arith)),
)

ends : (h i : ℕ) → i ≡ h + 0 → h % buffer_size ≡ i % buffer_size
ends h i e = omega arith

-- Two counts that are less than a turn apart have different slots.
turn : (i j : ℕ) → j < i → i < j + buffer_size → i % buffer_size ≢ j % buffer_size
turn i j p q = omega arith

Slots-snoc :
    (buf : List ℕ) (h i c : ℕ) (q : List ℕ)
    → Slots buf h q
    → i ≡ h + length q
    → c ≢ 0
    → get_or buf (i % buffer_size) 0 ≡ c
    → Slots buf h (q ++ c ∷ [])
Slots-snoc buf h i c [] s e ne g = (ne, rw (ends h i e) g, tt)
Slots-snoc buf h i c (d ∷ q) s e ne g =
    (s.0, s.1, Slots-snoc buf (h + 1) i c q s.2 (omega arith) ne g)

Slots-init : (buf : List ℕ) (h c : ℕ) (q : List ℕ) → Slots buf h (q ++ c ∷ []) → Slots buf h q
Slots-init buf h c [] s = tt
Slots-init buf h c (d ∷ q) s = (s.0, s.1, Slots-init buf (h + 1) c q s.2)

-- After a write of 0 to the slot `x`, the slot `y` is 0 if it was, or if it is `x`.
cleared :
    (buf : List ℕ) (x y : ℕ)
    → x < length buf
    → (x ≢ y → get_or buf y 0 ≡ 0)
    → get_or (set buf x 0) y 0 ≡ 0
cleared buf x y h k = elim (ℕ_discrete x y) [
  | yes e ↦ rw (← e) (get_or-set_self buf x 0 0 h)
  | no ne ↦ get_or-set_ne buf x y 0 0 ne ∙ k ne
]

below_turn :
    (i h : ℕ) → i < h + 1 + buffer_size → h % buffer_size ≢ i % buffer_size → i < h + buffer_size
below_turn i h r ne = omega arith

past : (i t : ℕ) → t - 1 ≤ i → (t - 1) % buffer_size ≢ i % buffer_size → t ≤ i
past i t p ne = omega arith

-- While less than `buffer_size` characters wait, a push of a character other than NUL appends it.
pub push-Holds :
    (k : KeyboardBuffer) (q : List ℕ) (c : ℕ)
    → Holds k q
    → c ≢ 0
    → length q < buffer_size
    → Holds (push c k) (q ++ c ∷ [])
unfolding push get_tail_index
push-Holds k q c v ne space = rw (==_ne c 0 ne) (record {
  size = length-set k.buffer (k.tail % buffer_size) c ∙ v.size;
  span = omega (arith, v.span, length-snoc q c);
  room = omega (arith, length-snoc q c);
  slots =
      Slots-snoc _ k.head k.tail c q
        (Slots-set k.buffer k.head k.tail c q v.slots
          (λ j p r. turn k.tail j (omega (arith, v.span)) (omega (arith, v.span))))
        v.span ne (get_or-set_self k.buffer (k.tail % buffer_size) c 0 (omega (arith, v.size)));
  clear = λ i p r.
      get_or-set_ne k.buffer (k.tail % buffer_size) (i % buffer_size) c 0
        (λ e. turn i k.tail (omega arith) (omega (arith, v.span)) (sym e))
      ∙ v.clear i (omega arith) r;
})

-- A pop from a ring that holds a character returns the oldest one and leaves the others.
pub pop-Holds :
    (k : KeyboardBuffer) (q : List ℕ) (c : ℕ)
    → Holds k (c ∷ q)
    → ((pop k).0 ≡ c) × Holds (pop k).1 q
unfolding pop
pop-Holds k q c v =
    rw (pop, v.slots.1, ==_ne c 0 v.slots.0)
      (
        refl,
        record {
          size = length-set k.buffer (k.head % buffer_size) 0 ∙ v.size;
          span = omega (arith, v.span);
          room = omega (arith, v.room);
          slots =
              Slots-set k.buffer (k.head + 1) k.head 0 q v.slots.2
                (λ j p r e. turn j k.head (omega arith) (omega (arith, v.room)) (sym e));
          clear = λ i p r.
              cleared k.buffer (k.head % buffer_size) (i % buffer_size) (omega (arith, v.size))
                (λ ne. v.clear i p (below_turn i k.head r ne));
        },
      )

-- When no character waits, a pop returns 0 and changes nothing.
pub pop_empty : (k : KeyboardBuffer) → Holds k [] → pop k ≡ (0, k)
unfolding pop
pop_empty k v = rw (pop, v.clear k.head (omega (arith, v.span)) (omega arith))

-- While a character waits, a backspace takes the newest one back.
pub backspace-Holds :
    (k : KeyboardBuffer) (q : List ℕ) (c : ℕ) → Holds k (q ++ c ∷ []) → Holds (backspace k) q
unfolding backspace get_tail_index
backspace-Holds k q c v = rw (==_ne k.tail 0 (omega (arith, v.span, length-snoc q c))) (record {
  size = length-set k.buffer ((k.tail - 1) % buffer_size) 0 ∙ v.size;
  span = omega (arith, v.span, length-snoc q c);
  room = omega (arith, v.room, length-snoc q c);
  slots =
      Slots-set k.buffer k.head (k.tail - 1) 0 q (Slots-init k.buffer k.head c q v.slots) (λ j p r.
        turn (k.tail - 1) j (omega (arith, v.span, length-snoc q c))
          (omega (arith, v.span, v.room, length-snoc q c)));
  clear = λ i p r.
      cleared k.buffer ((k.tail - 1) % buffer_size) (i % buffer_size) (omega (arith, v.size))
        (λ ne. v.clear i (past i k.tail p ne) r);
})

-- When all characters have been taken and at least one ever was, a backspace still moves the tail:
-- the character that is pushed next cannot be popped, for the pop that follows returns 0.
pub backspace_loses_next :
    (k : KeyboardBuffer) (c : ℕ)
    → Holds k []
    → 0 < k.head
    → c ≢ 0
    → (pop (push c (backspace k))).0 ≡ 0
unfolding pop push backspace get_tail_index
backspace_loses_next k c v h ne =
    let apart : (k.tail - 1) % buffer_size ≢ k.head % buffer_size = omega (arith, v.span) in
    rw (
      pop,
      push,
      backspace,
      ==_ne k.tail 0 (omega (arith, v.span)),
      ==_ne c 0 ne,
      get_or-set_ne (set k.buffer ((k.tail - 1) % buffer_size) 0) ((k.tail - 1) % buffer_size)
          (k.head % buffer_size) c 0 apart,
      get_or-set_ne k.buffer ((k.tail - 1) % buffer_size) (k.head % buffer_size) 0 0 apart,
      v.clear k.head (omega (arith, v.span)) (omega arith),
    )
