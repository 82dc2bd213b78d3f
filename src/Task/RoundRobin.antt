-- ===== src/Task/RoundRobin.antt =====
-- Turns of the scheduler.
use vana.Prelude.{
  ℕ, zero, suc, ◌+◌, ◌%◌, ◌<◌, ◌≡◌, ◌≢◌, ◌⊎◌, inl, inr, refl, sym, ap, ◌∙◌, Bool-cases, some, List,
  [], ◌∷◌, arith, ◌==◌, ==_ne, ltb, if◌then◌else◌, length, get_or,
}
use native.Mathlib.Nat.{mod-eq_of_lt, mod-lt, mod-add-mod, mod_self}
use vana.Task.{Task, Scheduler, M, ◌>>◌, pure, task_get_next, task_switch, task_next}
use vana.Task.Queue.{Links-at, IsQueue, first}

-- The scheduler with another current task and directory.
abbrev pub running : Scheduler → ℕ → ℕ → Scheduler
running s x d = record s { current_task = x; current_directory = d }

-- `n` calls of `task_next`.
pub turns : ℕ → M (Unit {0})
turns zero = pure tt
turns (suc n) = do task_next; turns n

-- The index behind one, around the queue.
next_index :
    (i n : ℕ) → i < n → ((i + 1 < n) × ((i + 1) % n ≡ suc i)) ⊎ ((i + 1 ≡ n) × ((i + 1) % n ≡ 0))
next_index i n h = elim (Bool-cases (ltb (i + 1) n)) [
  | inl e ↦ inl (ground arith, grind arith)
  | inr e ↦ let whole : i + 1 ≡ n = ground arith in inr (whole, rw whole (mod_self n))
]

get_or-end : (xs : List ℕ) → get_or xs (length xs) 0 ≡ 0
get_or-end [] = refl
get_or-end (x ∷ xs) = get_or-end xs

get_or-first : (xs : List ℕ) → get_or xs 0 0 ≡ first xs
get_or-first [] = refl
get_or-first (x ∷ xs) = refl

-- A switch to a task that is there.
task_next-to :
    (s : Scheduler) (x y d : ℕ) (t u : Task)
    → x ≢ 0
    → s.tasks x ≡ some t
    → (if t.next == 0 then s.task_head else t.next) ≡ y
    → y ≢ 0
    → s.tasks y ≡ some u
    → task_next (running s x d) ≡ some (tt, running s y u.page_directory)
unfolding task_next task_get_next task_switch
task_next-to s x y d t u a e n b f = rw (==_ne x 0 a, e, n, ==_ne y 0 b, ==_ne y 0 b, f) refl

suc_end : (i n : ℕ) → i + 1 ≡ n → suc i ≡ n
suc_end i n h = omega arith

same_index : (i n : ℕ) → i < n → i ≡ (i + 0) % n
same_index i n h = sym (mod-eq_of_lt h) ∙ ap (λ j. j % n) (omega arith)

module _ (s : Scheduler) (xs : List ℕ) (v : IsQueue s xs) where
  -- One turn goes from the task at an index to the one at the next.
  task_next-index :
      (i d : ℕ)
      → i < length xs
      → (d' : ℕ) × (task_next (running s (get_or xs i 0) d)
          ≡ some (tt, running s (get_or xs ((i + 1) % length xs) 0) d'))
  task_next-index i d h = elim (next_index i (length xs) h) [
    | inl (inside, e) ↦
        let (a, t, f, n) = Links-at s.tasks 0 xs i v.links h in
        let (b, u, g, _) = Links-at s.tasks 0 xs (suc i) v.links (omega arith) in
        (
          u.page_directory,
          task_next-to s (get_or xs i 0) (get_or xs (suc i) 0) d t u a f
                (rw (n, ==_ne (get_or xs (suc i) 0) 0 b) refl) b g
              ∙ ap (λ j. some (tt, running s (get_or xs j 0) u.page_directory)) (sym e),
        )
    | inr (ends, e) ↦
        let (a, t, f, n) = Links-at s.tasks 0 xs i v.links h in
        let (b, u, g, _) = Links-at s.tasks 0 xs 0 v.links (omega arith) in
        (
          u.page_directory,
          task_next-to s (get_or xs i 0) (get_or xs 0 0) d t u a f
                (rw (n ∙ ap (λ j. get_or xs j 0) (suc_end i (length xs) ends) ∙ get_or-end xs)
                  (v.head ∙ sym (get_or-first xs)))
                b g
              ∙ ap (λ j. some (tt, running s (get_or xs j 0) u.page_directory)) (sym e),
        )
  ]

  -- In a queue, `n` turns after the task at an index the task `n` places behind it runs, counted
  -- around the queue: each task runs again once every task has had its turn.
  pub turns-round_robin :
      (n i d : ℕ)
      → i < length xs
      → (d' : ℕ) × (turns n (running s (get_or xs i 0) d)
          ≡ some (tt, running s (get_or xs ((i + n) % length xs) 0) d'))
  unfolding turns
  turns-round_robin zero i d h =
      (d, ap (λ j. some (tt, running s (get_or xs j 0) d)) (same_index i (length xs) h))
  turns-round_robin (suc n) i d h =
      let k = length xs in
      let (d1, e) = task_next-index i d h in
      let (d2, ih) = turns-round_robin n ((i + 1) % k) d1 (mod-lt (i + 1) (omega arith)) in
      (
        d2,
        rw e (
            ih
            ∙ ap (λ j. some (tt, running s (get_or xs j 0) d2))
                (mod-add-mod (i + 1) k n ∙ ap (λ j. j % k) (omega arith))),
      )
