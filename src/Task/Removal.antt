-- ===== src/Task/Removal.antt =====
-- Tasks that exit.
use vana.Prelude.{
  ℕ, ◌≡◌, ◌≢◌, refl, sym, ◌∙◌, false, Bool-cases, inl, inr, some, none, List, ◌∷◌, ◌==◌, ==_ne,
  ==_refl, ==_eq, if◌then◌else◌,
}
use vana.Task.{Task, Scheduler, write, task_get_next, task_list_remove, task_free}
use vana.Task.Queue.{IsQueue, last-IsOut}

task_get_next-to :
    (s : Scheduler) (x y : ℕ) (t : Task)
    → x ≢ 0
    → s.tasks x ≡ some t
    → t.next ≡ y
    → y ≢ 0
    → s.current_task ≡ x
    → task_get_next s ≡ some (y, s)
unfolding task_get_next
task_get_next-to s x y t x0 e n y0 c = rw (task_get_next, c, ==_ne x 0 x0, e, n, ==_ne y 0 y0) refl

-- The first task leaves the queue: the second is its head, and runs next if the first was running.
task_list_remove-head :
    (s : Scheduler) (x y : ℕ) (t : Task)
    → s.tasks x ≡ some t
    → x ≢ 0
    → y ≢ 0
    → t.prev ≡ 0
    → t.next ≡ y
    → s.task_head ≡ x
    → (x == s.task_tail) ≡ false
    → task_list_remove x s
      ≡ some (
        tt,
        record s {
          task_head = y;
          current_task = if x == s.current_task then y else s.current_task;
        },
      )
unfolding task_list_remove
task_list_remove-head s x y t e x0 y0 p n head tail = elim (Bool-cases (x == s.current_task)) [
  | inl c ↦
      rw
        (
          ==_ne x 0 x0,
          e,
          p,
          ==_ne x 0 x0,
          e,
          head,
          ==_refl x,
          tail,
          c,
          task_get_next-to (record s { task_head = t.next }) x y t x0 e n y0
              (sym (==_eq x s.current_task c)),
          n,
        )
        refl
  | inr c ↦ rw (==_ne x 0 x0, e, p, ==_ne x 0 x0, e, head, ==_refl x, tail, c, n) refl
]

-- The state once the first of two or more tasks has been freed.
abbrev without_head : Scheduler → ℕ → ℕ → Task → Scheduler
without_head s x y t = record s {
  task_head = y;
  current_task = if x == s.current_task then y else s.current_task;
  freed_directories = t.page_directory ∷ s.freed_directories;
  tasks = write s.tasks x none;
}

task_free-head :
    (s : Scheduler) (x y : ℕ) (xs : List ℕ) (v : IsQueue s (x ∷ y ∷ xs))
    → task_free x s ≡ some (tt, without_head s x y v.links.1.0)
unfolding task_free
task_free-head s x y xs v =
    let (t, e, n, p) = v.links.1 in
    let other : (x == s.task_tail) ≡ false =
      ==_ne x s.task_tail (λ q. last-IsOut x y xs v.distinct.0 (sym v.tail ∙ sym q)) in
    rw
      (
        ==_ne x 0 v.links.0,
        e,
        task_list_remove-head
            (record s { freed_directories = t.page_directory ∷ s.freed_directories }) x y t e
            v.links.0 v.links.2.0 p n v.head other,
      )
      refl

-- A task that leads back to one that is no longer allocated cannot be freed.
task_free-dangling :
    (s : Scheduler) (x y : ℕ) (u : Task)
    → s.tasks y ≡ some u
    → y ≢ 0
    → u.prev ≡ x
    → x ≢ 0
    → s.tasks x ≡ none
    → task_free y s ≡ none
unfolding task_free task_list_remove
task_free-dangling s x y u e y0 p x0 d =
    rw (==_ne y 0 y0, e, ==_ne y 0 y0, e, p, ==_ne x 0 x0, ==_ne x 0 x0, d) refl

-- After the exit of the first of two tasks: it has succeeded, the first task is no longer allocated,
-- the second still is and leads back to it, and the exit of the second fails.
abbrev pub SecondFails : Scheduler → ℕ → ℕ → Type 0
SecondFails s x y =
    (s' : Scheduler) × (task_free x s ≡ some (tt, s'))
    × (s'.tasks x ≡ none)
    × (u : Task) × (s'.tasks y ≡ some u)
    × (u.prev ≡ x)
    × (task_free y s' ≡ none)

-- The exit of the first of two or more tasks of a queue succeeds, but the second still leads back to
-- it, although it is no longer allocated, and the exit of the second then fails.
pub task_free-second :
    (s : Scheduler) (x y : ℕ) (xs : List ℕ) → IsQueue s (x ∷ y ∷ xs) → SecondFails s x y
task_free-second s x y xs v =
    let (u, e, n, p) = v.links.2.1 in
    let s' = without_head s x y v.links.1.0 in
    let gone : s'.tasks x ≡ none = rw (==_refl x) refl in
    let kept : s'.tasks y ≡ some u = rw (==_ne y x v.distinct.0.0) e in
    (
      s',
      task_free-head s x y xs v,
      gone,
      u,
      kept,
      p,
      task_free-dangling s' x y u kept v.links.2.0 p v.links.0 gone,
    )
