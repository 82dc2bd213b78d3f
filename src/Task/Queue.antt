-- ===== src/Task/Queue.antt =====
-- The run queue as a list of addresses.
use vana.Prelude.{
  ℕ, zero, suc, ◌<◌, ◌≡◌, ◌≢◌, Option, some, List, [], ◌∷◌, arith, ==_ne, length, get_or,
}
use vana.Task.{Task, Tasks, Scheduler, write}

abbrev pub first : List ℕ → ℕ
first [] = 0
first (x ∷ xs) = x

abbrev pub last : List ℕ → ℕ
last [] = 0
last (x ∷ []) = x
last (x ∷ y ∷ xs) = last (y ∷ xs)

abbrev pub IsOut : ℕ → List ℕ → Type 0
IsOut a [] = Unit
IsOut a (x ∷ xs) = (x ≢ a) × IsOut a xs

abbrev pub IsDistinct : List ℕ → Type 0
IsDistinct [] = Unit
IsDistinct (x ∷ xs) = IsOut x xs × IsDistinct xs

-- The tasks are allocated, each leads to the next, and back to the one before it; `before` is the
-- one before the first.
abbrev pub Links : Tasks → ℕ → List ℕ → Type 0
Links h before [] = Unit
Links h before (x ∷ xs) =
    (x ≢ 0) × ((t : Task) × (h x ≡ some t) × (t.next ≡ first xs) × (t.prev ≡ before)) × Links h x xs

pub record IsQueue (s : Scheduler) (xs : List ℕ) : Type 0 where
  pub links : Links s.tasks 0 xs
  pub distinct : IsDistinct xs
  pub head : s.task_head ≡ first xs
  pub tail : s.task_tail ≡ last xs

-- A write to another address keeps the links.
pub Links-write :
    (h : Tasks) (before a : ℕ) (c : Option Task) (xs : List ℕ)
    → IsOut a xs
    → Links h before xs
    → Links (write h a c) before xs
Links-write h before a c [] o l = tt
Links-write h before a c (x ∷ xs) o l =
    let (t, e, n, p) = l.1 in (l.0, (t, rw (==_ne x a o.0) e, n, p), Links-write h x a c xs o.1 l.2)

-- The task at an index, and its link.
pub Links-at :
    (h : Tasks) (before : ℕ) (xs : List ℕ) (i : ℕ)
    → Links h before xs
    → i < length xs
    → (get_or xs i 0 ≢ 0)
      × (t : Task) × (h (get_or xs i 0) ≡ some t)
      × (t.next ≡ get_or xs (suc i) 0)
Links-at h before [] i l b = absurd (omega arith)
Links-at h before (x ∷ []) zero l b = let (t, e, n, p) = l.1 in (l.0, t, e, n)
Links-at h before (x ∷ y ∷ xs) zero l b = let (t, e, n, p) = l.1 in (l.0, t, e, n)
Links-at h before (x ∷ xs) (suc i) l b = Links-at h x xs i l.2 (omega arith)

pub last-IsOut : (a x : ℕ) (xs : List ℕ) → IsOut a (x ∷ xs) → last (x ∷ xs) ≢ a
last-IsOut a x [] o = o.0
last-IsOut a x (y ∷ xs) o = last-IsOut a y xs o.1
