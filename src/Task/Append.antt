-- ===== src/Task/Append.antt =====
-- A new task joins the end of the queue.
use vana.Prelude.{
  some-eq, ℕ, ◌≡◌, ◌≢◌, refl, sym, ap, ◌∙◌, Option, some, none, List, [], ◌∷◌, ◌++◌, ==_ne, ==_refl,
}
use vana.Task.{Task, Tasks, Scheduler, write, task_init, task_new}
use vana.Task.Queue.{Links, IsQueue, IsOut, IsDistinct, last, last-IsOut}

abbrev relink : ℕ → Task → Option Task
relink a t = some (record t { next = a })

-- The links of a queue with one more task: the old tasks but the last are as before, the last leads
-- to the new one, and the new one back to it.
Links-snoc :
    (h h' : Tasks) (before x : ℕ) (xs : List ℕ) (a : ℕ) (u : Task)
    → Links h before (x ∷ xs)
    → IsDistinct (x ∷ xs)
    → IsOut a (x ∷ xs)
    → a ≢ 0
    → ((y : ℕ) → y ≢ last (x ∷ xs) → y ≢ a → h' y ≡ h y)
    → ((t : Task) → h (last (x ∷ xs)) ≡ some t → h' (last (x ∷ xs)) ≡ some (record t { next = a }))
    → h' a ≡ some u
    → u.next ≡ 0
    → u.prev ≡ last (x ∷ xs)
    → Links h' before ((x ∷ xs) ++ a ∷ [])
Links-snoc h h' before x [] a u l d o a0 same linked new n p =
    let (t, e, m, q) = l.1 in
    (l.0, (record t { next = a }, linked t e, refl, q), (a0, (u, new, n, p), tt))
Links-snoc h h' before x (y ∷ xs) a u l d o a0 same linked new n p =
    let (t, e, m, q) = l.1 in
    (
      l.0,
      (t, same x (λ i. last-IsOut x y xs d.0 (sym i)) o.0 ∙ e, m, q),
      Links-snoc h h' x y xs a u l.2 d.1 o.1 a0 same linked new n p,
    )

IsOut-snoc : (x a : ℕ) (xs : List ℕ) → IsOut x xs → a ≢ x → IsOut x (xs ++ a ∷ [])
IsOut-snoc x a [] o n = (n, tt)
IsOut-snoc x a (y ∷ xs) o n = (o.0, IsOut-snoc x a xs o.1 n)

IsDistinct-snoc : (a : ℕ) (xs : List ℕ) → IsDistinct xs → IsOut a xs → IsDistinct (xs ++ a ∷ [])
IsDistinct-snoc a [] d o = (tt, tt)
IsDistinct-snoc a (x ∷ xs) d o =
    (IsOut-snoc x a xs d.0 (λ e. o.0 (sym e)), IsDistinct-snoc a xs d.1 o.1)

last-snoc : (a : ℕ) (xs : List ℕ) → last (xs ++ a ∷ []) ≡ a
last-snoc a [] = refl
last-snoc a (x ∷ []) = refl
last-snoc a (x ∷ y ∷ xs) = last-snoc a (y ∷ xs)

-- An address of no task is none of the queue's.
Links-IsOut : (h : Tasks) (before a : ℕ) (xs : List ℕ) → Links h before xs → h a ≡ none → IsOut a xs
Links-IsOut h before a [] l f = tt
Links-IsOut h before a (x ∷ xs) l f =
    let (t, e, n, p) = l.1 in (λ q. cc, Links-IsOut h x a xs l.2 f)

-- The last task of a queue is there.
Links-last :
    (h : Tasks) (before x : ℕ) (xs : List ℕ)
    → Links h before (x ∷ xs)
    → (last (x ∷ xs) ≢ 0) × (t : Task) × (h (last (x ∷ xs)) ≡ some t)
Links-last h before x [] l = let (t, e, n, p) = l.1 in (l.0, t, e)
Links-last h before x (y ∷ xs) l = Links-last h x y xs l.2

module _ (a process : ℕ) (entry : Option ℕ) (page_directory : ℕ) (s : Scheduler) where
  abbrev new_task : Task
  new_task = task_init process entry page_directory

  -- The state with the new task behind the last one.
  abbrev appended : Task → Scheduler
  appended t = record s {
    tasks =
        write (write (write s.tasks a (some new_task)) s.task_tail (some (record t { next = a }))) a
          (some (record new_task { prev = s.task_tail }));
    task_tail = a;
  }

  task_new-appended :
      (t : Task)
      → a ≢ 0
      → s.task_head ≢ 0
      → s.task_tail ≢ 0
      → s.task_tail ≢ a
      → s.tasks s.task_tail ≡ some t
      → task_new a process entry page_directory s ≡ some (a, appended t)
  unfolding task_new
  task_new-appended t a0 h0 t0 ne e =
      rw
        (
          ==_ne a 0 a0,
          ==_ne s.task_head 0 h0,
          ==_ne s.task_tail 0 t0,
          ==_ne s.task_tail a ne,
          e,
          ==_ne a 0 a0,
          ==_ne a s.task_tail (λ q. ne (sym q)),
          ==_refl a,
        )
        refl

  append_IsQueue :
      (x : ℕ) (xs : List ℕ) (t : Task)
      → IsQueue s (x ∷ xs)
      → a ≢ 0
      → s.tasks a ≡ none
      → s.tasks s.task_tail ≡ some t
      → IsQueue (appended t) ((x ∷ xs) ++ a ∷ [])
  unfolding task_init
  append_IsQueue x xs t v a0 free e =
      let out = Links-IsOut s.tasks 0 a (x ∷ xs) v.links free in
      let ne : last (x ∷ xs) ≢ a = last-IsOut a x xs out in
      record {
        links =
            Links-snoc s.tasks (appended t).tasks 0 x xs a (record new_task { prev = s.task_tail })
              v.links v.distinct out a0
              (λ y n m. rw (==_ne y a m, ==_ne y s.task_tail (λ q. n (q ∙ v.tail))) refl)
              (λ t' f.
                rw (==_ne (last (x ∷ xs)) a ne, v.tail, ==_refl (last (x ∷ xs)))
                  (ap (relink a) (some-eq (sym e ∙ ap s.tasks v.tail ∙ f))))
              (rw (==_refl a) refl) refl v.tail;
        distinct = IsDistinct-snoc a (x ∷ xs) v.distinct out;
        head = v.head;
        tail = sym (last-snoc a (x ∷ xs));
      }

  alone_IsQueue :
      IsQueue s []
      → a ≢ 0
      → (s' : Scheduler) × (task_new a process entry page_directory s ≡ some (a, s'))
        × IsQueue s' (a ∷ [])
  unfolding task_new task_init
  alone_IsQueue v a0 = (
    record s {
      tasks = write s.tasks a (some new_task);
      task_head = a;
      task_tail = a;
      current_task = a;
    },
    rw (==_ne a 0 a0, v.head) refl,
    record {
      links = (a0, (new_task, rw (==_refl a) refl, refl, refl), tt);
      distinct = (tt, tt);
      head = refl;
      tail = refl;
    },
  )

  -- A new task at an address that is not null and holds no task joins the end of the queue.
  pub task_new-IsQueue :
      (xs : List ℕ)
      → IsQueue s xs
      → a ≢ 0
      → s.tasks a ≡ none
      → (s' : Scheduler) × (task_new a process entry page_directory s ≡ some (a, s'))
        × IsQueue s' (xs ++ a ∷ [])
  task_new-IsQueue [] v a0 free = alone_IsQueue v a0
  task_new-IsQueue (x ∷ xs) v a0 free =
      let (l0, t, e) = Links-last s.tasks 0 x xs v.links in
      let e' = ap s.tasks v.tail ∙ e in
      (
        appended t,
        task_new-appended t a0 (rw v.head v.links.0) (rw v.tail l0)
            (rw v.tail (last-IsOut a x xs (Links-IsOut s.tasks 0 a (x ∷ xs) v.links free))) e',
        append_IsQueue x xs t v a0 free e',
      )
