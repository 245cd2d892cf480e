-- ===== src/Sync/Queue.antt =====
-- queue.hpp. `push` gives the lock back before it notifies, so a notification may be under way.
use janosh.Common.{
  ℕ, ◌+◌, ◌-◌, ◌<◌, ◌≤◌, ◌≡◌, refl, Bool, true, false, List, [], ◌∷◌, ◌++◌, append_assoc, Option,
  none, some, arith, ◌==◌, if◌then◌else◌, length, length-append,
}

pub record Queue {ℓ} (A : Type ℓ) : Type ℓ where
  pub items : List A
  pub asleep : ℕ
  pub awake : ℕ
  -- `push` calls that have put their item and have not notified yet
  pub notifying : ℕ

module _ {ℓ} {A : Type ℓ} where
  abbrev pub no_items : Queue A
  no_items = record { items = []; asleep = 0; awake = 0; notifying = 0 }

  -- `push` up to `unlock`
  unfoldable pub push : Queue A → A → Queue A
  push q a = record q { items = q.items ++ a ∷ []; notifying = q.notifying + 1 }

  -- `cond_.notify_one()`, the end of `push`
  unfoldable pub notify_one : Queue A → Queue A
  notify_one q =
      if q.asleep == 0
      then record q { notifying = q.notifying - 1 }
      else record q { notifying = q.notifying - 1; asleep = q.asleep - 1; awake = q.awake + 1 }

  -- The loop of `pop`, by a thread that calls it: it takes the front item, or goes to sleep.
  unfoldable pub pop : Queue A → Option A × Queue A
  pop q = elim q.items [
    | [] ↦ (none, record q { asleep = q.asleep + 1 })
    | a ∷ rest ↦ (some a, record q { items = rest })
  ]

  -- The loop of `pop` after the condition variable has returned.
  unfoldable pub resume : Queue A → Option A × Queue A
  unfolding pop
  resume q = pop (record q { awake = q.awake - 1 })

  unfoldable pub size : Queue A → ℕ
  size q = length q.items

  unfoldable pub empty : Queue A → Bool
  empty q = elim q.items [ [] ↦ true | a ∷ rest ↦ false ]

  abbrev pub taken : Option A → List A
  taken none = []
  taken (some a) = a ∷ []

  -- What threads have pushed and popped, in the order of their steps, and the queue after it.
  pub data Run : List A → List A → Queue A → Type ℓ where
    start : Run [] [] no_items
    pushes : {ps os : List A} {q : Queue A} (a : A) → Run ps os q → Run (ps ++ a ∷ []) os (push q a)
    notifies :
        {ps os : List A} {q : Queue A} → 0 < q.notifying → Run ps os q → Run ps os (notify_one q)
    pops : {ps os : List A} {q : Queue A} → Run ps os q → Run ps (os ++ taken (pop q).0) (pop q).1
    resumes :
        {ps os : List A} {q : Queue A}
        → 0 < q.awake
        → Run ps os q
        → Run ps (os ++ taken (resume q).0) (resume q).1
    spurious :
        {ps os : List A} {q : Queue A}
        → 0 < q.asleep
        → Run ps os q
        → Run ps os (record q { asleep = q.asleep - 1; awake = q.awake + 1 })

  pop-items : (q : Queue A) → taken (pop q).0 ++ (pop q).1.items ≡ q.items
  unfolding pop
  pop-items q = ground arith

  popped :
      {ps : List A} (os : List A) (q r : Queue A)
      → os ++ q.items ≡ ps
      → q.items ≡ r.items
      → (os ++ taken (pop r).0) ++ (pop r).1.items ≡ ps
  popped {ps} os q r h e = simp append_assoc (rw (pop-items r, ← e) h)

  pub Run-items : {ps os : List A} {q : Queue A} → Run ps os q → os ++ q.items ≡ ps
  unfolding push notify_one resume
  Run-items start = refl
  Run-items (pushes {ps} {os} {q} a r) =
      simp (← append_assoc os q.items (a ∷ [])) (rw (Run-items r))
  Run-items (notifies p r) = ground (arith, Run-items r)
  Run-items (pops {os = os} {q = q} r) = popped os q q (Run-items r) refl
  Run-items (resumes {os = os} {q = q} p r) =
      popped os q (record q { awake = q.awake - 1 }) (Run-items r) refl
  Run-items (spurious p r) = Run-items r

  -- Items that sleeping threads could take are left to threads that are awake or about to be woken.
  abbrev IsServed : Queue A → Type 0
  IsServed q = 0 < q.asleep → length q.items ≤ q.awake + q.notifying

  Run-IsServed : {ps os : List A} {q : Queue A} → Run ps os q → IsServed q
  unfolding push notify_one pop resume
  Run-IsServed start h = omega arith
  Run-IsServed (pushes {q = q} a r) h =
      ground (arith, Run-IsServed r, length-append q.items (a ∷ []))
  Run-IsServed (notifies p r) h = ground (arith, Run-IsServed r)
  Run-IsServed (pops r) h = ground (arith, Run-IsServed r)
  Run-IsServed (resumes p r) h = ground (arith, Run-IsServed r)
  Run-IsServed (spurious p r) h = ground (arith, Run-IsServed r)

  -- After any steps of threads at a queue, what was popped and what the queue holds are together
  -- what was pushed, in order, and whenever the queue has an item and a thread waits, a waiting
  -- thread is awake or a notification is under way, and a waiting thread that goes on takes the
  -- oldest item and leaves the others.
  pub Run-serves :
      {ps os rest : List A} {a : A} {q : Queue A}
      → Run ps os q
      → q.items ≡ a ∷ rest
      → 0 < q.asleep + q.awake
      → (os ++ a ∷ rest ≡ ps)
        × (0 < q.awake + q.notifying)
        × ((resume q).0 ≡ some a)
        × ((resume q).1.items ≡ rest)
  unfolding resume pop
  Run-serves r e waits = (ground (arith, Run-items r), ground (arith, Run-IsServed r), rw e, rw e)
