-- ===== src/Lua/Fairness.antt =====
-- Threads open the connection in the order in which they have asked for it.
use janosh.Common.{
  ℕ, ◌≡◌, refl, true, false, not, List, [], ◌∷◌, ◌++◌, append_assoc, append-nil, arith, ◌&&◌,
  contains, ◌<◌, ◌⊎◌, inl, inr, Bool-cases, if◌then◌else◌,
}
use janosh.Result.{Result, ok}
use janosh.Lua.Transactions.{
  LuaScript, is_front, test_front, has_items, perform_open, without, wake, pop_front, perform_close,
  perform_request, queued, Run, start, calls, wakes, closes_it, requests_it, notifies, notify_all,
  open_now,
}

pub record Sound (called opened : List ℕ) (s : LuaScript) : Type 0 where
  pub order : opened ++ queued s ≡ called
  pub owned : s.is_open ≡ true → has_items s.open_queue ≡ true
  pub front_served :
      (t : ℕ)
      → s.is_open ≡ false
      → is_front t s.open_queue ≡ true
      → contains t s.asleep ≡ true
      → 0 < s.notifying

calls-Sound :
    (called opened : List ℕ) (t : ℕ) (s : LuaScript)
    → contains t s.open_queue ≡ false
    → Sound called opened s
    → Sound
        (called ++ t ∷ [])
        (if (perform_open (ok tt) t s).1.is_open && not s.is_open then opened ++ t ∷ [] else opened)
        (perform_open (ok tt) t s).1
unfolding perform_open test_front open_now contains
calls-Sound called opened t s new sound = record {
  order = ground (
    arith,
    sound.order,
    sound.owned,
    append_assoc opened (queued s) (t ∷ []),
    append-nil opened,
    append-nil (opened ++ t ∷ []),
  );
  owned = λ e. ground (arith, sound.owned);
  front_served = λ u e f g. ground (arith, sound.front_served u);
}

is_front-cons : (t : ℕ) (queue : List ℕ) → is_front t queue ≡ true → queue ≡ t ∷ pop_front queue
is_front-cons t [] e = cc
is_front-cons t (u ∷ queue) e = ground arith

contains-without : (u t : ℕ) (us : List ℕ) → contains u (without t us) ≡ true → contains u us ≡ true
unfolding contains
contains-without u t [] e = e
contains-without u t (v ∷ us) e = ground (arith, contains-without u t us)

wakes-Sound :
    (called opened : List ℕ) (t : ℕ) (s : LuaScript)
    → Sound called opened s
    → Sound called
        (if (wake (ok tt) t s).1.is_open && not s.is_open then opened ++ t ∷ [] else opened)
        (wake (ok tt) t s).1
unfolding wake test_front open_now contains
wakes-Sound called opened t s sound = record {
  order = ground (
    arith,
    sound.order,
    sound.owned,
    is_front-cons t s.open_queue,
    append_assoc opened (t ∷ []) (pop_front s.open_queue),
  );
  owned = λ e. ground (arith, sound.owned);
  front_served = λ u e f g. ground (arith, sound.front_served u, contains-without u t s.asleep);
}

closes-Sound :
    (called opened : List ℕ) (closing : Result (Unit {0})) (s : LuaScript)
    → Sound called opened s
    → Sound called opened (perform_close closing s).1
unfolding perform_close contains
closes-Sound called opened closing s sound = record {
  order = ground (arith, sound.order);
  owned = λ o. ground (arith, sound.owned);
  front_served = λ u o f g. ground (arith, sound.front_served u);
}

notifies-Sound :
    (called opened : List ℕ) (s : LuaScript)
    → Sound called opened s
    → Sound called opened (notify_all s)
unfolding notify_all contains
notifies-Sound called opened s sound = record {
  order = sound.order;
  owned = sound.owned;
  front_served = λ u o f g. cc;
}

requests-Sound :
    (called opened : List ℕ) (opening requesting closing : Result (Unit {0})) (t : ℕ)
    (s : LuaScript)
    → (perform_request opening requesting closing t s).2.is_open ≡ s.is_open
    → Sound called opened s
    → Sound called opened (perform_request opening requesting closing t s).2
unfolding perform_request
requests-Sound called opened opening requesting closing t s same sound = record {
  order = ground (arith, sound.order);
  owned = λ o. ground (arith, sound.owned);
  front_served = λ u o f g. ground (arith, sound.front_served u);
}

Run-Sound : {called opened : List ℕ} {s : LuaScript} → Run called opened s → Sound called opened s
Run-Sound start = record { order = refl; owned = λ e. cc; front_served = λ t e f g. cc }
Run-Sound (calls {called} {opened} {s} t new r) = calls-Sound called opened t s new (Run-Sound r)
Run-Sound (wakes {called} {opened} {s} t waits r) = wakes-Sound called opened t s (Run-Sound r)
Run-Sound (closes_it {called} {opened} {s} closing r) =
    closes-Sound called opened closing s (Run-Sound r)
Run-Sound (notifies {called} {opened} {s} n r) = notifies-Sound called opened s (Run-Sound r)
Run-Sound (requests_it {called} {opened} {s} opening requesting closing t same r) =
    requests-Sound called opened opening requesting closing t s same (Run-Sound r)

-- After any steps of Lua threads that call `performOpen` while they are not in its queue, wake up,
-- close, are woken by a close that has unlocked before, and send requests, in which no callback of
-- `performOpen` throws and a request that has to open the connection also closes it: whenever the
-- connection is closed and threads are queued, those that have opened it and those in the queue are
-- together the callers in their order, the first in the queue is not asleep or a notification that
-- wakes it is under way, and going on with a callback that returns it opens the connection and
-- leaves the queue to the others.
pub Run-opens :
    {called opened waiting : List ℕ} {t : ℕ} {s : LuaScript}
    → Run called opened s
    → s.is_open ≡ false
    → s.open_queue ≡ t ∷ waiting
    → (opened ++ t ∷ waiting ≡ called)
      × ((contains t s.asleep ≡ false) ⊎ (0 < s.notifying))
      × (contains t (notify_all s).asleep ≡ false)
      × ((wake (ok tt) t s).0 ≡ ok tt)
      × ((wake (ok tt) t s).1.is_open ≡ true)
      × (queued (wake (ok tt) t s).1 ≡ waiting)
unfolding wake test_front open_now notify_all contains
Run-opens {called} {opened} {waiting} {t} {s} r closed e =
    let sound = Run-Sound r in
    (
      ground (arith, sound.order),
      elim (Bool-cases (contains t s.asleep)) [
        | inl sleeps ↦ inr (sound.front_served t closed (ground arith) sleeps)
        | inr awake ↦ inl awake
      ],
      refl,
      ground arith,
      ground arith,
      ground arith,
    )
