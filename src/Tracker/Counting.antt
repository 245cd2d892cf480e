-- ===== src/Tracker/Counting.antt =====
-- What the counts of a tracker mean.
use janosh.Common.{
  ℕ, ◌+◌, ◌%◌, ◌^◌, ◌<◌, List, [], ◌∷◌, ◌++◌, Bool, true, false, ◌&&◌, ◌≡◌, refl, ap, ap₂, ◌∙◌,
  Option, none, some, Bytes, codes, bytes_eq, bytes_eq_iff, Bool-cases, Option-cases, inl, inr,
  if◌then◌else◌, arith,
}
use janosh.Tracker.{
  Operation, read, write, delete, trigger, Counts, Tracker, find, increment, insert, count, get,
  set_counts, counts_on, publication, message, update,
}

abbrev value_of : Option ℕ → ℕ
value_of none = 0
value_of (some n) = n

-- The count of a key, zero where it has none.
abbrev pub count_of : Bytes → Counts → ℕ
count_of key m = value_of (find key m)

find-insert :
    (key j : Bytes) (n : ℕ) (m : Counts)
    → find key m ≡ none
    → find j (insert key n m) ≡ (if bytes_eq key j then some n else find j m)
unfolding find insert
find-insert key j n [] h = refl
find-insert key j n ((k, i) ∷ m) h =
    ground (arith, find-insert key j n m, bytes_eq_iff key j, bytes_eq_iff k j, bytes_eq_iff k key)

find-increment :
    (key j : Bytes) (n : ℕ) (m : Counts)
    → find key m ≡ some n
    → find j (increment key m) ≡ (if bytes_eq key j then some ((n + 1) % 2 ^ 64) else find j m)
unfolding find increment
find-increment key j n [] h = cc
find-increment key j n ((k, i) ∷ m) h =
    ground
      (arith, find-increment key j n m, bytes_eq_iff key j, bytes_eq_iff k j, bytes_eq_iff k key)

-- One more count for the key, modulo 2 ^ 64, and the same counts for the others.
pub count_of-count :
    (key j : Bytes) (m : Counts)
    → count_of j (count key m)
      ≡ (if bytes_eq key j then (count_of key m + 1) % 2 ^ 64 else count_of j m)
unfolding count
count_of-count key j m = elim (Option-cases (find key m)) [
  | inl e ↦ ground (arith, e, find-insert key j 1 m)
  | inr (n, e) ↦ ground (arith, e, find-increment key j n m)
]

count_of_self :
    (key j : Bytes) (m : Counts)
    → count_of j (count key m)
      ≡ (if bytes_eq key j then (count_of j m + 1) % 2 ^ 64 else count_of j m)
count_of_self key j m = ground (arith, count_of-count key j m, bytes_eq_iff key j)

-- A call of `update`.
pub record Event : Type 0 where
  pub key : Bytes
  pub value : Bytes
  pub op : Operation

-- The tracker and the messages after a sequence of calls.
unfoldable pub run : Tracker → List Event → Tracker × List Bytes
run t [] = (t, [])
run t (e ∷ es) =
    let (t', sent) = update t e.key e.value e.op in let (u, more) = run t' es in (u, sent ++ more)

abbrev same_op : Operation → Operation → Bool
same_op read read = true
same_op write write = true
same_op delete delete = true
same_op trigger trigger = true
same_op _ _ = false

-- How many of the calls are for the operation and the key.
abbrev pub occurrences : Operation → Bytes → List Event → ℕ
occurrences op key [] = 0
occurrences op key (e ∷ es) =
    (if same_op e.op op && bytes_eq e.key key then 1 else 0) + occurrences op key es

-- Whether calls for the operation are published, and under which letter.
abbrev letter : Operation → Option Bytes
letter write = some (codes "W")
letter delete = some (codes "D")
letter _ = none

abbrev letters : List Event → List Bytes
letters [] = []
letters (e ∷ es) = elim (letter e.op) [
  | some l ↦ message e.key l e.value ∷ letters es
  | none ↦ letters es
]

abbrev pub published : Bool → List Event → List Bytes
published false es = []
published true es = letters es

get-set_counts :
    (op op' : Operation) (m : Counts) (t : Tracker)
    → get op' (set_counts op m t) ≡ (if same_op op op' then m else get op' t)
get-set_counts read op' m t = ground arith
get-set_counts _ op' m t = ground arith

update_settings :
    (t : Tracker) (key value : Bytes) (op : Operation)
    → ((update t key value op).0.print_directive ≡ t.print_directive)
      × ((update t key value op).0.do_publish ≡ t.do_publish)
unfolding update
update_settings t key value read = ground arith
update_settings t key value _ = ground arith

counted :
    (t : Tracker) (key j : Bytes) (op op' : Operation)
    → count_of j (if same_op op op' then count key (get op t) else get op' t) ≡ (
        if same_op op op' && bytes_eq key j
        then (count_of j (get op' t) + 1) % 2 ^ 64
        else count_of j (get op' t))
counted t key j read op' = ground (arith, count_of_self key j (get op' t))
counted t key j _ op' = ground (arith, count_of_self key j (get op' t))

-- One call counts one more for its operation and key.
count_of-update :
    (t : Tracker) (key value : Bytes) (op op' : Operation) (j : Bytes)
    → counts_on t.print_directive ≡ true
    → count_of j (get op' (update t key value op).0) ≡ (
        if same_op op op' && bytes_eq key j
        then (count_of j (get op' t) + 1) % 2 ^ 64
        else count_of j (get op' t))
unfolding update
count_of-update t key value op op' j h = rw h (rw (get-set_counts op op') (counted t key j op op'))

-- From a tracker that counts, and a count below 2 ^ 64, the count of a key after any sequence of
-- calls is the count before and the number of calls for the key and the operation, modulo 2 ^ 64.
pub count_of-run :
    (t : Tracker) (es : List Event) (op : Operation) (key : Bytes)
    → counts_on t.print_directive ≡ true
    → count_of key (get op t) < 2 ^ 64
    → count_of key (get op (run t es).0)
      ≡ (count_of key (get op t) + occurrences op key es) % 2 ^ 64
unfolding run
count_of-run t [] op key on h = omega arith
count_of-run t (e ∷ es) op key on h =
    let t' = (update t e.key e.value e.op).0 in
    let step = count_of-update t e.key e.value e.op op key on in
    let on' : counts_on t'.print_directive ≡ true =
      ap counts_on (update_settings t e.key e.value e.op).0 ∙ on in
    elim (Bool-cases (same_op e.op op && bytes_eq e.key key)) [
      | inl q ↦
          let one = rw q at step in
          rw q (count_of-run t' es op key on' (omega (arith, one)) ∙ omega (arith, one))
      | inr q ↦
          let one = rw q at step in
          rw q (count_of-run t' es op key on' (omega (arith, one)) ∙ omega (arith, one))
    ]

published-cons :
    (t : Tracker) (e : Event) (es : List Event)
    → publication t e.key e.value e.op ++ published t.do_publish es
      ≡ published t.do_publish (e ∷ es)
unfolding publication
published-cons t e es = ground arith

update-publication :
    (t : Tracker) (key value : Bytes) (op : Operation)
    → (update t key value op).1 ≡ publication t key value op
unfolding update
update-publication t key value op = refl

-- Whether or not it counts, a tracker sends for any sequence of calls exactly the messages of the
-- writes and deletes, in their order, if it is told to publish, and none otherwise.
pub messages-run : (t : Tracker) (es : List Event) → (run t es).1 ≡ published t.do_publish es
unfolding run
messages-run t [] = ground arith
messages-run t (e ∷ es) =
    let t' = (update t e.key e.value e.op).0 in
    let rest : (run t' es).1 ≡ published t.do_publish es =
      messages-run t' es ∙ ap (λ on. published on es) (update_settings t e.key e.value e.op).1 in
    ap₂ ◌++◌ (update-publication t e.key e.value e.op) rest ∙ published-cons t e es
