-- ===== src/Tests/Server.antt =====
-- A server that keeps its records and its cursors in lists, with cursors that only jump to the record
-- they are told: it stands for Kyoto Tycoon in the tests.
use janosh.Common.{
  arith, ℕ, ◌+◌, List, [], ◌∷◌, Bool, true, false, ◌≡◌, refl, Option, none, some, Bytes, bytes_eq,
  ◌==◌, ==_refl, if◌then◌else◌, Option-cases, inl, inr, ◌<◌, ◌≢◌, ◌∙◌, Bool-cases, bytes_eq_iff,
  ==_iff,
}
use janosh.Remote.{forget, RemoteDb, IsMap}

abbrev pub Records : Type 0
Records = List (Bytes × Bytes)

-- A later record comes first in the list.
abbrev pub lookup : Records → Bytes → Option Bytes
lookup [] k = none
lookup ((j, v) ∷ rs) k = if bytes_eq j k then some v else lookup rs k

-- Where a cursor stands; a later place comes first.
abbrev pub Places : Type 0
Places = List (ℕ × Option Bytes)

abbrev pub find : Places → ℕ → Option Bytes
find [] c = none
find ((e, k) ∷ ps) c = if e == c then k else find ps c

-- A number above those of all cursors.
abbrev top : Places → ℕ
top [] = 0
top ((e, k) ∷ ps) = e + top ps + 1

abbrev without : Bytes → Records → Records
without k [] = []
without k ((j, v) ∷ rs) = if bytes_eq j k then without k rs else (j, v) ∷ without k rs

pub record Listed : Type 0 where
  pub records : Records
  pub places : Places

abbrev put : Bytes → Bytes → Listed → Listed
put k v db = record db { records = (k, v) ∷ db.records }

abbrev place : ℕ → Option Bytes → Listed → Listed
place c k db = record db { places = (c, k) ∷ db.places }

abbrev is_some : Option Bytes → Bool
is_some none = false
is_some (some v) = true

abbrev if_there : {A : Type 0} → Option Bytes → A → A → A
if_there (some v) a b = a
if_there none a b = b

abbrev with_key : {A : Type 0} → Option Bytes → A → (Bytes → A) → A
with_key none a f = a
with_key (some k) a f = f k

abbrev pair_of : Bytes → Option Bytes → Option (Bytes × Bytes)
pair_of k none = none
pair_of k (some v) = some (k, v)

abbrev pub listed : RemoteDb
listed = record {
  Db = Listed;
  cursor = λ db. (top db.places, place (top db.places) none db);
  jump =
      λ c k db. if_there (lookup db.records k) (true, place c (some k) db) (false, place c none db);
  jump_back = λ c k db. (false, db);
  jump_first = λ c db. (false, db);
  get_step = λ c db. (none, db);
  step = λ c db. (false, db);
  step_back = λ c db. (false, db);
  get_key = λ c db. find db.places c;
  get_value = λ c db. with_key (find db.places c) none (lookup db.records);
  get = λ c db. with_key (find db.places c) none (λ k. pair_of k (lookup db.records k));
  set_value = λ c v db. with_key (find db.places c) (false, db) (λ k. (true, put k v db));
  remove = λ c db.
      with_key (find db.places c) (false, db)
        (λ k. (true, record db { records = without k db.records; places = (c, none) ∷ db.places }));
  add = λ k v db. if_there (lookup db.records k) (false, db) (true, put k v db);
  replace = λ k v db. if_there (lookup db.records k) (true, put k v db) (false, db);
  set = λ k v db. (true, put k v db);
  clear = λ db. (true, record db { records = [] });
}

there :
    (db : Listed) (c : ℕ) (k : Bytes)
    → (if_there {A = Bool × Listed}
        (lookup db.records k)
        (true, place c (some k) db)
        (false, place c none db)).0
      ≡ true
    → lookup db.records k ≡ none
    → ⊥
there db c k h e = cc (rw e at h)

find-top : (ps : Places) (c : ℕ) (k : Bytes) → find ps c ≡ some k → c < top ps
find-top [] c k h = cc
find-top ((e, x) ∷ ps) c k h = ground (arith, find-top ps c k)

lookup-without :
    (k : Bytes) (rs : Records) (j : Bytes) → lookup (without k rs) j ≡ forget (lookup rs) k j
lookup-without k [] j = ground arith
lookup-without k ((i, v) ∷ rs) j =
    ground (arith, lookup-without k rs j, bytes_eq_iff k j, bytes_eq_iff i k, bytes_eq_iff i j)

find_other : (ps : Places) (c e : ℕ) (k : Option Bytes) → c ≢ e → find ((e, k) ∷ ps) c ≡ find ps c
find_other ps c e k ne = ground arith

apart_top :
    (ps : Places) (c : ℕ) (k : Bytes)
    → find ps c ≡ some k
    → (c ≢ top ps) × (find ((top ps, none) ∷ ps) c ≡ some k)
apart_top ps c k h =
    let below = find-top ps c k h in
    let ne : c ≢ top ps = omega (arith, below) in (ne, find_other ps c (top ps) none ne ∙ h)

apart_remove :
    (ps : Places) (c e : ℕ) (k j : Bytes)
    → find ps c ≡ some k
    → find ps e ≡ some j
    → j ≢ k
    → find ((c, none) ∷ ps) e ≡ some j
apart_remove ps c e k j hc he ne = elim (Bool-cases (c == e)) [
  | inl same ↦ let here : c ≡ e = (==_iff c e).0 same in absurd (ne cc)
  | inr other ↦ rw other he
]

pub listed-IsMap : IsMap listed
listed-IsMap = record {
  view = λ db. lookup db.records;
  at = λ db. find db.places;
  view-cursor = λ db. refl;
  view-jump =
      λ db c k. elim (Option-cases (lookup db.records k)) [ inl e ↦ rw e | inr (v, e) ↦ rw e ];
  jump_hit = λ db c k v e. rw e (refl, rw (==_refl c));
  jump_miss = λ db c k e h. absurd (there db c k h e);
  get_key-at = λ db c. refl;
  get_value-at = λ db c k e. rw e;
  get-at = λ db c k v e h. rw (e, h);
  set_value-at = λ db c k v e. rw e (refl, refl);
  cursor-apart = λ db c k e. apart_top db.places c k e;
  cursor-twice = λ db. omega arith;
  jump-apart = λ db c e k ne. elim (Option-cases (lookup db.records k)) [
    | inl h ↦ rw h (find_other db.places c e none ne)
    | inr (v, h) ↦ rw h (find_other db.places c e (some k) ne)
  ];
  remove-at = λ db c k e. rw e (refl, λ i j. lookup-without k db.records j i);
  remove-moves = λ db c k e. rw e (inl (rw (==_refl c)));
  remove-apart = λ db c e k j hc he ne. rw hc (apart_remove db.places c e k j hc he ne);
  add_new = λ db k v e. rw e (refl, refl);
  add_old = λ db k v w e. rw e (refl, refl);
  at-add =
      λ db c k v. elim (Option-cases (lookup db.records k)) [ inl e ↦ rw e | inr (v, e) ↦ rw e ];
  replace_old = λ db k v w e. rw e (refl, refl);
  replace_new = λ db k v e. rw e (refl, refl);
  set_any = λ db k v. (refl, refl);
  clear_all = λ db. (refl, refl);
}

pub view-listed : (db : Listed) → listed-IsMap.view db ≡ lookup db.records
unfolding listed-IsMap
view-listed db = refl
