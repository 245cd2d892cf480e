-- ===== src/Tests/Array.antt =====
-- A server that holds the array "/a/." of one member.
use janosh.Common.{
  ℕ, ◌<◌, ◌∷◌, [], true, false, ◌≡◌, refl, subst, inl, inr, Bytes, bytes_eq, bytes_eq_iff,
  Bool-cases, codes, arith, All, none, some,
}
use janosh.Result.{ok}
use janosh.Decimal.RoundTrip.{decimal}
use janosh.Component
use janosh.Component.{LexicalCast}
use janosh.Component.Bits.{key_encode_index}
use janosh.Path
use janosh.Path.{KeyPath}
use janosh.Path.Update.{update-canonical}
use janosh.Path.Compile.{compiled}
use janosh.Path.Algebra.{dot, IsPlain, compiled-IsPlain}
use janosh.Path.Family.{parse_index-with_index, dot-HasKey, dot-IsCanonical}
use janosh.Value
use janosh.Value.{Value, string, array}
use janosh.Value.Stored.{of_stored}
use janosh.Tracker
use janosh.Remote.{RemoteDb, World}
use janosh.Record.Fetch.{IsSingle, IsReadable}
use janosh.Database.Containers.{HasContainer, in_array}
use janosh.Database.Values.{IsPlace}
use janosh.Tests.Server.{Records, lookup, listed}
use janosh.Tests.Samples.{
  array_dir, array_dir-IsPlain, slot, slot-IsPlain, with_index-slot, parent-slot,
}

pub lookup-IsReadable :
    (rs : Records)
    → All
        (λ (r : Bytes × Bytes).
          (p : KeyPath) × (Path.update ⦃cast = decimal⦄ r.0 ≡ ok p) × (p.key_str ≡ r.0))
        rs
    → IsReadable ⦃cast = decimal⦄ (lookup rs)
lookup-IsReadable [] h k v e = cc
lookup-IsReadable ((j, x) ∷ rs) (here, more) k v e = elim (Bool-cases (bytes_eq j k)) [
  | inl same ↦
      subst (λ i. (p : KeyPath) × (Path.update ⦃cast = decimal⦄ i ≡ ok p) × (p.key_str ≡ i))
        ((bytes_eq_iff j k).0 same) here
  | inr other ↦ lookup-IsReadable rs more k v (rw other at e)
]

abbrev pub root : KeyPath
root = compiled (dot ∷ [])

pub root-IsPlain : IsPlain ⦃cast = decimal⦄ root
root-IsPlain =
    compiled-IsPlain ⦃cast = decimal⦄ (dot ∷ []) (dot-HasKey, tt)
      (dot-IsCanonical ⦃cast = decimal⦄, tt)

pub reads_back :
    (p : KeyPath) → IsPlain ⦃cast = decimal⦄ p → Path.update ⦃cast = decimal⦄ p.key_str ≡ ok p
reads_back p h = update-canonical ⦃cast = decimal⦄ p h.well_formed h.canonical

abbrev pub before : Records
before =
    (array_dir.key_str, codes "A1")
    ∷ ((slot 0).key_str, codes "sx")
    ∷ (root.key_str, codes "O1")
    ∷ []

pub before-IsReadable : IsReadable ⦃cast = decimal⦄ (lookup before)
before-IsReadable = lookup-IsReadable before (
  (array_dir, reads_back array_dir array_dir-IsPlain, refl),
  (
    (slot 0, reads_back (slot 0) (slot-IsPlain 0 (omega arith)), refl),
    ((root, reads_back root root-IsPlain, refl), tt),
  ),
)

abbrev pub world : Records → World ⦃remote = listed⦄
world rs = record { db = record { records = rs; places = [] }; tracker = Tracker.new; sent = [] }

pub array_dir-IsSingle : IsSingle ⦃cast = decimal⦄ array_dir
unfolding Path.is_root Path.is_empty Component.is_wildcard
array_dir-IsSingle = record {
  plain = array_dir-IsPlain;
  no_wildcard = refl;
  root_key = λ h. cc;
  no_empty = refl;
}

pub slot-IsSingle : (n : ℕ) → IsPlain ⦃cast = decimal⦄ (slot n) → IsSingle ⦃cast = decimal⦄ (slot n)
unfolding Path.is_root Path.is_empty Component.is_wildcard
slot-IsSingle n h = record { plain = h; no_wildcard = refl; root_key = λ h. cc; no_empty = refl }

pub one_member : HasContainer ⦃cast = decimal⦄ array_dir array 1 (lookup before)
unfolding decimal Component.is_directory
one_member = record {
  single = array_dir-IsSingle;
  is_directory = refl;
  contains = refl;
  in_range = omega arith;
  stored = refl;
}

instance abbrev cast : LexicalCast
cast = decimal

instance abbrev remote : RemoteDb
remote = listed

abbrev pub text_y : Value
text_y = record { str_obj = codes "y"; type = string; size = 1; initialized = true }

abbrev pub text_x : Value
text_x = record { str_obj = codes "x"; type = string; size = 1; initialized = true }

pub text_y_stored : Value.make_db_string text_y ≡ ok (codes "sy")
unfolding Value.make_db_string
text_y_stored = refl

pub text_x_read : of_stored false false Value.uninitialized (codes "sx") ≡ ok text_x
unfolding of_stored
text_x_read = refl

-- The element 1 is the next of the array, and the element 0 is there.
pub slot-IsPlace : (i : ℕ) → i < 2 → IsPlace (slot i) array_dir array 1 (lookup before)
unfolding Component.is_directory Path.is_root key_encode_index
slot-IsPlace i h = record {
  single = slot-IsSingle i (slot-IsPlain i (omega arith));
  no_directory = refl;
  no_root = refl;
  up = parent-slot i (omega arith);
  has_container = one_member;
  has_room =
      in_array i
        (parse_index-with_index array_dir i array_dir-IsPlain (omega arith) (slot i)
          (with_index-slot i (omega arith))).0
        (omega arith);
  apart = λ e. cc;
}

pub slot_1_free : lookup before (slot 1).key_str ≡ none
unfolding key_encode_index bytes_eq
slot_1_free = refl

pub slot_0_there : lookup before (slot 0).key_str ≡ some (codes "sx")
unfolding key_encode_index bytes_eq
slot_0_there = refl
