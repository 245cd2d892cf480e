-- ===== src/Tests/Samples.antt =====
-- The path "/a/.", and paths of members of it.
use janosh.Common.{ℕ, ◌<◌, ◌^◌, ◌∷◌, [], ◌≡◌, refl, ◌∙◌, arith}
use janosh.Result.{ok}
use janosh.Decimal.RoundTrip.{decimal}
use janosh.Component
use janosh.Component.{Component, of_string}
use janosh.Component.Order.{index, of_string-index_key}
use janosh.Path.{KeyPath, parent, as_directory, with_index}
use janosh.Path.Compile.{compiled, HasKey}
use janosh.Path.Reads.{IsCanonical}
use janosh.Path.Algebra.{dot, IsPlain, compiled-IsPlain, with_child-compiled}
use janosh.Path.Family.{
  parent-with_child, parse_index-with_index, dot-HasKey, dot-IsCanonical, index-HasKey,
  with_index-compiled, as_directory-compiled,
}

abbrev pub named : ℕ → Component
named c = record { key = c ∷ []; pretty = c ∷ [] }

abbrev pub a : Component
a = named b'a'

pub a-HasKey : HasKey a
a-HasKey = record {
  no_slash = (omega arith, tt);
  no_space = (omega arith, tt);
  not_empty = λ p. cc;
}

pub a-IsCanonical : IsCanonical ⦃cast = decimal⦄ a
unfolding of_string
a-IsCanonical = refl

abbrev pub array_dir : KeyPath
array_dir = compiled (a ∷ dot ∷ [])

pub array_dir-IsPlain : IsPlain ⦃cast = decimal⦄ array_dir
array_dir-IsPlain =
    compiled-IsPlain ⦃cast = decimal⦄ (a ∷ dot ∷ []) (a-HasKey, (dot-HasKey, tt))
      (a-IsCanonical, (dot-IsCanonical ⦃cast = decimal⦄, tt))

abbrev pub slot : ℕ → KeyPath
slot n = compiled (a ∷ index ⦃cast = decimal⦄ n ∷ [])

pub slot-IsPlain : (n : ℕ) → n < 2 ^ 64 → IsPlain ⦃cast = decimal⦄ (slot n)
slot-IsPlain n h =
    compiled-IsPlain ⦃cast = decimal⦄ (a ∷ index ⦃cast = decimal⦄ n ∷ [])
      (a-HasKey, (index-HasKey ⦃cast = decimal⦄ n h, tt))
      (a-IsCanonical, (of_string-index_key ⦃cast = decimal⦄ n h, tt))

pub with_index-slot : (n : ℕ) → n < 2 ^ 64 → with_index ⦃cast = decimal⦄ array_dir n ≡ ok (slot n)
unfolding Component.is_directory Component.is_wildcard
with_index-slot n h = with_index-compiled ⦃cast = decimal⦄ array_dir n array_dir-IsPlain h

pub array_dir_directory : as_directory ⦃cast = decimal⦄ array_dir ≡ ok array_dir
unfolding Component.is_directory Component.is_wildcard
array_dir_directory = as_directory-compiled ⦃cast = decimal⦄ array_dir array_dir-IsPlain

pub parent-slot : (n : ℕ) → n < 2 ^ 64 → parent ⦃cast = decimal⦄ (slot n) ≡ ok array_dir
parent-slot n h =
    (parse_index-with_index ⦃cast = decimal⦄ array_dir n array_dir-IsPlain h (slot n)
      (with_index-slot n h)).1
    ∙ array_dir_directory

-- A member of an object that is not there.
abbrev pub member : KeyPath
member = compiled (a ∷ a ∷ [])

pub member-IsPlain : IsPlain ⦃cast = decimal⦄ member
member-IsPlain =
    compiled-IsPlain ⦃cast = decimal⦄ (a ∷ a ∷ []) (a-HasKey, (a-HasKey, tt))
      (a-IsCanonical, (a-IsCanonical, tt))

pub parent-member : parent ⦃cast = decimal⦄ member ≡ ok array_dir
unfolding Component.is_directory Component.is_wildcard
parent-member =
    (parent-with_child ⦃cast = decimal⦄ array_dir a array_dir-IsPlain a-HasKey a-IsCanonical refl
      refl member
      (with_child-compiled ⦃cast = decimal⦄ array_dir a array_dir-IsPlain a-HasKey a-IsCanonical)).0
    ∙ array_dir_directory
