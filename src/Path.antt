-- ===== src/Path.antt =====
-- path.hpp and path.cpp: a path is a list of components with the key string and the pretty string
-- that `rebuild` compiles from them. A method that changes a path returns the new path; where it
-- throws, the half-changed object is lost with the exception.
pub mod Tokens
pub mod Compile
pub mod Reads
pub mod Update
pub mod Algebra
pub mod Family
pub mod Above
unfoldable pub use Tokens.{tokenize}
use mathlib.Core.List.{reverse}
use janosh.Common.{
  ℕ, zero, suc, ◌-◌, List, [], ◌∷◌, ◌++◌, Bool, true, false, not, ◌&&◌, ◌||◌, ◌≡◌, Option, none,
  some, String, Bytes, codes, bytes_eq, bytes_lt, contains, last?, init, length, leb, ltb, ◌==◌,
  if◌then◌else◌,
}
use janosh.Result.{Result, ok, err, path_exception, out_of_range, undefined_behaviour, ◌>>=◌}
use janosh.Component
use janosh.Component.{Component, LexicalCast, to_text, of_text}

pub record KeyPath : Type 0 where
  pub key_str : Bytes
  pub pretty_str : Bytes
  pub components : List Component
  pub directory : Bool
  pub wildcard : Bool

-- `Path::Path()` and what `reset` leaves
abbrev pub empty : KeyPath
empty = record {
  key_str = [];
  pretty_str = [];
  components = [];
  directory = false;
  wildcard = false;
}

abbrev pub slash : ℕ
slash = b'/'

-- The loop of `rebuild`: the two strings so far, and the components that are left.
unfoldable pub rebuild_from : Bytes → Bytes → List Component → Result (Bytes × Bytes)
rebuild_from key_str pretty_str [] = ok (key_str, pretty_str)
rebuild_from key_str pretty_str (c ∷ cs) =
    if contains slash c.key
    then err (path_exception "illegal path")
    else rebuild_from (key_str ++ slash ∷ c.key) (pretty_str ++ slash ∷ c.pretty) cs

-- `!components.empty() && test(components.back())`
abbrev pub back_is : (Component → Bool) → List Component → Bool
back_is test cs = elim (last? cs) [ none ↦ false | some c ↦ test c ]

-- `rebuild` reads nothing of the path but its components.
unfoldable pub rebuild : List Component → Result KeyPath
unfolding rebuild_from
rebuild cs = do
  (key_str, pretty_str) ← rebuild_from [] [] cs
  ok (record {
    key_str = key_str;
    pretty_str = pretty_str;
    components = cs;
    directory = back_is Component.is_directory cs;
    wildcard = back_is Component.is_wildcard cs;
  })

module _ ⦃cast : LexicalCast⦄ where
  -- The loop of `update` over the tokens.
  unfoldable pub read_components : List Component → List Bytes → Result (List Component)
  read_components cs [] = ok cs
  read_components cs ([] ∷ ts) = err (path_exception "illegal path")
  read_components cs ((b ∷ t) ∷ ts) = do
    c ← Component.of_string (b ∷ t)
    read_components (cs ++ c ∷ []) ts

  -- The tokens but for the first, which stands before the leading slash.
  unfoldable pub update_tokens : List Bytes → Result KeyPath
  unfolding read_components rebuild
  update_tokens [] = ok empty
  update_tokens (t ∷ ts) = do cs ← read_components [] ts; rebuild cs

  -- `update`, and `Path(strPath)`
  unfoldable pub update : Bytes → Result KeyPath
  update [] = ok empty
  update (b ∷ rest) =
      if not (b == slash)
      then err (path_exception "illegal path")
      else if contains b' ' (b ∷ rest)
      then err (path_exception "spaces not allowed in paths")
      else update_tokens (tokenize (b ∷ rest) slash)

-- `operator<`, `operator==` and `operator!=`
unfoldable pub less : KeyPath → KeyPath → Bool
less p q = bytes_lt p.key_str q.key_str

unfoldable pub equals : KeyPath → KeyPath → Bool
equals p q = bytes_eq p.key_str q.key_str

unfoldable pub differs : KeyPath → KeyPath → Bool
differs p q = not (bytes_eq p.key_str q.key_str)

unfoldable pub is_empty : KeyPath → Bool
unfolding bytes_eq
is_empty p = bytes_eq p.key_str []

unfoldable pub is_root : KeyPath → Bool
unfolding bytes_eq
is_root p = bytes_eq p.pretty_str (codes "/.")

-- `components.erase(end() - 1)`, which is undefined on no component
erase_back : List Component → Result (List Component)
erase_back [] = err undefined_behaviour
erase_back (c ∷ cs) = ok (init (c ∷ cs))

unfoldable pub pop : KeyPath → Result KeyPath
unfolding erase_back
pop p = do cs ← erase_back p.components; rebuild cs

-- `pop(false)`: the strings and the flags stay as they were.
unfoldable pub pop_only : KeyPath → Result KeyPath
unfolding erase_back
pop_only p = do cs ← erase_back p.components; ok (record p { components = cs })

unfoldable pub base_path : KeyPath → Result KeyPath
base_path p = let popped = pop p in if p.directory || p.wildcard then popped else ok p

module _ ⦃cast : LexicalCast⦄ where
  unfoldable pub as_directory : KeyPath → Result KeyPath
  as_directory p = do b ← base_path p; update (b.key_str ++ codes "/!")

  unfoldable pub as_wildcard : KeyPath → Result KeyPath
  as_wildcard p = do b ← base_path p; update (b.key_str ++ codes "/*")

  -- `withChild(const Component&)`
  unfoldable pub with_child : KeyPath → Component → Result KeyPath
  with_child p c = do b ← base_path p; update (b.key_str ++ slash ∷ c.key)

  -- `withChild(const size_t&)`
  unfoldable pub with_index : KeyPath → ℕ → Result KeyPath
  with_index p i = do
    b ← base_path p
    update (b.key_str ++ slash ∷ Component.index_mark ∷ to_text i)

  unfoldable pub push_member : KeyPath → Bytes → Result KeyPath
  push_member p name = do c ← Component.of_string name; rebuild (p.components ++ c ∷ [])

  unfoldable pub push_index : KeyPath → ℕ → Result KeyPath
  push_index p i = push_member p (Component.index_mark ∷ to_text i)

nth : ℕ → List Component → Option Component
nth i [] = none
nth zero (c ∷ cs) = some c
nth (suc i) (c ∷ cs) = nth i cs

-- `components.size() >= d ? *(components.end() - d) : Component()`, for a `d` of at least 1
unfoldable pub from_end : ℕ → List Component → Component
unfolding nth
from_end d cs = elim (nth (d - 1) (reverse cs)) [ none ↦ Component.empty | some c ↦ c ]

unfoldable pub name : KeyPath → Component
name p = from_end (if p.directory then 2 else 1) p.components

-- `pretty().substr(1)` throws on an empty text.
substr_1 : Bytes → Result Bytes
substr_1 [] = err out_of_range
substr_1 (b ∷ s) = ok s

-- `components.front()`, which is undefined on no component
front : List Component → Result Component
front [] = err undefined_behaviour
front (c ∷ cs) = ok c

module _ ⦃cast : LexicalCast⦄ where
  unfoldable pub parse_index : KeyPath → Result ℕ
  unfolding substr_1
  parse_index p = do s ← substr_1 (name p).pretty; of_text s

  unfoldable pub parent : KeyPath → Result KeyPath
  parent p = do
    b ← base_path p
    popped ←
        (let shorter = pop_only b in if not (is_empty b) && not p.wildcard then shorter else ok b)
    q ← push_member popped (codes ".")
    rebuild q.components

  -- The component is made anew from its key.
  unfoldable pub parent_name : KeyPath → Result Component
  parent_name p = Component.of_string (from_end (if p.directory then 3 else 2) p.components).key

unfoldable pub root : KeyPath → Result Bytes
unfolding front
root p = do c ← front p.components; ok c.key

-- The loop of `above`: the first `depth` keys of both lists are the same.
unfoldable pub same_keys : ℕ → List Component → List Component → Bool
same_keys zero cs ds = true
same_keys (suc depth) (c ∷ cs) (d ∷ ds) = bytes_eq d.key c.key && same_keys depth cs ds
same_keys (suc depth) cs ds = false

unfoldable pub above : KeyPath → KeyPath → Bool
unfolding same_keys
above p q =
    let depth = length p.components - (if p.directory then 1 else 0) in
    leb (length p.components) (length q.components) && same_keys depth p.components q.components
