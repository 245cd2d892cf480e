-- ===== src/Path/Family.antt =====
-- Children, directories and parents of a path, as its other methods make them.
use janosh.Common.{
  ℕ, ◌^◌, ◌<◌, ◌≤◌, List, [], ◌∷◌, ◌++◌, Bool, true, false, not, ◌&&◌, ◌≡◌, refl, sym, ap, ◌∙◌,
  subst, Bytes, codes, Lacks, All, All-append, All-init, init, init-concat, last?-concat,
  if◌then◌else◌, arith,
}
use mathlib.Core.List.{reverse-append}
use janosh.Result.{ok, ◌>>=◌, ok_injective}
use janosh.Component
use janosh.Component.{Component, LexicalCast, to_text, of_text}
use janosh.Component.Keys.{of_string-Lacks}
use janosh.Component.Order.{index, of_string-index_text, of_string-index_key}
use janosh.Path.{
  KeyPath, slash, back_is, rebuild, update, as_directory, as_wildcard, with_child, with_index,
  pop_only, push_member, parent, name, from_end, parse_index, is_empty,
}
use janosh.Path.Compile.{compiled, NoSlash, rebuild-compiled, HasKey, All-NoSlash}
use janosh.Path.Reads.{IsCanonical}
use janosh.Path.Update.{update-token}
use janosh.Path.Algebra.{
  dot, star, base, base_path-compiled, All-base, IsPlain, compiled-IsPlain, update-base,
  with_child-compiled, separated-keys,
}

pub dot-HasKey : HasKey dot
dot-HasKey = record { no_slash = omega arith; no_space = omega arith; not_empty = λ p. cc }

star-HasKey : HasKey star
star-HasKey = record { no_slash = omega arith; no_space = omega arith; not_empty = λ p. cc }

digits_lack : (m : ℕ) (s : Bytes) → m < b'0' → All (λ c. (b'0' ≤ c) × (c ≤ b'9')) s → Lacks m s
digits_lack m [] lt h = tt
digits_lack m (c ∷ s) lt ((lo, _), hs) = (omega arith, digits_lack m s lt hs)

module _ ⦃cast : LexicalCast⦄ where
  pub dot-IsCanonical : IsCanonical dot
  dot-IsCanonical = unfold Component.of_string in refl

  star-IsCanonical : IsCanonical star
  star-IsCanonical = unfold Component.of_string in refl

  pub index-HasKey : (n : ℕ) → n < 2 ^ 64 → HasKey (index n)
  index-HasKey n h =
      let read = of_string-index_text n h in
      record {
        no_slash =
            of_string-Lacks slash _ (index n) refl refl refl refl read
              (omega arith, digits_lack slash (to_text n) (omega arith) (cast.show_digits n));
        no_space =
            of_string-Lacks b' ' _ (index n) refl refl refl refl read
              (omega arith, digits_lack b' ' (to_text n) (omega arith) (cast.show_digits n));
        not_empty = λ p. cc;
      }

  -- `asDirectory`, `asWildcard` and both forms of `withChild` replace what stands behind the base.
  pub as_directory-compiled :
      (p : KeyPath) → IsPlain p → as_directory p ≡ ok (compiled (base p ++ dot ∷ []))
  unfolding as_directory
  as_directory-compiled p w =
      rw (base_path-compiled p w.well_formed) (update-base p dot w dot-HasKey dot-IsCanonical)

  pub as_wildcard-compiled :
      (p : KeyPath) → IsPlain p → as_wildcard p ≡ ok (compiled (base p ++ star ∷ []))
  unfolding as_wildcard
  as_wildcard-compiled p w =
      rw (base_path-compiled p w.well_formed) (update-base p star w star-HasKey star-IsCanonical)

  compiled-base-IsPlain :
      (p : KeyPath) (c : Component)
      → IsPlain p
      → HasKey c
      → IsCanonical c
      → IsPlain (compiled (base p ++ c ∷ []))
  compiled-base-IsPlain p c w hk hc =
      compiled-IsPlain (base p ++ c ∷ [])
        (All-append HasKey (base p) _ (All-base HasKey p w.well_formed.has_keys) (hk, tt))
        (All-append IsCanonical (base p) _ (All-base IsCanonical p w.canonical) (hc, tt))

  empty_base : (cs : List Component) → is_empty (compiled cs) ≡ true → cs ≡ []
  unfolding is_empty
  empty_base [] h = refl
  empty_base (c ∷ cs) h = cc

  push_dot :
      (q : KeyPath) (cs : List Component)
      → q.components ≡ cs
      → All NoSlash cs
      → (push_member q (codes ".") >>= λ r. rebuild r.components) ≡ ok (compiled (cs ++ dot ∷ []))
  unfolding push_member Component.of_string
  push_dot q cs e h =
      let free = All-append NoSlash cs (dot ∷ []) h (dot-HasKey.no_slash, tt) in
      rw e (rw (rebuild-compiled (cs ++ dot ∷ []) free) (rebuild-compiled (cs ++ dot ∷ []) free))

  -- The components of the parent, without the directory component at the end.
  abbrev pub parents : KeyPath → List Component
  parents p = if p.wildcard then base p else init (base p)

  parent_of_base :
      (w : Bool) (cs : List Component)
      → All NoSlash cs
      → (do
        popped ←
            (if not (is_empty (compiled cs)) && not w
              then pop_only (compiled cs)
              else ok (compiled cs))
        q ← push_member popped (codes ".")
        rebuild q.components)
        ≡ ok (compiled ((if w then cs else init cs) ++ dot ∷ []))
  unfolding is_empty pop_only
  parent_of_base true [] h = push_dot (compiled []) [] refl h
  parent_of_base true (c ∷ cs) h = push_dot (compiled (c ∷ cs)) (c ∷ cs) refl h
  parent_of_base false [] h = push_dot (compiled []) [] refl h
  parent_of_base false (c ∷ cs) h =
      push_dot (record (compiled (c ∷ cs)) { components = init (c ∷ cs) }) (init (c ∷ cs)) refl
        (All-init NoSlash (c ∷ cs) h)

  pub parent-compiled : (p : KeyPath) → IsPlain p → parent p ≡ ok (compiled (parents p ++ dot ∷ []))
  unfolding parent
  parent-compiled p w = rw (base_path-compiled p w.well_formed) (
      parent_of_base p.wildcard (base p)
        (All-base NoSlash p (All-NoSlash p.components w.well_formed.has_keys)))

  -- The flags of a child are those of its last component.
  child_flags :
      (test : Component → Bool) (cs : List Component) (c : Component)
      → back_is test (cs ++ c ∷ []) ≡ test c
  child_flags test cs c = rw (last?-concat cs c, back_is)

  -- The path of one component behind the base of `p`.
  abbrev child : KeyPath → Component → KeyPath
  child p c = compiled (base p ++ c ∷ [])

  base_of_child :
      (p : KeyPath) (c : Component)
      → Component.is_directory c ≡ false
      → Component.is_wildcard c ≡ false
      → base (child p c) ≡ base p ++ c ∷ []
  base_of_child p c not_dir not_wild = simp (child_flags, not_dir, not_wild)

  parent_of_child :
      (p : KeyPath) (c : Component)
      → IsPlain p
      → HasKey c
      → IsCanonical c
      → Component.is_directory c ≡ false
      → Component.is_wildcard c ≡ false
      → parent (child p c) ≡ as_directory p
  parent_of_child p c w hk hc not_dir not_wild =
      parent-compiled (child p c) (compiled-base-IsPlain p c w hk hc)
      ∙ (simp (child_flags, not_dir, not_wild, init-concat) refl ∙ sym (as_directory-compiled p w))

  parent_of_child_directory :
      (p : KeyPath) (c : Component)
      → IsPlain p
      → HasKey c
      → IsCanonical c
      → Component.is_directory c ≡ false
      → Component.is_wildcard c ≡ false
      → parent (child (child p c) dot) ≡ as_directory p
  unfolding Component.is_directory Component.is_wildcard
  parent_of_child_directory p c w hk hc not_dir not_wild =
      let q = child p c in
      let wq = compiled-base-IsPlain p c w hk hc in
      parent-compiled (child q dot) (compiled-base-IsPlain q dot wq dot-HasKey dot-IsCanonical)
      ∙ (simp (child_flags, init-concat) (simp (not_dir, not_wild, init-concat) refl)
          ∙ sym (as_directory-compiled p w))

  -- The parent of a directory is the directory of its components but the last.
  pub parent_of_directory :
      (cs : List Component)
      → All HasKey cs
      → All IsCanonical cs
      → parent (compiled (cs ++ dot ∷ [])) ≡ ok (compiled (init cs ++ dot ∷ []))
  unfolding Component.is_directory Component.is_wildcard
  parent_of_directory cs hk hc =
      parent-compiled (compiled (cs ++ dot ∷ [])) (
        compiled-IsPlain (cs ++ dot ∷ []) (All-append HasKey cs _ hk (dot-HasKey, tt))
          (All-append IsCanonical cs _ hc (dot-IsCanonical, tt)))
      ∙ simp (child_flags, init-concat) refl

  -- From a path that is read back from its key string, with a member component that is read back
  -- from its key and is neither a directory nor a wildcard: the member that `withChild` makes, and
  -- the directory of that member, both have the directory of the path for their parent.
  pub parent-with_child :
      (p : KeyPath) (c : Component)
      → IsPlain p
      → HasKey c
      → IsCanonical c
      → Component.is_directory c ≡ false
      → Component.is_wildcard c ≡ false
      → (q : KeyPath) → with_child p c ≡ ok q
      → (parent q ≡ as_directory p) × ((as_directory q >>= parent) ≡ as_directory p)
  parent-with_child p c w hk hc not_dir not_wild q e =
      let made : child p c ≡ q = ok_injective (sym (with_child-compiled p c w hk hc) ∙ e) in
      subst
        (λ (r : KeyPath).
          (parent r ≡ as_directory p) × ((as_directory r >>= parent) ≡ as_directory p))
        made
        (
          parent_of_child p c w hk hc not_dir not_wild,
          rw (as_directory-compiled (child p c) (compiled-base-IsPlain p c w hk hc))
              (parent_of_child_directory p c w hk hc not_dir not_wild),
        )

  -- `withChild` of a size puts the index behind the base.
  pub with_index-compiled :
      (p : KeyPath) (i : ℕ) → IsPlain p → i < 2 ^ 64 → with_index p i ≡ ok (child p (index i))
  unfolding with_index
  with_index-compiled p i w h =
      let text = Component.index_mark ∷ to_text i in
      rw (base_path-compiled p w.well_formed) (
        ap update (sym (separated-keys (base p) text))
        ∙ update-token (base p) text (index i) (All-base HasKey p w.well_formed.has_keys)
            (All-base IsCanonical p w.canonical) (λ e. cc)
            (omega arith, digits_lack slash (to_text i) (omega arith) (cast.show_digits i))
            (omega arith, digits_lack b' ' (to_text i) (omega arith) (cast.show_digits i))
            (of_string-index_text i h))

  from_end-concat : (cs : List Component) (c : Component) → from_end 1 (cs ++ c ∷ []) ≡ c
  unfolding from_end
  from_end-concat cs c = rw (reverse-append cs (c ∷ []), from_end)

  name-child :
      (p : KeyPath) (c : Component) → Component.is_directory c ≡ false → name (child p c) ≡ c
  unfolding name
  name-child p c not_dir = simp (child_flags, not_dir, from_end-concat)

  -- For a path that is read back from its key string and an index below 2 ^ 64, the path that
  -- `withChild` makes of the index has this index for its `parseIndex`, and its parent is the
  -- directory of the path.
  pub parse_index-with_index :
      (p : KeyPath) (i : ℕ)
      → IsPlain p
      → i < 2 ^ 64
      → (q : KeyPath) → with_index p i ≡ ok q
      → (parse_index q ≡ ok i) × (parent q ≡ as_directory p)
  unfolding parse_index Component.is_directory Component.is_wildcard
  parse_index-with_index p i w h q e =
      let made : child p (index i) ≡ q = ok_injective (sym (with_index-compiled p i w h) ∙ e) in
      subst (λ (r : KeyPath). (parse_index r ≡ ok i) × (parent r ≡ as_directory p)) made
        (
          rw (name-child p (index i) refl) (cast.read-show i h),
          parent_of_child p (index i) w (index-HasKey i h) (of_string-index_key i h) refl refl,
        )
