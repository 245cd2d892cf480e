-- ===== src/Path/Algebra.antt =====
-- The methods that derive a path from a path, as operations on its components.
use janosh.Common.{
  List, [], ◌∷◌, ◌++◌, append-nil, Bool, true, ◌||◌, ◌≡◌, refl, sym, ap, ◌∙◌, Bytes, codes, All,
  All-append, All-init, init, Bool-cases, inl, inr, if◌then◌else◌, arith,
}
use janosh.Result.{ok, ◌>>=◌}
use janosh.Component
use janosh.Component.{Component, LexicalCast, to_text}
use janosh.Path.Tokens.{separated, separated-append}
use janosh.Path.{KeyPath, slash, back_is, rebuild, update, erase_back, pop, base_path, with_child}
use janosh.Path.Compile.{
  keys, compiled, NoSlash, rebuild-compiled, HasKey, IsWellFormed, All-NoSlash,
  compiled-IsWellFormed,
}
use janosh.Path.Reads.{IsCanonical}
use janosh.Path.Update.{update-canonical}

-- The components of a directory and of a wildcard.
abbrev pub dot : Component
dot = record { key = codes "!"; pretty = codes "." }

abbrev pub star : Component
star = record { key = codes "*"; pretty = codes "*" }

-- The components without a directory or wildcard at the end.
abbrev pub base : KeyPath → List Component
base p = if p.directory || p.wildcard then init p.components else p.components

keys-append : (cs ds : List Component) → keys (cs ++ ds) ≡ keys cs ++ keys ds
keys-append [] ds = refl
keys-append (c ∷ cs) ds = ap (λ ks. c.key ∷ ks) (keys-append cs ds)

pub pop-compiled :
    (p : KeyPath)
    → back_is (λ _. true) p.components ≡ true
    → All NoSlash p.components
    → pop p ≡ ok (compiled (init p.components))
unfolding pop
pop-compiled p some_back h = erased p.components some_back h
  where
    erased :
        (cs : List Component)
        → back_is (λ _. true) cs ≡ true
        → All NoSlash cs
        → (erase_back cs >>= rebuild) ≡ ok (compiled (init cs))
    erased [] e h = cc
    erased (c ∷ cs) e h = rebuild-compiled (init (c ∷ cs)) (All-init NoSlash (c ∷ cs) h)

back_is_some :
    (test : Component → Bool) (cs : List Component)
    → back_is test cs ≡ true
    → back_is (λ _. true) cs ≡ true
back_is_some test [] h = h
back_is_some test (c ∷ []) h = refl
back_is_some test (c ∷ d ∷ cs) h = back_is_some test (d ∷ cs) h

-- A path with a directory or wildcard flag has a last component.
flagged :
    (p : KeyPath)
    → IsWellFormed p
    → (p.directory || p.wildcard) ≡ true
    → back_is (λ _. true) p.components ≡ true
flagged p w e = elim (Bool-cases (back_is Component.is_directory p.components)) [
  | inl d ↦ back_is_some Component.is_directory p.components d
  | inr d ↦ back_is_some Component.is_wildcard p.components (
      ground (
        arith,
        d,
        ap (λ (q : KeyPath). q.directory) w.is_compiled,
        ap (λ (q : KeyPath). q.wildcard) w.is_compiled,
      ))
]

-- `basePath` takes a directory or wildcard component away.
pub base_path-compiled : (p : KeyPath) → IsWellFormed p → base_path p ≡ ok (compiled (base p))
unfolding base_path
base_path-compiled p w = elim (Bool-cases (p.directory || p.wildcard)) [
  | inl e ↦ rw e (pop-compiled p (flagged p w e) (All-NoSlash p.components w.has_keys))
  | inr e ↦ rw e (ap ok w.is_compiled)
]

pub All-base {ℓ} : (P : Component → Type ℓ) (p : KeyPath) → All P p.components → All P (base p)
All-base P p h = elim (Bool-cases (p.directory || p.wildcard)) [
  | inl e ↦ rw e (All-init P p.components h)
  | inr e ↦ rw e h
]

-- One more component is one more key behind a slash.
pub separated-keys :
    (cs : List Component) (k : Bytes)
    → separated slash (keys cs ++ k ∷ []) ≡ separated slash (keys cs) ++ slash ∷ k
separated-keys cs k =
    separated-append slash (keys cs) (k ∷ [])
    ∙ ap (λ s. separated slash (keys cs) ++ slash ∷ s) (append-nil k)

module _ ⦃cast : LexicalCast⦄ where
  -- A path whose strings and flags fit its components, each of which is read back from its key.
  pub record IsPlain (p : KeyPath) : Type 0 where
    pub well_formed : IsWellFormed p
    pub canonical : All IsCanonical p.components

  pub compiled-IsPlain :
      (cs : List Component) → All HasKey cs → All IsCanonical cs → IsPlain (compiled cs)
  compiled-IsPlain cs h hc = record { well_formed = compiled-IsWellFormed cs h; canonical = hc }

  -- A text behind the key string of the base is read as one more component.
  pub update-base :
      (p : KeyPath) (c : Component)
      → IsPlain p
      → HasKey c
      → IsCanonical c
      → update (separated slash (keys (base p)) ++ slash ∷ c.key) ≡ ok (compiled (base p ++ c ∷ []))
  update-base p c w hk hc =
      let cs = base p ++ c ∷ [] in
      let text : separated slash (keys cs) ≡ separated slash (keys (base p)) ++ slash ∷ c.key =
        ap (separated slash) (keys-append (base p) (c ∷ [])) ∙ separated-keys (base p) c.key in
      ap update (sym text)
      ∙ update-canonical (compiled cs)
          (compiled-IsWellFormed cs
            (All-append HasKey (base p) _ (All-base HasKey p w.well_formed.has_keys) (hk, tt)))
          (All-append IsCanonical (base p) _ (All-base IsCanonical p w.canonical) (hc, tt))

  -- `withChild` puts the component behind the base.
  pub with_child-compiled :
      (p : KeyPath) (c : Component)
      → IsPlain p
      → HasKey c
      → IsCanonical c
      → with_child p c ≡ ok (compiled (base p ++ c ∷ []))
  unfolding with_child
  with_child-compiled p c w hk hc =
      rw (base_path-compiled p w.well_formed) (update-base p c w hk hc)
