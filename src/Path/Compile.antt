-- ===== src/Path/Compile.antt =====
-- What `rebuild` compiles, and which paths are compiled.
use janosh.Common.{
  List, [], ◌∷◌, ◌++◌, append-nil, append_assoc, ◌≡◌, ◌≢◌, refl, sym, ◌∙◌, Bytes, Lacks, All,
  contains, contains_iff, Bool-cases, inl, inr,
}
use janosh.Result.{ok, >>=-eq-ok, ok_injective}
use janosh.Component
use janosh.Component.{Component}
use janosh.Path.Tokens.{separated}
use janosh.Path.{KeyPath, slash, back_is, rebuild_from, rebuild}

abbrev pub keys : List Component → List Bytes
keys [] = []
keys (c ∷ cs) = c.key ∷ keys cs

abbrev pub pretties : List Component → List Bytes
pretties [] = []
pretties (c ∷ cs) = c.pretty ∷ pretties cs

-- The path of a list of components.
abbrev pub compiled : List Component → KeyPath
compiled cs = record {
  key_str = separated slash (keys cs);
  pretty_str = separated slash (pretties cs);
  components = cs;
  directory = back_is Component.is_directory cs;
  wildcard = back_is Component.is_wildcard cs;
}

abbrev pub NoSlash : Component → Type 0
NoSlash c = Lacks slash c.key

rebuild_from-compiled :
    (a b : Bytes) (cs : List Component)
    → All NoSlash cs
    → rebuild_from a b cs ≡ ok (a ++ separated slash (keys cs), b ++ separated slash (pretties cs))
unfolding rebuild_from
rebuild_from-compiled a b [] h = rw (append-nil a, append-nil b)
rebuild_from-compiled a b (c ∷ cs) (hc, hs) =
    rw ((contains_iff slash c.key).1 hc) (
      simp (rebuild_from-compiled (a ++ slash ∷ c.key) (b ++ slash ∷ c.pretty) cs hs, append_assoc))

-- Components without a slash are compiled.
pub rebuild-compiled : (cs : List Component) → All NoSlash cs → rebuild cs ≡ ok (compiled cs)
unfolding rebuild
rebuild-compiled cs h = rw (rebuild_from-compiled [] [] cs h)

rebuild_from-NoSlash :
    (a b : Bytes) (cs : List Component) {r : Bytes × Bytes}
    → rebuild_from a b cs ≡ ok r
    → All NoSlash cs
unfolding rebuild_from
rebuild_from-NoSlash a b [] h = tt
rebuild_from-NoSlash a b (c ∷ cs) h = elim (Bool-cases (contains slash c.key)) [
  | inl e ↦ absurd (cc (rw e at h))
  | inr e ↦ ((contains_iff slash c.key).0 e, rebuild_from-NoSlash _ _ cs (rw e at h))
]

-- What `rebuild` returns is the compiled path, and no key has a slash.
pub rebuild-eq-ok :
    (cs : List Component) (p : KeyPath) → rebuild cs ≡ ok p → (p ≡ compiled cs) × All NoSlash cs
unfolding rebuild
rebuild-eq-ok cs p h =
    let (r, hr, _) = >>=-eq-ok (rebuild_from [] [] cs) _ h in
    let free = rebuild_from-NoSlash [] [] cs hr in
    (ok_injective (sym h ∙ unfold rebuild in rebuild-compiled cs free), free)

-- A key that can stand in a key string: it is not empty, and has no slash and no space.
pub record IsKey (k : Bytes) : Type 0 where
  pub no_slash : Lacks slash k
  pub no_space : Lacks b' ' k
  pub not_empty : k ≢ []

abbrev pub HasKey : Component → Type 0
HasKey c = IsKey c.key

-- The strings and flags of a path fit its components, and its key string can be read.
pub record IsWellFormed (p : KeyPath) : Type 0 where
  pub is_compiled : p ≡ compiled p.components
  pub has_keys : All HasKey p.components

pub All-NoSlash : (cs : List Component) → All HasKey cs → All NoSlash cs
All-NoSlash [] h = tt
All-NoSlash (c ∷ cs) (hc, hs) = (hc.no_slash, All-NoSlash cs hs)

-- `rebuild` of components with such keys is a well-formed path.
pub compiled-IsWellFormed : (cs : List Component) → All HasKey cs → IsWellFormed (compiled cs)
compiled-IsWellFormed cs h = record { is_compiled = refl; has_keys = h }
