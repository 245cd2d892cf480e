-- ===== src/Path/Above.antt =====
-- `above`, which tells the records below a directory from those that follow them.
use janosh.Common.{
  ℕ, zero, suc, ◌-◌, ◌≤◌, List, [], ◌∷◌, ◌++◌, true, ◌≡◌, ◌↔◌, refl, ap₂, Bytes, length, take,
  bytes_eq_iff, leb, if◌then◌else◌, arith, &&_iff,
}
use janosh.Component.{Component}
use janosh.Path.{KeyPath, same_keys, above}
use janosh.Path.Compile.{keys}

-- The keys of `cs` are the first keys of `ds`.
abbrev pub IsKeyPrefix : List Component → List Component → Type 0
IsKeyPrefix cs ds = (rest : List Bytes) × (keys ds ≡ keys cs ++ rest)

-- The components of a path but for a directory component at the end.
abbrev pub trunk : KeyPath → List Component
trunk p = take (length p.components - (if p.directory then 1 else 0)) p.components

same_keys_sound :
    (n : ℕ) (cs ds : List Component) → same_keys n cs ds ≡ true → IsKeyPrefix (take n cs) ds
unfolding same_keys
same_keys_sound zero cs ds h = (keys ds, refl)
same_keys_sound (suc n) [] ds h = (keys ds, refl)
same_keys_sound (suc n) (c ∷ cs) [] h = cc
same_keys_sound (suc n) (c ∷ cs) (d ∷ ds) h =
    let (same, rest) = (&&_iff _ _).0 h in
    let (ks, e) = same_keys_sound n cs ds rest in
    (ks, ap₂ ◌∷◌ ((bytes_eq_iff d.key c.key).0 same) e)

same_keys_complete :
    (n : ℕ) (cs ds : List Component)
    → n ≤ length cs
    → n ≤ length ds
    → IsKeyPrefix (take n cs) ds
    → same_keys n cs ds ≡ true
unfolding same_keys
same_keys_complete zero cs ds h1 h2 p = refl
same_keys_complete (suc n) [] ds h1 h2 p = absurd (omega arith)
same_keys_complete (suc n) (c ∷ cs) [] h1 h2 p = absurd (omega arith)
same_keys_complete (suc n) (c ∷ cs) (d ∷ ds) h1 h2 (ks, e) = (&&_iff _ _).1 (
  (bytes_eq_iff d.key c.key).1 (cc),
  same_keys_complete n cs ds (omega arith) (omega arith) (ks, cc),
)

leb_sound : (m n : ℕ) → leb m n ≡ true → m ≤ n
leb_sound m n h = ground arith

leb_complete : (m n : ℕ) → m ≤ n → leb m n ≡ true
leb_complete m n h = ground arith

-- A path is `above` another exactly when it has no more components, and its components without a
-- directory at the end have the keys that the other begins with.
pub above_iff :
    (p q : KeyPath)
    → (above p q ≡ true)
      ↔ ((length p.components ≤ length q.components) × IsKeyPrefix (trunk p) q.components)
unfolding above
above_iff p q =
    let n = length p.components - (if p.directory then 1 else 0) in
    (
      λ (h : above p q ≡ true).
          let (shorter, same) = (&&_iff _ _).0 h in
          (leb_sound _ _ shorter, same_keys_sound n p.components q.components same),
      λ (h : (length p.components ≤ length q.components) × IsKeyPrefix (trunk p) q.components).
          (&&_iff _ _).1 (
            leb_complete _ _ h.0,
            same_keys_complete n p.components q.components (omega arith) (omega (arith, h.0)) h.1,
          ),
    )
