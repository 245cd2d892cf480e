-- ===== src/Record/Parents.antt =====
-- `getParents` ends: each parent has one component less.
use janosh.Common.{
  ℕ, zero, suc, ◌<◌, ◌≤◌, List, [], ◌∷◌, ◌++◌, Bool, true, false, ◌≡◌, refl, arith, length, init,
  All, All-append, All-init, if◌then◌else◌, Bool-cases, inl, inr,
}
use janosh.Component.{Component, LexicalCast}
use janosh.Path
use janosh.Path.{KeyPath}
use janosh.Path.Compile.{compiled, HasKey}
use janosh.Path.Reads.{IsCanonical}
use janosh.Path.Algebra.{dot, base, IsPlain, All-base, compiled-IsPlain}
use janosh.Path.Family
use janosh.Path.Family.{parent_of_directory, parent-compiled, dot-HasKey, dot-IsCanonical}
use janosh.Remote.{RemoteDb, IsMap, World}
use janosh.Record.{Record}
use janosh.Record.Fetch.{opened}
use janosh.Record.Outcome.{View, Ends, parent-Ends}
use janosh.Record.Walks.{parents_from, get_parents}

length-init : (c : Component) (cs : List Component) → length (init (c ∷ cs)) < length (c ∷ cs)
length-init c [] = omega arith
length-init c (d ∷ cs) = omega (arith, length-init d cs)

length-init_le : (cs : List Component) → length (init cs) ≤ length cs
length-init_le [] = omega arith
length-init_le (c ∷ cs) = omega (arith, length-init c cs)

module _ ⦃cast : LexicalCast⦄ ⦃remote : RemoteDb⦄ (laws : IsMap remote) where
  directory-IsPlain :
      (cs : List Component)
      → All HasKey cs
      → All IsCanonical cs
      → IsPlain (compiled (cs ++ dot ∷ []))
  directory-IsPlain cs hk hc =
      compiled-IsPlain (cs ++ dot ∷ []) (All-append HasKey cs _ hk (dot-HasKey, tt))
        (All-append IsCanonical cs _ hc (dot-IsCanonical, tt))

  root_is_root : Path.is_root (compiled (dot ∷ [])) ≡ true
  unfolding Path.is_root
  root_is_root = refl

  -- From the directory of some components the loop ends within as many steps and one more.
  parents_from-Ends :
      (fuel : ℕ) (c : ℕ) (cs : List Component) (parents : List Record) (w : World) (f : View)
      → laws.view w.db ≡ f
      → length cs < fuel
      → All HasKey cs
      → All IsCanonical cs
      → (rs : List Record) × Ends laws
          (parents_from fuel (opened c (compiled (cs ++ dot ∷ []))) parents)
          w
          rs
          f
  unfolding parents_from
  parents_from-Ends zero c cs parents w f hv h hk hc = absurd (omega arith)
  parents_from-Ends (suc fuel) c [] parents w f hv h hk hc = (
    opened c (compiled (dot ∷ [])) ∷ parents,
    record { after = w; run = rw root_is_root; view_after = hv },
  )
  parents_from-Ends (suc fuel) c (x ∷ xs) parents w f hv h hk hc =
      let cs = x ∷ xs in
      let here = opened c (compiled (cs ++ dot ∷ [])) in
      let shorter = init cs in
      elim (Bool-cases (Path.is_root (compiled (cs ++ dot ∷ [])))) [
        | inl root ↦ (here ∷ parents, record { after = w; run = rw root; view_after = hv })
        | inr other ↦
            let (e, up) =
              parent-Ends laws here (compiled (shorter ++ dot ∷ [])) w f hv
                (parent_of_directory cs hk hc)
                (directory-IsPlain shorter (All-init HasKey cs hk) (All-init IsCanonical cs hc)) in
            let (rs, rest) =
              parents_from-Ends fuel e shorter (here ∷ parents) up.after f up.view_after
                (omega (arith, length-init x xs)) (All-init HasKey cs hk)
                (All-init IsCanonical cs hc) in
            (
              rs,
              record {
                after = rest.after;
                run = rw other (rw up.run rest.run);
                view_after = rest.view_after;
              },
            )
      ]

  All-choice :
      (P : Component → Type 0) (b : Bool) (cs ds : List Component)
      → All P cs
      → All P ds
      → All P (if b then cs else ds)
  All-choice P true cs ds h hs = h
  All-choice P false cs ds h hs = hs

  All-parents :
      (P : Component → Type 0) (p : KeyPath) → All P p.components → All P (Family.parents p)
  All-parents P p h =
      All-choice P p.wildcard (base p) (init (base p)) (All-base P p h)
        (All-init P (base p) (All-base P p h))

  length-parents : (p : KeyPath) → length (Family.parents p) ≤ length p.components
  length-parents p = ground (arith, length-init_le (base p), length-init_le p.components)

  -- For a path that is read back from its key string, `getParents` of a freshly opened record ends
  -- with a list within as many steps as the path has components and one more, and changes no
  -- record.
  pub get_parents-Ends :
      (fuel : ℕ) (c : ℕ) (p : KeyPath) (w : World) (f : View)
      → laws.view w.db ≡ f
      → IsPlain p
      → length p.components < fuel
      → (rs : List Record) × Ends laws (get_parents fuel (opened c p)) w rs f
  unfolding get_parents
  get_parents-Ends fuel c p w f hv plain h = elim (Bool-cases (Path.is_root p)) [
    | inl root ↦ ([], record { after = w; run = rw root; view_after = hv })
    | inr other ↦
        let hk = All-parents HasKey p plain.well_formed.has_keys in
        let hc = All-parents IsCanonical p plain.canonical in
        let (e, up) =
          parent-Ends laws (opened c p) (compiled (Family.parents p ++ dot ∷ [])) w f hv
            (parent-compiled p plain) (directory-IsPlain (Family.parents p) hk hc) in
        let (rs, rest) =
          parents_from-Ends fuel e (Family.parents p) [] up.after f up.view_after
            (omega (arith, length-parents p)) hk hc in
        (
          rs,
          record {
            after = rest.after;
            run = rw other (rw up.run rest.run);
            view_after = rest.view_after;
          },
        )
  ]
