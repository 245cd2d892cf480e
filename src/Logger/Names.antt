-- ===== src/Logger/Names.antt =====
-- No two threads have the same name in the log.
use janosh.Common.{
  ℕ, suc, ◌+◌, ◌^◌, ◌<◌, ◌≤◌, ◌≡◌, ◌≢◌, refl, subst, sym, ap, ◌∙◌, inl, inr, true, [], ◌∷◌, ◌++◌,
  some, Bytes, Lacks, All, arith, Bool-cases, ◌==◌, bytes_eq_iff, bytes_eq_refl, is_some,
  Option-cases, number_eq, text_eq,
}
use janosh.Result.{ok_injective}
use janosh.Component.{LexicalCast, to_text}
use janosh.Component.Cast.{IsDigit}
use janosh.Logger.{ThreadNameLookup, no_threads, counted, numbered, set, get, remove}

cons_tail : {b c : ℕ} {s t : Bytes} → (b ∷ s) ≡ (c ∷ t) → s ≡ t
cons_tail e = cc

digits-Lacks : (s : Bytes) → All IsDigit s → Lacks b'-' s
digits-Lacks [] h = tt
digits-Lacks (c ∷ s) (h, hs) = (ground arith, digits-Lacks s hs)

middle_apart : (c : ℕ) (t u : Bytes) → Lacks c (t ++ c ∷ u) → ⊥
middle_apart c [] u h = h.0 refl
middle_apart c (b ∷ t) u h = middle_apart c t u h.1

-- The last separator.
split_unique :
    (c : ℕ) (t t' u u' : Bytes)
    → Lacks c u
    → Lacks c u'
    → (t ++ c ∷ u) ≡ (t' ++ c ∷ u')
    → (t ≡ t') × (u ≡ u')
split_unique c [] [] u u' l l' e = (refl, cc)
split_unique c [] (b ∷ t') u u' l l' e =
    absurd (middle_apart c t' u' (subst (Lacks c) (cons_tail e) l))
split_unique c (b ∷ t) [] u u' l l' e =
    absurd (middle_apart c t u (subst (Lacks c) (sym (cons_tail e)) l'))
split_unique c (b ∷ t) (b' ∷ t') u u' l l' e =
    let (same, rest) = split_unique c t t' u u' l l' (cons_tail e) in (cc, rest)

module _ ⦃cast : LexicalCast⦄ where
  numbered_unique :
      (t t' : Bytes) (k k' : ℕ)
      → k < 2 ^ 64
      → k' < 2 ^ 64
      → numbered t k ≡ numbered t' k'
      → (t ≡ t') × (k ≡ k')
  numbered_unique t t' k k' b b' e =
      let (name, text) =
        split_unique b'-' t t' (to_text k) (to_text k') (digits-Lacks _ (cast.show_digits k))
          (digits-Lacks _ (cast.show_digits k')) e in
      (
        name,
        ok_injective (
            sym (cast.read-show k b) ∙ ap (λ (s : Bytes). cast.read s) text ∙ cast.read-show k' b'),
      )

  -- What threads call, with the number of calls.
  pub data Run : ℕ → ThreadNameLookup → Type 0 where
    start : Run 0 no_threads
    sets :
        {n : ℕ} {s : ThreadNameLookup} (id : ℕ) (thread_name : Bytes)
        → Run n s
        → Run (suc n) (set id thread_name s)
    removes : {n : ℕ} {s : ThreadNameLookup} (id : ℕ) → Run n s → Run (suc n) (remove id s)

  record IsNumbered (n : ℕ) (s : ThreadNameLookup) : Type 0 where
    drawn :
        (i : ℕ) (name : Bytes)
        → s.id_lookup i ≡ some name
        → (t : Bytes) × (k : ℕ) × (name ≡ numbered t k) × (k < counted t s)
    few : (t : Bytes) → counted t s ≤ n
    unique :
        (i j : ℕ) (name : Bytes) → s.id_lookup i ≡ some name → s.id_lookup j ≡ some name → i ≡ j

  -- The next name of a thread is not taken.
  fresh :
      {n : ℕ} (thread_name : Bytes) (s : ThreadNameLookup)
      → IsNumbered n s
      → n < 2 ^ 64
      → (j : ℕ) (name : Bytes) → s.id_lookup j ≡ some name
      → name ≡ numbered thread_name (counted thread_name s)
      → ⊥
  fresh {n} thread_name s h room j name e p =
      let (t, k, q, less) = h.drawn j name e in
      let (same, number) =
        numbered_unique t thread_name k (counted thread_name s) (omega (arith, h.few t))
          (omega (arith, h.few thread_name)) (sym q ∙ p) in
      let less' : k < counted thread_name s = subst (λ (x : Bytes). k < counted x s) same less in
      absurd (omega (arith, less', number))

  set-IsNumbered :
      {n : ℕ} (id : ℕ) (thread_name : Bytes) (s : ThreadNameLookup)
      → n + 1 < 2 ^ 64
      → IsNumbered n s
      → IsNumbered (suc n) (set id thread_name s)
  unfolding set
  set-IsNumbered {n} id thread_name s room h = record {
    drawn = λ i name e. elim (Bool-cases (i == id)) [
      | inl x ↦ (
        thread_name,
        counted thread_name s,
        ground arith,
        ground (arith, h.few thread_name, bytes_eq_refl thread_name),
      )
      | inr x ↦
          let (t, k, p, q) = h.drawn i name (ground arith) in
          (t, k, p, ground (arith, h.few t, bytes_eq_iff t thread_name))
    ];
    few = λ t. ground (arith, h.few t, h.few thread_name);
    unique = λ i j name e f. elim (Bool-cases (i == id)) [
      | inl x ↦ elim (Bool-cases (j == id)) [
        | inl y ↦ ground arith
        | inr y ↦ absurd (fresh thread_name s h (omega arith) j name (ground arith) (ground arith))
      ]
      | inr x ↦ elim (Bool-cases (j == id)) [
        | inl y ↦ absurd (fresh thread_name s h (omega arith) i name (ground arith) (ground arith))
        | inr y ↦ h.unique i j name (ground arith) (ground arith)
      ]
    ];
  }

  remove-IsNumbered :
      {n : ℕ} (id : ℕ) (s : ThreadNameLookup) → IsNumbered n s → IsNumbered (suc n) (remove id s)
  unfolding remove
  remove-IsNumbered id s h = record {
    drawn = λ i name e. h.drawn i name (ground arith);
    few = λ t. omega (arith, h.few t);
    unique = λ i j name e f. h.unique i j name (ground arith) (ground arith);
  }

  Run-IsNumbered : {n : ℕ} {now : ThreadNameLookup} → Run n now → n < 2 ^ 64 → IsNumbered n now
  Run-IsNumbered start room = record {
    drawn = λ i name e. cc;
    few = λ t. omega arith;
    unique = λ i j name e f. cc;
  }
  Run-IsNumbered (sets {s = s} id thread_name r) room =
      set-IsNumbered id thread_name s (omega arith) (Run-IsNumbered r (omega arith))
  Run-IsNumbered (removes {s = s} id r) room =
      remove-IsNumbered id s (Run-IsNumbered r (omega arith))

  -- After fewer than 2 ^ 64 registrations and removals of threads, two different threads that are
  -- registered have different names in the log.
  pub Run-get :
      {n : ℕ} {s : ThreadNameLookup} (i j : ℕ)
      → Run n s
      → n < 2 ^ 64
      → is_some (s.id_lookup i) ≡ true
      → is_some (s.id_lookup j) ≡ true
      → i ≢ j
      → get i s ≢ get j s
  unfolding get
  Run-get {s = s} i j r room registered registered' apart e =
      let h = Run-IsNumbered r room in
      elim (Option-cases (s.id_lookup i)) [
        | inl none_i ↦ absurd (ground arith)
        | inr (name, p) ↦ absurd (apart (h.unique i j name p (ground arith)))
      ]
