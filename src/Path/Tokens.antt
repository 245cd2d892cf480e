-- ===== src/Path/Tokens.antt =====
-- `tokenize` of path.cpp.

use janosh.Common.{
  ℕ, List, [], ◌∷◌, ◌++◌, append-nil, append_assoc, not, ◌≡◌, refl, sym, ap, ◌∙◌, Bytes, Lacks, All,
  All-append, Bool-cases, inl, inr, ◌==◌, if◌then◌else◌, arith,
}

-- The loop: the tokens so far, the token that is being read, and the text that is left.
unfoldable pub tokenize_from : ℕ → List Bytes → Bytes → Bytes → List Bytes
tokenize_from sep tokens temporary [] = tokens ++ temporary ∷ []
tokenize_from sep tokens temporary (ch ∷ rest) =
    let longer = tokenize_from sep tokens (temporary ++ ch ∷ []) rest in
    let next = tokenize_from sep (tokens ++ temporary ∷ []) [] rest in
    if not (ch == sep) then longer else next

unfoldable pub tokenize : Bytes → ℕ → List Bytes
unfolding tokenize_from
tokenize s sep = tokenize_from sep [] [] s

module _ (sep : ℕ) where
  -- Every token behind a separator.
  abbrev pub separated : List Bytes → Bytes
  separated [] = []
  separated (t ∷ ts) = sep ∷ t ++ separated ts

  tokenize_from-append :
      (t rest : Bytes) (tokens : List Bytes) (temporary : Bytes)
      → Lacks sep t
      → tokenize_from sep tokens temporary (t ++ rest)
        ≡ tokenize_from sep tokens (temporary ++ t) rest
  unfolding tokenize_from
  tokenize_from-append [] rest tokens temporary h = rw append-nil
  tokenize_from-append (ch ∷ t) rest tokens temporary h = ground (
    arith,
    tokenize_from-append t rest tokens (temporary ++ ch ∷ []),
    append_assoc temporary (ch ∷ []) t,
  )

  tokenize_from-sep :
      (rest : Bytes) (tokens : List Bytes) (temporary : Bytes)
      → tokenize_from sep tokens temporary (sep ∷ rest)
        ≡ tokenize_from sep (tokens ++ temporary ∷ []) [] rest
  unfolding tokenize_from
  tokenize_from-sep rest tokens temporary = ground arith

  tokenize_from-separated :
      (ts tokens : List Bytes) (temporary : Bytes)
      → All (Lacks sep) ts
      → tokenize_from sep tokens temporary (separated ts) ≡ tokens ++ temporary ∷ ts
  tokenize_from-separated [] tokens temporary h = unfold tokenize_from in refl
  tokenize_from-separated (t ∷ ts) tokens temporary (ht, hts) = rw (
    tokenize_from-sep,
    tokenize_from-append t _ _ [] ht,
    tokenize_from-separated ts _ t hts,
    append_assoc,
  )

  -- Texts without the separator, each written behind one separator, are read back by `tokenize`,
  -- with an empty token before them.
  pub tokenize-separated :
      (ts : List Bytes) → All (Lacks sep) ts → tokenize (separated ts) sep ≡ [] ∷ ts
  unfolding tokenize
  tokenize-separated ts h = tokenize_from-separated ts [] [] h

  -- The tokens and the separators between them spell the text.
  pub separated-append : (ts us : List Bytes) → separated (ts ++ us) ≡ separated ts ++ separated us
  separated-append [] us = refl
  separated-append (t ∷ ts) us = simp (separated-append ts us, append_assoc)

  separated-tokenize_from :
      (s : Bytes) (tokens : List Bytes) (temporary : Bytes)
      → separated (tokenize_from sep tokens temporary s)
        ≡ separated tokens ++ sep ∷ (temporary ++ s)
  unfolding tokenize_from
  separated-tokenize_from [] tokens temporary = separated-append tokens (temporary ∷ [])
  separated-tokenize_from (ch ∷ s) tokens temporary =
      grind (arith, separated-tokenize_from s, separated-append, append_assoc)

  -- The tokens of any text, each written behind one separator, spell the text behind one separator.
  pub separated-tokenize : (s : Bytes) → separated (tokenize s sep) ≡ sep ∷ s
  unfolding tokenize
  separated-tokenize s = separated-tokenize_from s [] []

  -- Whatever the text, no token has a separator, and each has only bytes of the text.
  tokenize_from-All {ℓ} :
      (P : ℕ → Type ℓ) (s : Bytes) (tokens : List Bytes) (temporary : Bytes)
      → All (All P) tokens
      → All P temporary
      → All P s
      → All (All P) (tokenize_from sep tokens temporary s)
  unfolding tokenize_from
  tokenize_from-All P [] tokens temporary h l hs = All-append (All P) tokens _ h (l, tt)
  tokenize_from-All P (ch ∷ s) tokens temporary h l (hc, hs) = elim (Bool-cases (ch == sep)) [
    | inl e ↦ rw e (
        tokenize_from-All P s (tokens ++ temporary ∷ []) [] (All-append (All P) tokens _ h (l, tt))
          tt hs)
    | inr e ↦ rw e (
        tokenize_from-All P s tokens (temporary ++ ch ∷ []) h (All-append P temporary _ l (hc, tt))
          hs)
  ]

  tokenize_from-Lacks :
      (s : Bytes) (tokens : List Bytes) (temporary : Bytes)
      → All (Lacks sep) tokens
      → Lacks sep temporary
      → All (Lacks sep) (tokenize_from sep tokens temporary s)
  unfolding tokenize_from
  tokenize_from-Lacks [] tokens temporary h l = All-append (Lacks sep) tokens _ h (l, tt)
  tokenize_from-Lacks (ch ∷ s) tokens temporary h l = elim (Bool-cases (ch == sep)) [
    | inl e ↦ rw e (
        tokenize_from-Lacks s (tokens ++ temporary ∷ []) []
          (All-append (Lacks sep) tokens _ h (l, tt)) tt)
    | inr e ↦ rw e (
        tokenize_from-Lacks s tokens (temporary ++ ch ∷ []) h
          (All-append _ temporary _ l (ground arith, tt)))
  ]

  pub tokenize-All {ℓ} : (P : ℕ → Type ℓ) (s : Bytes) → All P s → All (All P) (tokenize s sep)
  unfolding tokenize
  tokenize-All P s h = tokenize_from-All P s [] [] tt tt h

  pub tokenize-Lacks : (s : Bytes) → All (Lacks sep) (tokenize s sep)
  unfolding tokenize
  tokenize-Lacks s = tokenize_from-Lacks s [] [] tt tt

  -- Two texts with a separator between them.
  pub tokenize-pair :
      (s t : Bytes) → Lacks sep s → Lacks sep t → tokenize (s ++ sep ∷ t) sep ≡ s ∷ t ∷ []
  unfolding tokenize
  tokenize-pair s t ls lt =
      tokenize_from-append s (sep ∷ t) [] [] ls
      ∙ tokenize_from-sep t [] s
      ∙ ap (λ r. tokenize_from sep (s ∷ []) [] r) (sym (append-nil t))
      ∙ tokenize_from-append t [] (s ∷ []) [] lt
      ∙ tokenize_from-separated [] (s ∷ []) t tt
