-- ===== src/Path/Reads.antt =====
-- The components that `update` reads from the tokens of a text.
use janosh.Common.{
  ℕ, List, [], ◌∷◌, ◌++◌, append-nil, append_assoc, ◌≡◌, ◌≢◌, refl, sym, ap, ◌∙◌, Bytes, Lacks, All,
  contains, contains_iff, ◌==◌, Bool-cases, inl, inr,
}
use janosh.Result.{ok, >>=-eq-ok, ok_injective}
use janosh.Component
use janosh.Component.{Component, LexicalCast}
use janosh.Component.Keys.{key_of, of_string-key, of_string-Lacks, of_string-ne-nil}
use janosh.Path.Tokens.{tokenize, tokenize-All, tokenize-Lacks}
use janosh.Path.{KeyPath, slash, read_components, update_tokens, update}
use janosh.Path.Compile.{compiled, rebuild-eq-ok, HasKey}

module _ ⦃cast : LexicalCast⦄ where
  -- The key is read as a component with that key.
  abbrev pub IsStable : Component → Type 0
  IsStable c = key_of (Component.of_string c.key) ≡ ok c.key

  -- The key is read as that component.
  abbrev pub IsCanonical : Component → Type 0
  IsCanonical c = Component.of_string c.key ≡ ok c

  -- The tokens that are read, each as its component.
  pub data Reads : List Bytes → List Component → Type 0 where
    done : Reads [] []
    more :
        {b : ℕ} {t : Bytes} {c : Component} {ts : List Bytes} {cs : List Component}
        → Component.of_string (b ∷ t) ≡ ok c
        → Reads ts cs
        → Reads ((b ∷ t) ∷ ts) (c ∷ cs)

  pub read_components-Reads :
      (acc : List Component) {ts : List Bytes} {cs : List Component}
      → Reads ts cs
      → read_components acc ts ≡ ok (acc ++ cs)
  unfolding read_components
  read_components-Reads acc done = rw append-nil
  read_components-Reads acc (more {c = c} h r) =
      rw h (rw (read_components-Reads (acc ++ c ∷ []) r, append_assoc))

  pub Reads-read_components :
      (acc : List Component) (ts : List Bytes) (ds : List Component)
      → read_components acc ts ≡ ok ds
      → (cs : List Component) × (ds ≡ acc ++ cs) × Reads ts cs
  unfolding read_components
  Reads-read_components acc [] ds h = ([], sym (ok_injective h) ∙ sym (append-nil acc), done)
  Reads-read_components acc ([] ∷ ts) ds h = cc
  Reads-read_components acc ((b ∷ t) ∷ ts) ds h =
      let (c, hc, h') = >>=-eq-ok (Component.of_string (b ∷ t)) _ h in
      let (cs, e, r) = Reads-read_components (acc ++ c ∷ []) ts ds h' in
      (c ∷ cs, e ∙ append_assoc acc (c ∷ []) cs, more hc r)

  pub Reads-IsKey :
      {ts : List Bytes} {cs : List Component}
      → Reads ts cs
      → All (Lacks slash) ts
      → All (Lacks b' ') ts
      → All HasKey cs
  Reads-IsKey done h1 h2 = tt
  Reads-IsKey (more {b = b} {t = t} {c = c} h r) (s1, h1) (s2, h2) = (
    record {
      no_slash = of_string-Lacks slash (b ∷ t) c refl refl refl refl h s1;
      no_space = of_string-Lacks b' ' (b ∷ t) c refl refl refl refl h s2;
      not_empty = of_string-ne-nil (b ∷ t) c h (λ p. cc);
    },
    Reads-IsKey r h1 h2,
  )

  pub Reads-IsStable : {ts : List Bytes} {cs : List Component} → Reads ts cs → All IsStable cs
  Reads-IsStable done = tt
  Reads-IsStable (more {b = b} {t = t} {c = c} h r) = (of_string-key (b ∷ t) c h, Reads-IsStable r)

  -- What the tokens of a text without a space become.
  pub update_tokens-eq-ok :
      (ts : List Bytes) (p : KeyPath)
      → All (Lacks slash) ts
      → All (Lacks b' ') ts
      → update_tokens ts ≡ ok p
      → (cs : List Component) × (p ≡ compiled cs) × All HasKey cs × All IsStable cs
  unfolding update_tokens
  update_tokens-eq-ok [] p h1 h2 h = ([], sym (ok_injective h), tt, tt)
  update_tokens-eq-ok (t ∷ ts) p (_, h1) (_, h2) h =
      let (ds, hd, hr) = >>=-eq-ok (read_components [] ts) _ h in
      let (cs, e, r) = Reads-read_components [] ts ds hd in
      let (q, _) = rebuild-eq-ok ds p hr in
      (cs, q ∙ ap compiled e, Reads-IsKey r h1 h2, Reads-IsStable r)

  -- The guards of `update`.
  pub update-eq-ok :
      (s : Bytes) (p : KeyPath)
      → update s ≡ ok p
      → (cs : List Component) × (p ≡ compiled cs) × All HasKey cs × All IsStable cs
  unfolding update
  update-eq-ok [] p h = ([], sym (ok_injective h), tt, tt)
  update-eq-ok (b ∷ rest) p h = elim (Bool-cases (b == slash)) [
    | inr e ↦ absurd (cc (rw e at h))
    | inl e ↦ elim (Bool-cases (contains b' ' (b ∷ rest))) [
      | inl e2 ↦ absurd (cc (simp (e, e2) at h))
      | inr e2 ↦
          update_tokens-eq-ok (tokenize (b ∷ rest) slash) p (tokenize-Lacks slash (b ∷ rest))
            (tokenize-All slash (λ c. c ≢ b' ') (b ∷ rest) ((contains_iff b' ' (b ∷ rest)).0 e2))
            (simp (e, e2) at h)
    ]
  ]
