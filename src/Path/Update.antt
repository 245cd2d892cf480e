-- ===== src/Path/Update.antt =====
-- `update`: what it accepts is well-formed, and reading a key string gives the key string back.
use janosh.Common.{
  ℕ, List, [], ◌∷◌, ◌++◌, false, ◌≡◌, ◌≢◌, refl, sym, ap, ap₂, ◌∙◌, subst, Bytes, Lacks, All,
  All-append, contains, contains_iff, arith,
}
use mathlib.Core.List.{concat-ne-nil}
use janosh.Result.{ok, ◌>>=◌, >>=-eq-ok, ok_injective}
use janosh.Component
use janosh.Component.{Component, LexicalCast}
use janosh.Component.Keys.{of_string-Lacks}
use janosh.Path.Tokens.{separated, tokenize-separated}
use janosh.Path.{KeyPath, slash, rebuild, read_components, update_tokens, update}
use janosh.Path.Compile.{
  keys, compiled, NoSlash, rebuild-compiled, IsWellFormed, All-NoSlash, HasKey,
  compiled-IsWellFormed,
}
use janosh.Path.Reads.{
  IsStable, IsCanonical, Reads, read_components-Reads, update-eq-ok, done, more,
}

module _ ⦃cast : LexicalCast⦄ where
  compiled-path-IsWellFormed :
      (p : KeyPath) (cs : List Component) → p ≡ compiled cs → All HasKey cs → IsWellFormed p
  compiled-path-IsWellFormed p cs e h = subst IsWellFormed (sym e) (compiled-IsWellFormed cs h)

  -- Every path that `update` makes is well-formed: its strings and flags are those that `rebuild`
  -- makes of its components, and no component has a key that is empty or has a slash or a space.
  pub update-IsWellFormed : (s : Bytes) (p : KeyPath) → update s ≡ ok p → IsWellFormed p
  update-IsWellFormed s p h =
      let (cs, e, hk, _) = update-eq-ok s p h in compiled-path-IsWellFormed p cs e hk

  separated-Lacks :
      (m : ℕ) (ts : List Bytes) → m ≢ slash → All (Lacks m) ts → Lacks m (separated slash ts)
  separated-Lacks m [] ne h = tt
  separated-Lacks m (t ∷ ts) ne (ht, hts) =
      (λ e. ne (sym e), All-append _ t (separated slash ts) ht (separated-Lacks m ts ne hts))

  -- The text of at least one token passes the guards.
  pub update-separated :
      (t : Bytes) (ts : List Bytes)
      → All (Lacks slash) (t ∷ ts)
      → All (Lacks b' ') (t ∷ ts)
      → update (separated slash (t ∷ ts)) ≡ (read_components [] (t ∷ ts) >>= rebuild)
  unfolding update update_tokens
  update-separated t ts h1 h2 =
      let free : contains b' ' (separated slash (t ∷ ts)) ≡ false =
        (contains_iff b' ' (separated slash (t ∷ ts))).1
          (separated-Lacks b' ' (t ∷ ts) (omega arith) h2) in
      rw (free, tokenize-separated slash (t ∷ ts) h1)

  pub Reads-more :
      (k : Bytes) (c : Component) (ts : List Bytes) (cs : List Component)
      → k ≢ []
      → Component.of_string k ≡ ok c
      → Reads ts cs
      → Reads (k ∷ ts) (c ∷ cs)
  Reads-more [] c ts cs ne h r = absurd (ne refl)
  Reads-more (b ∷ t) c ts cs ne h r = more h r

  canonical-Reads : (cs : List Component) → All HasKey cs → All IsCanonical cs → Reads (keys cs) cs
  canonical-Reads [] h hc = done
  canonical-Reads (c ∷ cs) (hk, hks) (hc, hcs) =
      Reads-more c.key c (keys cs) cs hk.not_empty hc (canonical-Reads cs hks hcs)

  -- What the keys of components are read as: components with the same keys.
  stable-Reads :
      (cs : List Component)
      → All HasKey cs
      → All IsStable cs
      → (ds : List Component) × Reads (keys cs) ds × (keys ds ≡ keys cs)
  stable-Reads [] h hk = ([], done, refl)
  stable-Reads (c ∷ cs) (hc, hs) (kc, ks) =
      let (d, hd, e) = >>=-eq-ok (Component.of_string c.key) _ kc in
      let (ds, r, es) = stable-Reads cs hs ks in
      (d ∷ ds, Reads-more c.key d (keys cs) ds hc.not_empty hd r, ap₂ ◌∷◌ (ok_injective e) es)

  lacking : (m : ℕ) (cs : List Component) → All (λ c. Lacks m c.key) cs → All (Lacks m) (keys cs)
  lacking m [] h = tt
  lacking m (c ∷ cs) (hc, hs) = (hc, lacking m cs hs)

  free_of : (cs : List Component) → All (Lacks slash) (keys cs) → All NoSlash cs
  free_of [] h = tt
  free_of (c ∷ cs) (hc, hs) = (hc, free_of cs hs)

  All-NoSpace : (cs : List Component) → All HasKey cs → All (λ c. Lacks b' ' c.key) cs
  All-NoSpace [] h = tt
  All-NoSpace (c ∷ cs) (hc, hs) = (hc.no_space, All-NoSpace cs hs)

  -- A key string is read as the path of the components that its keys are read as.
  pub update-keys :
      (cs ds : List Component)
      → All HasKey cs
      → Reads (keys cs) ds
      → All NoSlash ds
      → update (separated slash (keys cs)) ≡ ok (compiled ds)
  update-keys [] ds h done free = unfold update in refl
  update-keys (c ∷ cs) ds h r free = rw (
    update-separated c.key (keys cs) (lacking slash (c ∷ cs) (All-NoSlash (c ∷ cs) h))
        (lacking b' ' (c ∷ cs) (All-NoSpace (c ∷ cs) h)),
    read_components-Reads [] r,
    rebuild-compiled ds free,
  )

  -- If `update` accepts a text, it also accepts the key string of the path that it made, and makes
  -- a path with the same key string.
  pub update-key_str :
      (s : Bytes) (p : KeyPath)
      → update s ≡ ok p
      → (update p.key_str >>= λ q. ok q.key_str) ≡ ok p.key_str
  update-key_str s p h =
      let (cs, e, hk, hs) = update-eq-ok s p h in
      let (ds, r, same) = stable-Reads cs hk hs in
      let free : All NoSlash ds =
        free_of ds (subst (All (Lacks slash)) (sym same) (lacking slash cs (All-NoSlash cs hk))) in
      subst (λ (q : KeyPath). (update q.key_str >>= λ q'. ok q'.key_str) ≡ ok q.key_str) (sym e)
        (rw (update-keys cs ds hk r free) (ap (λ ks. ok (separated slash ks)) same))

  -- A well-formed path whose components are read back from their keys is itself read back by
  -- `update` from its key string.
  pub update-canonical :
      (p : KeyPath) → IsWellFormed p → All IsCanonical p.components → update p.key_str ≡ ok p
  update-canonical p w h =
      ap (λ (q : KeyPath). update q.key_str) w.is_compiled
      ∙ (update-keys p.components p.components w.has_keys
            (canonical-Reads p.components w.has_keys h) (All-NoSlash p.components w.has_keys)
          ∙ ap ok (sym w.is_compiled))

  Reads-append :
      (ts us : List Bytes) (cs ds : List Component)
      → Reads ts cs
      → Reads us ds
      → Reads (ts ++ us) (cs ++ ds)
  Reads-append ts us cs ds done s = s
  Reads-append ts us cs ds (more h r) s = more h (Reads-append _ us _ ds r s)

  ne_nil_update :
      (ts : List Bytes)
      → ts ≢ []
      → All (Lacks slash) ts
      → All (Lacks b' ') ts
      → update (separated slash ts) ≡ (read_components [] ts >>= rebuild)
  ne_nil_update [] ne h1 h2 = absurd (ne refl)
  ne_nil_update (t ∷ ts) ne h1 h2 = update-separated t ts h1 h2

  -- A token behind the key string of canonical components is read as one more component.
  pub update-token :
      (cs : List Component) (t : Bytes) (c : Component)
      → All HasKey cs
      → All IsCanonical cs
      → t ≢ []
      → Lacks slash t
      → Lacks b' ' t
      → Component.of_string t ≡ ok c
      → update (separated slash (keys cs ++ t ∷ [])) ≡ ok (compiled (cs ++ c ∷ []))
  update-token cs t c hk hc ne no_slash no_space h =
      let ts = keys cs ++ t ∷ [] in
      rw (
        ne_nil_update ts (concat-ne-nil t (keys cs))
            (All-append (Lacks slash) (keys cs) _ (lacking slash cs (All-NoSlash cs hk))
              (no_slash, tt))
            (All-append (Lacks b' ') (keys cs) _ (lacking b' ' cs (All-NoSpace cs hk))
              (no_space, tt)),
        read_components-Reads [] (
            Reads-append _ _ cs (c ∷ []) (canonical-Reads cs hk hc)
              (Reads-more t c [] [] ne h done)),
        rebuild-compiled (cs ++ c ∷ []) (
            All-append NoSlash cs _ (All-NoSlash cs hk)
              (of_string-Lacks slash t c refl refl refl refl h no_slash, tt)),
      )
