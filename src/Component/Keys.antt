-- ===== src/Component/Keys.antt =====
-- What the constructor of component.cpp guarantees of a component's key.
use janosh.Common.{
  ℕ, [], ◌∷◌, false, ◌≡◌, ◌≢◌, refl, ap, subst, inl, inr, Bytes, Lacks, All, ◌==◌, Bool-cases,
  arith,
}
use janosh.Result.{Result, ok, ◌>>=◌, >>=-eq-ok, ok_injective}
use janosh.Component.Cast.{LexicalCast, of_text}
use janosh.Component.Bits.{
  key_decode_index, key_decode_index-key_encode_index, IsBit, all_bits-IsBit,
}
use janosh.Component.{
  Component, empty, of_string, index_mark, encoded_mark, directory_mark, key_directory_mark,
}

-- The key of a component that may have failed.
abbrev pub key_of : Result Component → Result Bytes
key_of r = r >>= λ c. ok c.key

bits_lack :
    (m : ℕ) (s : Bytes) → (m == b'0') ≡ false → (m == b'1') ≡ false → All IsBit s → Lacks m s
bits_lack m [] h0 h1 h = tt
bits_lack m (c ∷ s) h0 h1 (hc, hs) = (ground arith, bits_lack m s h0 h1 hs)

key_decode_index-IsBit : (s : Bytes) (n : ℕ) → key_decode_index s ≡ ok n → All IsBit s
unfolding key_decode_index
key_decode_index-IsBit s n h = all_bits-IsBit s (ground arith)

module _ ⦃cast : LexicalCast⦄ where
  -- A text that begins with none of the four marks is its own key and pretty form.
  pub of_string_plain :
      (b : ℕ) (rest : Bytes)
      → (b == index_mark) ≡ false
      → (b == encoded_mark) ≡ false
      → (b == directory_mark) ≡ false
      → (b == key_directory_mark) ≡ false
      → of_string (b ∷ rest) ≡ ok (record { key = b ∷ rest; pretty = b ∷ rest })
  unfolding of_string
  of_string_plain b rest h1 h2 h3 h4 = simp (h1, h2, h3, h4)

  -- The forms that a key can have, beside the text that it was read from.
  pub data KeyForm : Bytes → Bytes → Type 0 where
    nothing : KeyForm [] []
    encoded :
        (b : ℕ) (rest enc : Bytes) (n : ℕ)
        → key_decode_index enc ≡ ok n
        → KeyForm (b ∷ rest) (encoded_mark ∷ enc)
    directory : (b : ℕ) (rest : Bytes) → KeyForm (b ∷ rest) (key_directory_mark ∷ [])
    plain :
        (b : ℕ) (rest : Bytes)
        → (b == index_mark) ≡ false
        → (b == encoded_mark) ≡ false
        → (b == directory_mark) ≡ false
        → (b == key_directory_mark) ≡ false
        → KeyForm (b ∷ rest) (b ∷ rest)

  key_path : (a c : Component) → ◌≡◌ {A = Result Component} (ok a) (ok c) → a.key ≡ c.key
  key_path a c h = ap (λ (x : Component). x.key) (ok_injective h)

  pub of_string-KeyForm : (s : Bytes) (c : Component) → of_string s ≡ ok c → KeyForm s c.key
  unfolding of_string
  of_string-KeyForm [] c h = subst (KeyForm []) (key_path empty c h) nothing
  of_string-KeyForm (b ∷ rest) c h = elim (Bool-cases (b == index_mark)) [
    | inl e ↦
        let (i, hi, hc) = >>=-eq-ok (of_text rest) _ (rw e at h) in
        subst (KeyForm (b ∷ rest)) (key_path _ c hc)
          (encoded b rest _ i (key_decode_index-key_encode_index i (cast.read_range rest i hi)))
    | inr e1 ↦ elim (Bool-cases (b == encoded_mark)) [
      | inl e ↦
          let (n, hn, hc) = >>=-eq-ok (key_decode_index rest) _ (simp (e1, e) at h) in
          subst (KeyForm (b ∷ rest)) (key_path _ c hc) (encoded b rest rest n hn)
      | inr e2 ↦ elim (Bool-cases (b == directory_mark)) [
        | inl e ↦
            subst (KeyForm (b ∷ rest)) (key_path _ c (simp (e1, e2, e) at h)) (directory b rest)
        | inr e3 ↦ elim (Bool-cases (b == key_directory_mark)) [
          | inl e ↦
              subst (KeyForm (b ∷ rest)) (key_path _ c (simp (e1, e2, e3, e) at h))
                (directory b rest)
          | inr e4 ↦
              subst (KeyForm (b ∷ rest)) (key_path _ c (simp (e1, e2, e3, e4) at h))
                (plain b rest e1 e2 e3 e4)
        ]
      ]
    ]
  ]

  KeyForm-key : (s k : Bytes) → KeyForm s k → key_of (of_string k) ≡ ok k
  unfolding of_string
  KeyForm-key s k nothing = refl
  KeyForm-key s k (encoded b rest enc n h) = rw h
  KeyForm-key s k (directory b rest) = refl
  KeyForm-key s k (plain b rest h1 h2 h3 h4) = simp (h1, h2, h3, h4)

  -- The key of any component that was read from a text is itself read, as a component with the same
  -- key.
  pub of_string-key :
      (s : Bytes) (c : Component) → of_string s ≡ ok c → key_of (of_string c.key) ≡ ok c.key
  of_string-key s c h = KeyForm-key s c.key (of_string-KeyForm s c h)

  KeyForm-Lacks :
      (m : ℕ) (s k : Bytes)
      → (m == encoded_mark) ≡ false
      → (m == key_directory_mark) ≡ false
      → (m == b'0') ≡ false
      → (m == b'1') ≡ false
      → KeyForm s k
      → Lacks m s
      → Lacks m k
  KeyForm-Lacks m s k h1 h2 h3 h4 nothing l = tt
  KeyForm-Lacks m s k h1 h2 h3 h4 (encoded b rest enc n h) l =
      (ground arith, bits_lack m enc h3 h4 (key_decode_index-IsBit enc n h))
  KeyForm-Lacks m s k h1 h2 h3 h4 (directory b rest) l = (ground arith, tt)
  KeyForm-Lacks m s k h1 h2 h3 h4 (plain b rest e1 e2 e3 e4) l = l

  -- A mark that is in no encoded key is in the key only if it was in the text.
  pub of_string-Lacks :
      (m : ℕ) (s : Bytes) (c : Component)
      → (m == encoded_mark) ≡ false
      → (m == key_directory_mark) ≡ false
      → (m == b'0') ≡ false
      → (m == b'1') ≡ false
      → of_string s ≡ ok c
      → Lacks m s
      → Lacks m c.key
  of_string-Lacks m s c h1 h2 h3 h4 h =
      KeyForm-Lacks m s c.key h1 h2 h3 h4 (of_string-KeyForm s c h)

  KeyForm-ne-nil : (s k : Bytes) → KeyForm s k → s ≢ [] → k ≢ []
  KeyForm-ne-nil s k nothing h = h
  KeyForm-ne-nil s k (encoded b rest enc n e) h = λ p. cc
  KeyForm-ne-nil s k (directory b rest) h = λ p. cc
  KeyForm-ne-nil s k (plain b rest e1 e2 e3 e4) h = h

  pub of_string-ne-nil : (s : Bytes) (c : Component) → of_string s ≡ ok c → s ≢ [] → c.key ≢ []
  of_string-ne-nil s c h = KeyForm-ne-nil s c.key (of_string-KeyForm s c h)
