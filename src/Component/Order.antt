-- ===== src/Component/Order.antt =====
-- Index components: what they are read from and written as, and how `operator<` sorts them.
use janosh.Common.{
  ℕ, ◌^◌, ◌<◌, ◌∷◌, true, false, ◌≡◌, refl, ap₂, ◌∙◌, sym, subst, Bytes, codes, bytes_lt, ltb,
  arith,
}
use janosh.Result.{ok, ok_injective}
use janosh.Component.Cast.{LexicalCast, to_text}
use janosh.Component.Bits.{
  key_encode_index, key_decode_index-key_encode_index, bytes_lt-key_encode_index,
}
use janosh.Component.{
  Component, of_string, less, is_index, is_directory, index_mark, encoded_mark, key_directory_mark,
}

module _ ⦃cast : LexicalCast⦄ where
  -- The component of the array index `n`.
  abbrev pub index : ℕ → Component
  index n = record { key = encoded_mark ∷ key_encode_index n; pretty = index_mark ∷ to_text n }

  pub of_string-index_text :
      (n : ℕ) → n < 2 ^ 64 → of_string (index_mark ∷ to_text n) ≡ ok (index n)
  unfolding of_string
  of_string-index_text n h = rw (cast.read-show n h)

  pub of_string-index_key :
      (n : ℕ) → n < 2 ^ 64 → of_string (encoded_mark ∷ key_encode_index n) ≡ ok (index n)
  unfolding of_string
  of_string-index_key n h = rw (key_decode_index-key_encode_index n h)

  -- The component that is read from the text of an index below 2 ^ 64 is read back both from its
  -- pretty form and from its key, and is an index and no directory.
  pub index_round_trip :
      (n : ℕ)
      → n < 2 ^ 64
      → (c : Component) → of_string (index_mark ∷ to_text n) ≡ ok c
      → (of_string c.pretty ≡ ok c)
        × (of_string c.key ≡ ok c)
        × (is_index c ≡ ok true)
        × (is_directory c ≡ false)
  unfolding is_index is_directory
  index_round_trip n h c e =
      subst
        (λ d.
          (of_string d.pretty ≡ ok d)
          × (of_string d.key ≡ ok d)
          × (is_index d ≡ ok true)
          × (is_directory d ≡ false))
        (ok_injective (sym (of_string-index_text n h) ∙ e))
        (of_string-index_text n h, of_string-index_key n h, refl, refl)

  -- Index components that are read from any two indices below 2 ^ 64 are ordered by `operator<` as
  -- the indices are.
  pub less-index :
      (n m : ℕ)
      → n < 2 ^ 64
      → m < 2 ^ 64
      → (a b : Component) → of_string (index_mark ∷ to_text n) ≡ ok a
      → of_string (index_mark ∷ to_text m) ≡ ok b
      → less a b ≡ ltb n m
  unfolding less bytes_lt
  less-index n m hn hm a b ha hb =
      ap₂ less (ok_injective (sym ha ∙ of_string-index_text n hn))
        (ok_injective (sym hb ∙ of_string-index_text m hm))
      ∙ bytes_lt-key_encode_index n m hn hm

  -- The directory component sorts before every component whose key begins with a byte greater than
  -- its mark.
  pub less-directory :
      (d c : Component) (b : ℕ) (rest : Bytes)
      → of_string (codes ".") ≡ ok d
      → c.key ≡ b ∷ rest
      → key_directory_mark < b
      → less d c ≡ true
  unfolding less bytes_lt of_string
  less-directory d c b rest h k lt = rw (← ok_injective h, k) (ground arith)
