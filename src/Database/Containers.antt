-- ===== src/Database/Containers.antt =====
-- The size that a container's record carries: how it is read, tested and changed.
use janosh.Common.{
  ℕ, ◌+◌, ◌%◌, ◌^◌, ◌<◌, ◌≤◌, ◌∷◌, true, false, ◌≡◌, inl, inr, refl, sym, ap, subst, ◌∙◌, none,
  some, Bytes, arith, Bool-cases,
}
use janosh.Result.{ok, record_exception}
use janosh.Component.{LexicalCast, to_text}
use janosh.Path
use janosh.Path.{KeyPath}
use janosh.Value
use janosh.Value.{Value, ValueType, array, object}
use janosh.Value.Stored.{of_stored, of_stored-descriptor, descriptor, is_container, container}
use janosh.Tracker.{write}
use janosh.Remote.{RemoteDb, IsMap, World, update, announce}
use janosh.Record
use janosh.Record.{Record}
use janosh.Record.Methods.{fetched, set_value}
use janosh.Record.Fetch.{opened, found, IsSingle, IsReadable}
use janosh.Record.Outcome.{View, Ends, Throws, Found, fetched-Found, fetched-missing, parent-Ends}
use janosh.Database.{letter, in_bounds, bounds_check, set_container_size, change_container_size}

module _ ⦃cast : LexicalCast⦄ where
  -- Under the directory `d` the records have a container of type `t` with `n` members.
  pub record HasContainer (d : KeyPath) (t : ValueType) (n : ℕ) (f : View) : Type 0 where
    pub single : IsSingle d
    pub is_directory : d.directory ≡ true
    pub contains : is_container t ≡ true
    pub in_range : n < 2 ^ 64
    pub stored : f d.key_str ≡ some (descriptor t n)

  pub reads_container :
      (d : KeyPath) (t : ValueType) (n : ℕ) (f : View)
      → HasContainer d t n f
      → of_stored d.directory d.wildcard Value.uninitialized (descriptor t n) ≡ ok (container t n)
  reads_container d t n f h =
      subst (λ b. of_stored b d.wildcard Value.uninitialized (descriptor t n) ≡ ok (container t n))
        (sym h.is_directory)
        (of_stored-descriptor t n d.wildcard Value.uninitialized h.contains h.in_range).0

  letter_of :
      (t : ValueType)
      → is_container t ≡ true
      → (c : ℕ) × (letter t ≡ ok c) × ((n : ℕ) → c ∷ to_text n ≡ descriptor t n)
  unfolding letter
  letter_of array h = (b'A', refl, λ n. refl)
  letter_of object h = (b'O', refl, λ n. refl)
  letter_of _ h = cc

  -- The place of a path in its container: the container is the root or an object, or an array in
  -- which the index is at most the size.
  pub data HasRoom (p d : KeyPath) : ValueType → ℕ → Type 0 where
    at_root : {t : ValueType} {n : ℕ} → Path.is_root d ≡ true → HasRoom p d t n
    in_object : {n : ℕ} → HasRoom p d object n
    in_array : {n : ℕ} (i : ℕ) → Path.parse_index p ≡ ok i → i ≤ n → HasRoom p d array n

  -- Whether the records have a text for a path: none, or one that stands for a value.
  pub data Known (p : KeyPath) (f : View) : Type 0 where
    absent : Path.is_root p ≡ false → IsReadable f → f p.key_str ≡ none → Known p f
    present :
        (v : Bytes) (x : Value)
        → f p.key_str ≡ some v
        → of_stored p.directory p.wildcard Value.uninitialized v ≡ ok x
        → Known p f

  -- The record of a path after `fetch`.
  abbrev pub after_fetch : {p : KeyPath} {f : View} → ℕ → Known p f → Record
  after_fetch {p = p} c (absent _ _ _) = opened c p
  after_fetch {p = p} c (present v x _ _) = found c p x

module _ ⦃cast : LexicalCast⦄ ⦃remote : RemoteDb⦄ (laws : IsMap remote) where
  pub fetched_container :
      (c : ℕ) (d : KeyPath) (t : ValueType) (n : ℕ) (w : World) (f : View)
      → laws.view w.db ≡ f
      → HasContainer d t n f
      → Found laws c d (container t n) w f
  fetched_container c d t n w f hv h =
      fetched-Found laws c d w f (descriptor t n) (container t n) hv h.single h.stored
        (reads_container d t n f h)

  get_type-container :
      (c : ℕ) (d : KeyPath) (t : ValueType) (n : ℕ)
      → d.directory ≡ true
      → Record.get_type (found c d (container t n)) ≡ ok t
  unfolding Record.get_type
  get_type-container c d t n h = simp h

  pub get_size-container :
      (c : ℕ) (d : KeyPath) (t : ValueType) (n : ℕ)
      → is_container t ≡ true
      → Record.get_size (found c d (container t n)) ≡ ok n
  unfolding Record.get_size Value.get_size
  get_size-container c d array n h = refl
  get_size-container c d object n h = refl
  get_size-container c d _ n h = cc

  -- `setContainerSize` of a container whose cursor stands at it writes the new size.
  pub set_container_size-Ends :
      (c : ℕ) (d : KeyPath) (t : ValueType) (n m : ℕ) (w : World) (f : View)
      → laws.view w.db ≡ f
      → laws.at w.db c ≡ some d.key_str
      → d.directory ≡ true
      → is_container t ≡ true
      → Ends laws
          (set_container_size (found c d (container t n)) m)
          w
          tt
          (update f d.key_str (descriptor t m))
  unfolding set_container_size set_value announce
  set_container_size-Ends c d t n m w f hv at dir con =
      let (l, is_l, text) = letter_of t con in
      let (_, wrote) = laws.set_value-at w.db c d.key_str (descriptor t m) at in
      record {
        after =
            (announce d.pretty_str (l ∷ to_text m) write
              (record w { db = (remote.set_value c (l ∷ to_text m) w.db).1 })).1;
        run = rw (get_type-container c d t n dir) (rw is_l refl);
        view_after =
            ap (λ s. laws.view (remote.set_value c s w.db).1) (text m)
            ∙ (wrote ∙ ap (λ g. update g d.key_str (descriptor t m)) hv);
      }

  -- `changeContainerSize` of a freshly opened record of a container adds the number to the stored
  -- size modulo 2 ^ 64, keeps the container's type, and changes no other record.
  pub change_container_size-Ends :
      (c : ℕ) (d : KeyPath) (t : ValueType) (n by : ℕ) (w : World) (f : View)
      → laws.view w.db ≡ f
      → HasContainer d t n f
      → Ends laws
          (change_container_size (opened c d) by)
          w
          tt
          (update f d.key_str (descriptor t ((n + by) % 2 ^ 64)))
  unfolding change_container_size
  change_container_size-Ends c d t n by w f hv h =
      let got = fetched_container c d t n w f hv h in
      let done =
        set_container_size-Ends c d t n ((n + by) % 2 ^ 64) got.ends.after f got.ends.view_after
          got.stands h.is_directory h.contains in
      record {
        after = done.after;
        run = rw got.ends.run (rw (get_size-container c d t n h.contains) done.run);
        view_after = done.view_after;
      }

  -- Without its container, `changeContainerSize` throws and changes no record.
  pub change_container_size-Throws :
      (c : ℕ) (d : KeyPath) (by : ℕ) (w : World) (f : View)
      → laws.view w.db ≡ f
      → IsSingle d
      → Path.is_root d ≡ false
      → IsReadable f
      → f d.key_str ≡ none
      → Throws laws
          (change_container_size (opened c d) by)
          w
          (record_exception "uninitialized record")
          f
  unfolding change_container_size Record.get_size
  change_container_size-Throws c d by w f hv h other readable gone =
      let missing = fetched-missing laws c d w f hv h other readable gone in
      record { after = missing.after; run = rw missing.run refl; view_after = missing.view_after }

  in_bounds_room :
      (r : Record) (c : ℕ) (p d : KeyPath) (t : ValueType) (n : ℕ) (w : World)
      → r.path ≡ p
      → d.directory ≡ true
      → HasRoom p d t n
      → in_bounds r (found c d (container t n)) w ≡ (ok true, w)
  unfolding Record.is_array Record.get_size Value.get_size
  in_bounds_room r c p d t n w e dir (at_root root) = simp root
  in_bounds_room r c p d t n w e dir (in_object {n = m}) = elim (Bool-cases (Path.is_root d)) [
    | inl root ↦ simp root
    | inr other ↦ simp (other, dir)
  ]
  in_bounds_room r c p d t n w e dir (in_array {n = m} i index small) =
      elim (Bool-cases (Path.is_root d)) [
        | inl root ↦ simp root
        | inr other ↦ simp (other, dir, e, index) (ground arith)
      ]

  pub fetched-Known :
      (c : ℕ) (p : KeyPath) (w : World) (f : View)
      → laws.view w.db ≡ f
      → IsSingle p
      → (k : Known p f) → Ends laws (fetched (opened c p)) w (after_fetch c k) f
  fetched-Known c p w f hv h (absent other readable gone) =
      fetched-missing laws c p w f hv h other readable gone
  fetched-Known c p w f hv h (present v x here reads) =
      (fetched-Found laws c p w f v x hv h here reads).ends

  path-after_fetch : (p : KeyPath) (f : View) (c : ℕ) (k : Known p f) → (after_fetch c k).path ≡ p
  path-after_fetch p f c (absent _ _ _) = refl
  path-after_fetch p f c (present _ _ _ _) = refl

  -- `boundsCheck` of a record `r` that is fetched as `r'`.
  pub bounds_check-fetched :
      (r r' : Record) (p d : KeyPath) (t : ValueType) (n : ℕ) (w : World) (f : View)
      → laws.view w.db ≡ f
      → r.path ≡ p
      → r'.path ≡ p
      → ((w : World) → laws.view w.db ≡ f → Ends laws (fetched r) w r' f)
      → Path.parent p ≡ ok d
      → HasContainer d t n f
      → HasRoom p d t n
      → Ends laws (bounds_check r) w true f
  unfolding bounds_check
  bounds_check-fetched r r' p d t n w f hv is_p is_p' fetch up con room =
      let (e, made) = parent-Ends laws r d w f hv (ap Path.parent is_p ∙ up) con.single.plain in
      let got = fetch made.after made.view_after in
      let dir = fetched_container e d t n got.after f got.view_after con in
      let inside = in_bounds_room r' e p d t n dir.ends.after is_p' con.is_directory room in
      record {
        after = dir.ends.after;
        run = rw made.run (rw got.run (rw dir.ends.run inside));
        view_after = dir.ends.view_after;
      }

  -- `boundsCheck` of a freshly opened record returns true and changes no record, where the record's
  -- text is missing under readable keys or is read as a value, and its parent is a container that
  -- is the root, an object, or an array whose size is at least the path's index.
  pub bounds_check-Ends :
      (c : ℕ) (p d : KeyPath) (t : ValueType) (n : ℕ) (w : World) (f : View)
      → laws.view w.db ≡ f
      → IsSingle p
      → Known p f
      → Path.parent p ≡ ok d
      → HasContainer d t n f
      → HasRoom p d t n
      → Ends laws (bounds_check (opened c p)) w true f
  bounds_check-Ends c p d t n w f hv h k up con room =
      bounds_check-fetched (opened c p) (after_fetch c k) p d t n w f hv refl
        (path-after_fetch p f c k) (λ w hv. fetched-Known c p w f hv h k) up con room
