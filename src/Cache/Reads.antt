-- ===== src/Cache/Reads.antt =====
-- What can be read back after an `add`.
use peerbit.Base.Keys.{contains-snoc}
use peerbit.Base.Table.{Table, keys, get, has, contains, contains-discard, get-put, get-delete}
use peerbit.Base.{
  ℕ, ◌≤◌, ◌≡◌, refl, ap, ◌∙◌, true, false, Option, some, List, [], ◌∷◌, ◌++◌, arith, inl,
}
use peerbit.Cache.{CacheData, Cache, drop_head, trim, insert, add, read, out_of_date, get_value}
use peerbit.Cache.Shape.{HasShape, drop_head-HasShape, insert-HasShape}
use peerbit.Cache.Size.{live_size, IsAccurate}
use peerbit.Cache.Accuracy.{drop_head-IsAccurate, Drops-IsAccurate, insert-IsAccurate_iff}
use peerbit.Cache.Trim.{
  Drops, empty, stop, drop, trim_from-Drops, must_drop, Drops-HasShape, Drops-ttl,
}

module _ {K V : Type 0} (dec : Discrete K) where
  -- The last key of the list, with the data `v`, is not marked as deleted, and its size is within
  -- the bound.
  abbrev IsNewest : ℕ → K → CacheData V → Cache K V → Type 0
  IsNewest time k v c =
      ((l : List K) × (c.list ≡ l ++ k ∷ []))
      × (get dec k c.entries ≡ some v)
      × (contains dec k c.deleted ≡ false)
      × (v.size ≤ c.max)
      × (out_of_date c.ttl time v ≡ false)

  live_size-single :
      (k : K) (v : CacheData V) (marks : List K) (m : Table K (CacheData V))
      → keys m ≡ k ∷ []
      → get dec k m ≡ some v
      → contains dec k marks ≡ false
      → live_size dec marks m ≡ v.size
  unfolding get
  live_size-single k v marks [] e g f = cc
  live_size-single k v marks (x ∷ []) e g f = let here : x.0 ≡ k = cc in ground arith
  live_size-single k v marks (x ∷ y ∷ m) e g f = cc

  -- The only key of an accurate cache is not dropped.
  keeps_single :
      (time : ℕ) (k : K) (v : CacheData V) (c : Cache K V)
      → c.list ≡ k ∷ []
      → HasShape dec c
      → IsAccurate dec c
      → IsNewest time k v c
      → must_drop time v c ≡ false
  keeps_single time k v c e h a (_, found, live, within, age) =
      ground (arith, live_size-single k v c.deleted c.entries (h.listed ∙ e) found live)

  drop_head-IsNewest :
      (time : ℕ) (k : K) (v : CacheData V) (j : K) (w : CacheData V) (rest : List K) (c : Cache K V)
      → c.list ≡ j ∷ rest
      → get dec j c.entries ≡ some w
      → must_drop time w c ≡ true
      → HasShape dec c
      → IsAccurate dec c
      → IsNewest time k v c
      → IsNewest time k v (drop_head dec j w rest c)
  unfolding drop_head contains
  drop_head-IsNewest time k v j w rest c e found must h a (([], last), is_at, live, fits, age) =
      let here : j ≡ k = cc in
      let same : w ≡ v = cc (ap (λ x. get dec x c.entries) here) in
      let stays = keeps_single time k v c last h a (([], last), is_at, live, fits, age) in
      cc (ap (λ x. must_drop time x c) same)
  drop_head-IsNewest time k v j w rest c e found must h a ((i ∷ l, last), is_at, live, fits, age) =
      let back : rest ≡ l ++ k ∷ [] = cc in
      let other : contains dec j rest ≡ false = ground (arith, h.distinct) in
      (
        (l, back),
        ground (arith, get-delete dec j k c.entries, contains-snoc dec k j l),
        ground (arith, contains-discard dec j k c.deleted),
        fits,
        age,
      )

  -- A fresh key at the end of an accurate cache survives the loop.
  Drops-IsNewest :
      (time : ℕ) (k : K) (v : CacheData V) {c c' : Cache K V}
      → Drops dec time c c'
      → HasShape dec c
      → IsAccurate dec c
      → IsNewest time k v c
      → IsNewest time k v c'
  Drops-IsNewest time k v (empty c _) h a n = n
  Drops-IsNewest time k v (stop c _ _ _ _ _ _) h a n = n
  Drops-IsNewest time k v (drop c j rest w e found must more) h a n =
      Drops-IsNewest time k v more (drop_head-HasShape dec j w rest c e h)
        (drop_head-IsAccurate dec j w rest c found h a)
        (drop_head-IsNewest time k v j w rest c e found must h a n)

  insert-IsNewest :
      (now : ℕ) (k : K) (v : Option V) (size : ℕ) (c : Cache K V)
      → has dec k c.entries ≡ false
      → size ≤ c.max
      → IsNewest now k (record { value = v; time = now; size = size }) (insert dec now k v size c)
  unfolding insert out_of_date
  insert-IsNewest now k v size c new fits =
      rw (new, insert)
        (
          (c.list, refl),
          ground (arith, get-put dec k k (record { value = v; time = now; size = size }) c.entries),
          ground (arith, contains-discard dec k k c.deleted),
          fits,
          ground arith,
        )

  read-IsNewest :
      (time : ℕ) (k : K) (v : CacheData V) (c : Cache K V)
      → IsNewest time k v c
      → read dec k c ≡ some v.value
  unfolding read
  read-IsNewest time k v c (_, found, live, _, _) = ground arith

  get_value-IsNewest :
      (time : ℕ) (k : K) (v : CacheData V) (c : Cache K V)
      → HasShape dec c
      → IsAccurate dec c
      → IsNewest time k v c
      → (c' : Cache K V) × (get_value dec time k c ≡ some (c', some v.value))
  unfolding get_value trim
  get_value-IsNewest time k v c h a n =
      let (c', trimmed, drops) = trim_from-Drops dec time c.list c refl h in
      (
        c',
        rw (trimmed, get_value, trim)
            (ap (λ r. some (c', r))
              (read-IsNewest time k v c' (Drops-IsNewest time k v drops h a n))),
      )

  ttl-insert :
      (now : ℕ) (k : K) (v : Option V) (size : ℕ) (c : Cache K V)
      → (insert dec now k v size c).ttl ≡ c.ttl
  unfolding insert
  ttl-insert now k v size c = ground arith

  -- On a cache in shape whose counted size is its live size, a new key of a size within the bound
  -- survives the `trim` of its own `add`, and a `get` that comes before the entry is out of date
  -- returns its value; neither call throws.
  pub get_value-add :
      (now later : ℕ) (k : K) (v : Option V) (size : ℕ) (c : Cache K V)
      → HasShape dec c
      → IsAccurate dec c
      → has dec k c.entries ≡ false
      → size ≤ c.max
      → out_of_date c.ttl later (record { value = v; time = now; size = size }) ≡ false
      → (c' : Cache K V) × (add dec now k v size c ≡ some c')
        × ((c'' : Cache K V) × (get_value dec later k c' ≡ some (c'', some v)))
  unfolding add trim
  get_value-add now later k v size c h a new fits fresh =
      let entry : CacheData V = record { value = v; time = now; size = size } in
      let c1 = insert dec now k v size c in
      let h1 = insert-HasShape dec now k v size c h in
      let a1 = (insert-IsAccurate_iff dec now k v size c h a).1 (inl new) in
      let (c2, added, drops) = trim_from-Drops dec now c1.list c1 refl h1 in
      let (end, found, live, within, _) =
        Drops-IsNewest now k entry drops h1 a1 (insert-IsNewest now k v size c new fits) in
      let same_ttl = Drops-ttl dec now drops ∙ ttl-insert now k v size c in
      (
        c2,
        added,
        get_value-IsNewest later k entry c2 (Drops-HasShape dec now drops h1)
            (Drops-IsAccurate dec drops h1 a1) (end, found, live, within, rw same_ttl fresh),
      )
