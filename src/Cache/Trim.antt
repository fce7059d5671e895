-- ===== src/Cache/Trim.antt =====
-- What `trim` does: on a cache in shape it never throws, and it drops the oldest keys, as long as
-- they are out of date or the cache is too large.
use peerbit.Base.Int.{pos, ltb_ℤ, ◌≤ℤ◌}
use peerbit.Base.Keys.{get-present}
use peerbit.Base.Table.{get, contains, contains-discard, get-delete}
use peerbit.Base.{
  ℕ, ◌≡◌, refl, ap, sym, ◌∙◌, ◌||◌, Bool, true, false, some, List, [], ◌∷◌, ◌++◌, ◌⊎◌, arith, inl,
  inr, Bool-cases, if_pos,
}
use peerbit.Cache.{CacheData, Cache, out_of_date, drop_head, trim_from, trim}
use peerbit.Cache.Shape.{HasShape, drop_head-HasShape}

-- The test of the loop at a head with the data `v`.
abbrev pub must_drop : {K V : Type 0} → ℕ → CacheData V → Cache K V → Bool
must_drop time v c = out_of_date c.ttl time v || ltb_ℤ (pos c.max) c.current_size

module _ {K V : Type 0} (dec : Discrete K) (time : ℕ) where
  -- The caches that the loop goes through from one that it is given.
  pub data Drops : Cache K V → Cache K V → Type 0 where
    empty : (c : Cache K V) → c.list ≡ [] → Drops c c
    stop :
        (c : Cache K V) (k : K) (rest : List K) (v : CacheData V)
        → c.list ≡ k ∷ rest
        → get dec k c.entries ≡ some v
        → must_drop time v c ≡ false
        → Drops c c
    drop :
        (c : Cache K V) (k : K) (rest : List K) (v : CacheData V) {c' : Cache K V}
        → c.list ≡ k ∷ rest
        → get dec k c.entries ≡ some v
        → must_drop time v c ≡ true
        → Drops (drop_head dec k v rest c) c'
        → Drops c c'

  head_entry :
      (c : Cache K V) (k : K) (rest : List K)
      → c.list ≡ k ∷ rest
      → HasShape dec c
      → (v : CacheData V) × (get dec k c.entries ≡ some v)
  unfolding contains
  head_entry c k rest e h =
      get-present dec k c.entries (rw (h.listed ∙ e) (if_pos (dec k k) refl _ _))

  list-drop_head :
      (k : K) (v : CacheData V) (rest : List K) (c : Cache K V)
      → (drop_head dec k v rest c).list ≡ rest
  unfolding drop_head
  list-drop_head k v rest c = refl

  pub trim_from-Drops :
      (l : List K) (c : Cache K V)
      → c.list ≡ l
      → HasShape dec c
      → (c' : Cache K V) × (trim_from dec time l c ≡ some c') × Drops c c'
  unfolding trim_from
  trim_from-Drops [] c e h = (c, refl, empty c e)
  trim_from-Drops (k ∷ rest) c e h =
      let (v, found) = head_entry c k rest e h in
      elim (Bool-cases (must_drop time v c)) [
        | inl drops ↦
            let (c', done, more) =
              trim_from-Drops rest (drop_head dec k v rest c) (list-drop_head k v rest c)
                (drop_head-HasShape dec k v rest c e h) in
            (c', rw (found, drops, trim_from) done, drop c k rest v e found drops more)
        | inr keeps ↦ (c, rw (found, keeps, trim_from), stop c k rest v e found keeps)
      ]

  pub Drops-HasShape : {c c' : Cache K V} → Drops c c' → HasShape dec c → HasShape dec c'
  Drops-HasShape (empty c _) h = h
  Drops-HasShape (stop c k rest v _ _ _) h = h
  Drops-HasShape (drop c k rest v e _ _ more) h =
      Drops-HasShape more (drop_head-HasShape dec k v rest c e h)

  -- Nothing is left to drop: the list is empty, or its head is not out of date and the size is
  -- within the bound.
  abbrev pub IsSettled : Cache K V → Type 0
  IsSettled c =
      (c.list ≡ [])
      ⊎ ((k : K) × (rest : List K) × (v : CacheData V) × (c.list ≡ k ∷ rest)
          × (get dec k c.entries ≡ some v)
          × (out_of_date c.ttl time v ≡ false)
          × (c.current_size ≤ℤ pos c.max))

  pub Drops-IsSettled : {c c' : Cache K V} → Drops c c' → IsSettled c'
  Drops-IsSettled (empty c e) = inl e
  Drops-IsSettled (stop c k rest v e found keeps) =
      inr (k, rest, v, e, found, ground arith, ground arith)
  Drops-IsSettled (drop c k rest v _ _ _ more) = Drops-IsSettled more

  pub Drops-max : {c c' : Cache K V} → Drops c c' → c'.max ≡ c.max
  unfolding drop_head
  Drops-max (empty c _) = refl
  Drops-max (stop c k rest v _ _ _) = refl
  Drops-max (drop c k rest v _ _ _ more) = Drops-max more

  pub Drops-ttl : {c c' : Cache K V} → Drops c c' → c'.ttl ≡ c.ttl
  unfolding drop_head
  Drops-ttl (empty c _) = refl
  Drops-ttl (stop c k rest v _ _ _) = refl
  Drops-ttl (drop c k rest v _ _ _ more) = Drops-ttl more

  pub Drops-suffix : {c c' : Cache K V} → Drops c c' → (gone : List K) × (c.list ≡ gone ++ c'.list)
  Drops-suffix (empty c _) = ([], refl)
  Drops-suffix (stop c k rest v _ _ _) = ([], refl)
  Drops-suffix (drop c k rest v e _ _ more) =
      let (gone, split) = Drops-suffix more in
      (k ∷ gone, e ∙ ap (◌∷◌ k) (sym (list-drop_head k v rest c) ∙ split))

  -- What is still listed is as it was.
  abbrev pub Keeps : Cache K V → Cache K V → Type 0
  Keeps c c' =
      (q : K)
      → contains dec q c'.list ≡ true
      → (contains dec q c.list ≡ true)
        × (get dec q c'.entries ≡ get dec q c.entries)
        × (contains dec q c'.deleted ≡ contains dec q c.deleted)

  drop_head-Keeps :
      (k : K) (v : CacheData V) (rest : List K) (c : Cache K V)
      → c.list ≡ k ∷ rest
      → HasShape dec c
      → Keeps c (drop_head dec k v rest c)
  unfolding drop_head contains
  drop_head-Keeps k v rest c e h q p =
      ground (arith, h.distinct, get-delete dec k q c.entries, contains-discard dec k q c.deleted)

  pub Drops-Keeps : {c c' : Cache K V} → Drops c c' → HasShape dec c → Keeps c c'
  Drops-Keeps (empty c _) h q p = (p, refl, refl)
  Drops-Keeps (stop c k rest v _ _ _) h q p = (p, refl, refl)
  Drops-Keeps (drop c k rest v e _ _ more) h q p =
      let (here, same, mark) = Drops-Keeps more (drop_head-HasShape dec k v rest c e h) q p in
      let (here', same', mark') = drop_head-Keeps k v rest c e h q here in
      (here', same ∙ same', mark ∙ mark')

  -- On a cache in shape `trim` does not throw, and the result is in shape. What it drops is a prefix
  -- of the list: the oldest keys. It stops only at an empty list, or at a head that is not out of
  -- date with the size within the bound; every key that is still listed was listed before and has
  -- the data and the deletion mark that it had.
  pub trim_lem :
      (c : Cache K V)
      → HasShape dec c
      → (c' : Cache K V) × (trim dec time c ≡ some c')
        × HasShape dec c'
        × ((gone : List K) × (c.list ≡ gone ++ c'.list))
        × IsSettled c'
        × Keeps c c'
  unfolding trim
  trim_lem c h =
      let (c', done, drops) = trim_from-Drops c.list c refl h in
      (
        c',
        done,
        Drops-HasShape drops h,
        Drops-suffix drops,
        Drops-IsSettled drops,
        Drops-Keeps drops h,
      )
