-- ===== src/Cache/Accuracy.antt =====
-- When the size that the cache counts is the live size, and what that gives.
use peerbit.Base.Int.{pos, ◌+ℤ◌, ◌-ℤ◌}
use peerbit.Base.Keys.{Distinct, get-present, has-keys, get-absent}
use peerbit.Base.Table.{keys, get, has, contains, contains-include, Table}
use peerbit.Base.{
  ℕ, ◌+◌, ◌≤◌, ◌≡◌, refl, sym, subst, ◌∙◌, true, false, Option, some, List, [], ◌∷◌, ◌⊎◌, ◌↔◌,
  arith, inl, inr, Bool-cases, Option-cases, if◌then◌else◌,
}
use peerbit.Cache.{CacheData, Cache, drop_head, trim, del, insert}
use peerbit.Cache.Shape.{HasShape, drop_head-HasShape, del-HasShape}
use peerbit.Cache.Size.{
  live_size, IsAccurate, share, live_size-delete, live_size-include, live_size-put,
  live_size-put_absent,
}
use peerbit.Cache.Trim.{
  Drops, empty, stop, drop, trim_from-Drops, IsSettled, Drops-max, Drops-IsSettled, Drops-HasShape,
}

module _ {K V : Type 0} (dec : Discrete K) where
  pub drop_head-IsAccurate :
      (k : K) (v : CacheData V) (rest : List K) (c : Cache K V)
      → get dec k c.entries ≡ some v
      → HasShape dec c
      → IsAccurate dec c
      → IsAccurate dec (drop_head dec k v rest c)
  unfolding drop_head ◌-ℤ◌
  drop_head-IsAccurate k v rest c found h a =
      let d = subst (Distinct dec) (sym h.listed) h.distinct in
      ground (arith, live_size-delete dec k v c.deleted c.entries d found)

  pub Drops-IsAccurate :
      {time : ℕ} {c c' : Cache K V}
      → Drops dec time c c'
      → HasShape dec c
      → IsAccurate dec c
      → IsAccurate dec c'
  Drops-IsAccurate (empty c _) h a = a
  Drops-IsAccurate (stop c k rest v _ _ _) h a = a
  Drops-IsAccurate (drop c k rest v e found _ more) h a =
      Drops-IsAccurate more (drop_head-HasShape dec k v rest c e h)
        (drop_head-IsAccurate k v rest c found h a)

  -- Marking an entry as deleted keeps the count right.
  pub del-IsAccurate :
      (k : K) (c : Cache K V) → HasShape dec c → IsAccurate dec c → IsAccurate dec (del dec k c).0
  unfolding del ◌-ℤ◌
  del-IsAccurate k c h a =
      let d = subst (Distinct dec) (sym h.listed) h.distinct in
      elim (Option-cases (get dec k c.entries)) [
        | inl absent ↦ rw (absent, del) a
        | inr (v, found) ↦
            ground (arith, found, live_size-include dec k v c.deleted c.entries d found)
      ]

  share_absent : (k : K) (c : Cache K V) → has dec k c.entries ≡ false → share dec c k ≡ 0
  share_absent k c h =
      ground (arith, get-absent dec k c.entries (sym (has-keys dec k c.entries) ∙ h))

  -- The write of `add` changes the live size by the size of the new entry less the share of the
  -- old one, and the count only if the key is new.
  insert_sizes :
      (time : ℕ) (k : K) (v : Option V) (size : ℕ) (c : Cache K V)
      → HasShape dec c
      → (let c' = insert dec time k v size c in
          (live_size dec c'.deleted c'.entries + share dec c k
            ≡ live_size dec c.deleted c.entries + size)
          × (c'.current_size
              ≡ (if has dec k c.entries then c.current_size else c.current_size +ℤ pos size)))
  unfolding insert
  insert_sizes time k v size c h =
      let d = subst (Distinct dec) (sym h.listed) h.distinct in
      let entry : CacheData V = record { value = v; time = time; size = size } in
      elim (Bool-cases (has dec k c.entries)) [
        | inl old ↦
            let (w, found) = get-present dec k c.entries (sym (has-keys dec k c.entries) ∙ old) in
            ground (arith, old, found, live_size-put dec k w entry c.deleted c.entries d found)
        | inr new ↦
            let absent = sym (has-keys dec k c.entries) ∙ new in
            ground (
              arith,
              new,
              get-absent dec k c.entries absent,
              live_size-put_absent dec k entry c.deleted c.entries absent,
            )
      ]

  -- Of a cache in shape whose counted size is its live size, the write of `add` keeps the two equal
  -- exactly if the key is new, or the entry that it replaces is not marked as deleted and has the
  -- size of the new one, or is marked and the new one has size 0.
  pub insert-IsAccurate_iff :
      (time : ℕ) (k : K) (v : Option V) (size : ℕ) (c : Cache K V)
      → HasShape dec c
      → IsAccurate dec c
      → IsAccurate dec (insert dec time k v size c)
        ↔ ((has dec k c.entries ≡ false) ⊎ (share dec c k ≡ size))
  unfolding ◌+ℤ◌
  insert-IsAccurate_iff time k v size c h a =
      let (live, counted) = insert_sizes time k v size c h in
      elim (Bool-cases (has dec k c.entries)) [
        | inl old ↦ (λ p. inr (ground arith), λ q. ground arith)
        | inr new ↦ (λ p. inl new, λ q. ground (arith, share_absent k c new))
      ]

  del-marks :
      (k : K) (c : Cache K V)
      → contains dec k c.deleted ≡ false
      → has dec k c.entries ≡ true
      → (contains dec k ((del dec k c).0).deleted ≡ true) × (((del dec k c).0).entries ≡ c.entries)
  unfolding del
  del-marks k c live present =
      let (w, found) = get-present dec k c.entries (sym (has-keys dec k c.entries) ∙ present) in
      ground (arith, live, found, contains-include dec k k c.deleted)

  -- Marking an entry that counts as deleted and adding the key again loses its new size from the
  -- count: the count is then the live size less the new size.
  pub insert-del_undercounts :
      (time : ℕ) (k : K) (v : Option V) (size : ℕ) (c : Cache K V)
      → HasShape dec c
      → IsAccurate dec c
      → contains dec k c.deleted ≡ false
      → has dec k c.entries ≡ true
      → (let c' = insert dec time k v size (del dec k c).0 in
          c'.current_size +ℤ pos size ≡ pos (live_size dec c'.deleted c'.entries))
  unfolding ◌+ℤ◌
  insert-del_undercounts time k v size c h a live present =
      let c' = (del dec k c).0 in
      let (marked, kept) = del-marks k c live present in
      let (sizes, counted) = insert_sizes time k v size c' (del-HasShape dec k c h) in
      ground (arith, marked, kept, sizes, counted, del-IsAccurate k c h a)

  live_size-nil : (c : Cache K V) → keys c.entries ≡ [] → live_size dec c.deleted c.entries ≡ 0
  live_size-nil c e = go c.entries e
    where
      go : (m : Table K (CacheData V)) → keys m ≡ [] → live_size dec c.deleted m ≡ 0
      go [] e = refl
      go (x ∷ m) e = cc

  settled-bound :
      (time : ℕ) {limit : ℕ} (c : Cache K V)
      → HasShape dec c
      → IsAccurate dec c
      → IsSettled dec time c
      → c.max ≡ limit
      → live_size dec c.deleted c.entries ≤ limit
  settled-bound time c h a (inl nothing) e = omega (arith, live_size-nil c (h.listed ∙ nothing))
  settled-bound time c h a (inr (k, rest, v, _, _, _, within)) e = ground arith

  -- From a cache in shape whose counted size is its live size, `trim` gives one whose live size is
  -- counted and is at most the bound.
  pub trim-live_size-le :
      (time : ℕ) (c : Cache K V)
      → HasShape dec c
      → IsAccurate dec c
      → (c' : Cache K V) × (trim dec time c ≡ some c')
        × HasShape dec c'
        × IsAccurate dec c'
        × (live_size dec c'.deleted c'.entries ≤ c.max)
  unfolding trim
  trim-live_size-le time c h a =
      let (c', done, drops) = trim_from-Drops dec time c.list c refl h in
      let shape = Drops-HasShape dec time drops h in
      let accurate = Drops-IsAccurate drops h a in
      (
        c',
        done,
        shape,
        accurate,
        settled-bound time c' shape accurate (Drops-IsSettled dec time drops)
            (Drops-max dec time drops),
      )
