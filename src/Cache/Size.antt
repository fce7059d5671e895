-- ===== src/Cache/Size.antt =====
-- The size that the cache counts, against the sizes of the entries that are not marked as deleted.
use peerbit.Base.Int.{pos}
use peerbit.Base.Keys.{Distinct, delete-absent}
use peerbit.Base.Table.{
  Table, keys, get, put, contains, delete, discard, include, contains-discard, contains-include,
}
use peerbit.Base.{
  ℕ, ◌+◌, ◌≡◌, refl, false, none, some, List, [], ◌∷◌, arith, if_pos, if_neg, if◌then◌else◌,
}
use peerbit.Cache.{CacheData, Cache}

module _ {K V : Type 0} (dec : Discrete K) where
  -- The sizes of the entries that are not marked, added up.
  abbrev pub live_size : List K → Table K (CacheData V) → ℕ
  live_size marks [] = 0
  live_size marks (e ∷ m) = (if contains dec e.0 marks then 0 else (e.1).size) + live_size marks m

  abbrev pub IsAccurate : Cache K V → Type 0
  IsAccurate c = c.current_size ≡ pos (live_size c.deleted c.entries)

  -- What the entry of a key, if there is one, adds to the live size.
  abbrev pub share : Cache K V → K → ℕ
  share c k =
      if contains dec k c.deleted
      then 0
      else elim (get dec k c.entries) [ none ↦ 0 | some v ↦ v.size ]

  pub live_size-discard :
      (k : K) (marks : List K) (m : Table K (CacheData V))
      → contains dec k (keys m) ≡ false
      → live_size (discard dec k marks) m ≡ live_size marks m
  unfolding contains
  live_size-discard k marks [] h = refl
  live_size-discard k marks (e ∷ m) h =
      ground (arith, contains-discard dec k e.0 marks, live_size-discard k marks m)

  pub live_size-include_absent :
      (k : K) (marks : List K) (m : Table K (CacheData V))
      → contains dec k (keys m) ≡ false
      → live_size (include dec k marks) m ≡ live_size marks m
  unfolding contains
  live_size-include_absent k marks [] h = refl
  live_size-include_absent k marks (e ∷ m) h =
      ground (arith, contains-include dec k e.0 marks, live_size-include_absent k marks m)

  pub live_size-delete :
      (k : K) (v : CacheData V) (marks : List K) (m : Table K (CacheData V))
      → Distinct dec (keys m)
      → get dec k m ≡ some v
      → live_size (discard dec k marks) (delete dec k m)
          + (if contains dec k marks then 0 else v.size)
        ≡ live_size marks m
  unfolding get delete
  live_size-delete k v marks [] d h = cc
  live_size-delete k v marks (e ∷ m) d h = elim (dec e.0 k) [
    | yes p ↦ rw (if_pos _ p) (ground (arith, delete-absent dec k m, live_size-discard k marks m))
    | no p ↦
        rw (if_neg _ p)
          (ground (arith, contains-discard dec k e.0 marks, live_size-delete k v marks m))
  ]

  pub live_size-include :
      (k : K) (v : CacheData V) (marks : List K) (m : Table K (CacheData V))
      → Distinct dec (keys m)
      → get dec k m ≡ some v
      → contains dec k marks ≡ false
      → live_size (include dec k marks) m + v.size ≡ live_size marks m
  unfolding get
  live_size-include k v marks [] d h a = cc
  live_size-include k v marks (e ∷ m) d h a = ground (
    arith,
    contains-include dec k e.0 marks,
    live_size-include_absent k marks m,
    live_size-include k v marks m,
  )

  pub live_size-put :
      (k : K) (v w : CacheData V) (marks : List K) (m : Table K (CacheData V))
      → Distinct dec (keys m)
      → get dec k m ≡ some v
      → live_size (discard dec k marks) (put dec k w m)
          + (if contains dec k marks then 0 else v.size)
        ≡ live_size marks m + w.size
  unfolding get put
  live_size-put k v w marks [] d h = cc
  live_size-put k v w marks (e ∷ m) d h = ground (
    arith,
    contains-discard dec k e.0 marks,
    live_size-discard k marks m,
    live_size-put k v w marks m,
  )

  pub live_size-put_absent :
      (k : K) (w : CacheData V) (marks : List K) (m : Table K (CacheData V))
      → contains dec k (keys m) ≡ false
      → live_size (discard dec k marks) (put dec k w m) ≡ live_size marks m + w.size
  unfolding contains put
  live_size-put_absent k w marks [] h = ground (arith, contains-discard dec k k marks)
  live_size-put_absent k w marks (e ∷ m) h =
      ground (arith, contains-discard dec k e.0 marks, live_size-put_absent k w marks m)
