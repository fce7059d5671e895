-- ===== src/Cache.antt =====
-- packages/utils/cache/src/index.ts: the first-in-first-out cache, over any keys that can be compared
-- and any values. `list` is the Yallist of keys, oldest first. A reading of the clock is an argument.
-- `none` is the error that `trim` throws at a listed key with no entry.
pub mod Shape
pub mod Trim
pub mod Size
pub mod Accuracy
pub mod Reads
mod Tests
use peerbit.Base.Int.{ℤ, pos, ◌+ℤ◌, ◌-ℤ◌, ltb_ℤ}
use peerbit.Base.Table.{Table, get, has, put, delete, contains, include, discard}
use peerbit.Base.{
  ℕ, ◌+◌, Bool, true, false, not, ◌&&◌, ◌||◌, Option, none, some, List, [], ◌∷◌, ◌++◌, ltb, leb,
  if◌then◌else◌,
}

-- `CacheData`; the value `none` is null.
pub record CacheData (V : Type 0) : Type 0 where
  pub value : Option V
  pub time : ℕ
  pub size : ℕ

pub record Cache (K V : Type 0) : Type 0 where
  pub entries : Table K (CacheData V)
  pub deleted : List K
  pub list : List K
  pub current_size : ℤ
  pub max : ℕ
  pub ttl : Option ℕ

-- `clear`
unfoldable pub clear : {K V : Type 0} → Cache K V → Cache K V
clear c = record c { entries = []; deleted = []; list = []; current_size = pos 0 }

-- The constructor; `none` is its error "Expecting max > 0".
unfoldable pub create : {K V : Type 0} → ℕ → Option ℕ → Option (Cache K V)
create limit ttl =
    if leb limit 0
    then none
    else some (record {
      entries = [];
      deleted = [];
      list = [];
      current_size = pos 0;
      max = limit;
      ttl = ttl;
    })

-- `outOfDate` of `trim`
unfoldable pub out_of_date : {V : Type 0} → Option ℕ → ℕ → CacheData V → Bool
out_of_date none time v = false
out_of_date (some ttl) time v = ltb (v.time + ttl) time

module _ {K V : Type 0} (dec : Discrete K) where
  -- The body of the loop of `trim` that drops the head of the list, which is `k` with the data `v`.
  unfoldable pub drop_head : K → CacheData V → List K → Cache K V → Cache K V
  drop_head k v rest c = record c {
    list = rest;
    entries = delete dec k c.entries;
    deleted = discard dec k c.deleted;
    current_size =
        if contains dec k c.deleted then c.current_size else c.current_size -ℤ pos v.size;
  }

  -- The loop of `trim`, where `l` is what is left of the list.
  unfoldable pub trim_from : ℕ → List K → Cache K V → Option (Cache K V)
  trim_from time [] c = some c
  trim_from time (k ∷ rest) c = elim (get dec k c.entries) [
    | none ↦ none
    | some v ↦
        if out_of_date c.ttl time v || ltb_ℤ (pos c.max) c.current_size
        then trim_from time rest (drop_head k v rest c)
        else some c
  ]

  -- `trim`
  unfoldable pub trim : ℕ → Cache K V → Option (Cache K V)
  trim time c = trim_from time c.list c

  -- `has`, at the time `now`
  unfoldable pub has_key : ℕ → K → Cache K V → Option (Cache K V × Bool)
  has_key now k c = elim (trim now c) [
    | none ↦ none
    | some c' ↦ some (c', if contains dec k c'.deleted then false else has dec k c'.entries)
  ]

  -- What `get` reads: `none` is undefined, `some none` is null.
  unfoldable pub read : K → Cache K V → Option (Option V)
  read k c =
      if contains dec k c.deleted
      then none
      else elim (get dec k c.entries) [ none ↦ none | some v ↦ some v.value ]

  -- `get`, at the time `now`
  unfoldable pub get_value : ℕ → K → Cache K V → Option (Cache K V × Option (Option V))
  get_value now k c = elim (trim now c) [ none ↦ none | some c' ↦ some (c', read k c') ]

  -- `del`
  unfoldable pub del : K → Cache K V → Cache K V × Option (CacheData V)
  del k c = elim (get dec k c.entries) [
    | none ↦ (c, none)
    | some v ↦ if contains dec k c.deleted then (c, none) else (
      record c { deleted = include dec k c.deleted; current_size = c.current_size -ℤ pos v.size },
      some v,
    )
  ]

  -- `add` before its last call
  unfoldable pub insert : ℕ → K → Option V → ℕ → Cache K V → Cache K V
  insert time k v size c =
      let entry : CacheData V = record { value = v; time = time; size = size } in
      let c' : Cache K V = record c {
        deleted = discard dec k c.deleted;
        entries = put dec k entry c.entries;
      } in
      if has dec k c.entries
      then c'
      else record c' { list = c.list ++ k ∷ []; current_size = c.current_size +ℤ pos size }

  -- `add`, at the time `now`
  unfoldable pub add : ℕ → K → Option V → ℕ → Cache K V → Option (Cache K V)
  add now k v size c = trim now (insert now k v size c)
