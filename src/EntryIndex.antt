-- ===== src/EntryIndex.antt =====
-- packages/log/src/entry-index.ts: the index of a log's entries, with the entries that no other entry
-- refers to marked as heads, and index writes that may be deferred.
-- The index behind it (packages/utils/indexer) is a table by hash, the blocks are the hashes of those
-- that are stored, and the cache of entries enters by what its client needs. A call ends before the
-- next one begins, so no put of the same hash is under way (`insertionPromises`). Hashes are not empty.
pub mod Heads
pub mod Settled
pub mod Put
pub mod Delete
pub mod Deferred
pub mod Kept
mod Tests
use peerbit.Base.Table.{Table, keys, get, has, put, delete, contains, include, discard}
use peerbit.Base.{
  ℕ, zero, suc, ◌+◌, ◌-◌, ◌≡◌, ◌≢◌, ◌⊎◌, Bool, true, false, not, ◌&&◌, ◌||◌, Option, none, some,
  List, [], ◌∷◌, ◌++◌, ◌==◌, if◌then◌else◌, ite, length,
}

-- The part of `Entry` that the index reads; `cut` is `EntryType.CUT`.
pub record Entry (K : Type 0) : Type 0 where
  pub hash : K
  pub gid : K
  pub next : List K
  pub cut : Bool
  pub size : ℕ

-- `ShallowEntry`
pub record Shallow (K : Type 0) : Type 0 where
  pub entry : Entry K
  pub head : Bool

-- What the index needs of its cache of entries, which may drop any but the last one: what it reads has been
-- added and not deleted. `some false` is an entry that was looked for and is missing.
pub record EntryCache (K : Type 0) : Type 1 where
  pub Store : Type 0
  pub empty : Store
  pub read : K → Store → Option Bool
  pub add : K → Bool → Store → Store
  pub del : K → Store → Store
  pub read_add :
      (k j : K) (v b : Bool) (c : Store)
      → read j (add k v c) ≡ some b
      → ((k ≡ j) × (v ≡ b)) ⊎ (read j c ≡ some b)
  pub read_added : (k : K) (v : Bool) (c : Store) → read k (add k v c) ≡ some v
  pub read_del :
      (k j : K) (b : Bool) (c : Store) → read j (del k c) ≡ some b → (k ≢ j) × (read j c ≡ some b)
  pub read_empty : (k : K) → read k empty ≡ none

module _ {K : Type 0} (dec : Discrete K) where
  unfoldable pub discard_all : List K → List K → List K
  discard_all [] blocks = blocks
  discard_all (k ∷ l) blocks = discard_all l (discard dec k blocks)

  -- The entries that refer to a hash, an excluded one aside.
  unfoldable pub count_next : K → Option K → Table K (Shallow K) → ℕ
  count_next k exclude [] = 0
  count_next k exclude ((j, e) ∷ m) =
      let rest = count_next k exclude m in
      let excluded : Bool = elim exclude [
        | none ↦ false
        | some x ↦ ite (dec e.entry.hash x) true false
      ] in
      if contains dec k e.entry.next && not excluded then suc rest else rest

  -- The gids of the next entries with another gid that no other entry refers to
  unfoldable pub shadowed_by : Entry K → Table K (Shallow K) → Table K (Shallow K) → List K
  shadowed_by entry all [] = []
  shadowed_by entry all ((k, e) ∷ m) =
      let rest = shadowed_by entry all m in
      if contains dec e.entry.hash entry.next
        && ite (dec e.entry.gid entry.gid) false true
        && count_next e.entry.hash (some entry.hash) all == 0
      then include dec e.entry.gid rest
      else rest

module _ {K : Type 0} (dec : Discrete K) (cached : EntryCache K) where
  open cached use {Store, empty, read, add, del}

  -- `cache.get(k)` gives an entry.
  unfoldable pub holds : K → Store → Bool
  holds k c = elim (read k c) [ none ↦ false | some b ↦ b ]

  -- The state of `EntryIndex`
  pub record EntryIndex : Type 0 where
    pub index : Table K (Shallow K)
    pub pending : Table K (Shallow K)
    pub timer : Bool
    pub length : ℕ
    pub cache : Store
    pub blocks : List K

  -- One hash of `flushPendingWrites`
  unfoldable pub flush_one : K → EntryIndex → EntryIndex
  flush_one k s = elim (get dec k s.pending) [
    | none ↦ s
    | some e ↦ record s { index = put dec k e s.index; pending = delete dec k s.pending }
  ]

  unfoldable pub flush_each : List K → EntryIndex → EntryIndex
  flush_each [] s = s
  flush_each (k ∷ l) s = flush_each l (flush_one k s)

  -- `flushPendingWrites` of some hashes
  unfoldable pub flush_keys : List K → EntryIndex → EntryIndex
  flush_keys [] s = s
  flush_keys (k ∷ l) s =
      let s' = flush_each (k ∷ l) s in
      record s' { timer = elim s'.pending [ [] ↦ false | e ∷ m ↦ true ] }

  -- `flushPendingWrites` of all of them
  unfoldable pub flush_pending : EntryIndex → EntryIndex
  flush_pending s = flush_keys (keys s.pending) s

  -- `getShallow`
  unfoldable pub get_shallow : K → EntryIndex → Option (Shallow K)
  get_shallow k s = elim (get dec k s.pending) [ some e ↦ some e | none ↦ get dec k s.index ]

  -- `has`
  unfoldable pub has_entry : K → EntryIndex → Bool
  has_entry k s = holds k s.cache || has dec k s.pending || has dec k s.index

  -- `_countHasNext`
  unfoldable pub count_has_next : K → Option K → EntryIndex → EntryIndex × ℕ
  count_has_next k exclude s = let s' = flush_pending s in (s', count_next dec k exclude s'.index)

  -- An entry is written where it was read from.
  unfoldable pub write_back : Bool → K → Shallow K → EntryIndex → EntryIndex
  write_back true k e s = record s { pending = put dec k e s.pending }
  write_back false k e s = record s { index = put dec k e s.index }

  -- A next entry that is no head any more
  unfoldable pub mark_not_head : K → EntryIndex → EntryIndex
  mark_not_head k s = elim (get_shallow k s) [
    | none ↦ s
    | some e ↦ write_back (has dec k s.pending) k (record e { head = false }) s
  ]

  -- A next entry that is a head if no entry refers to it
  unfoldable pub mark_head : K → EntryIndex → EntryIndex
  mark_head k s = elim (get_shallow k s) [
    | none ↦ s
    | some e ↦
        let (s', count) = count_has_next k none s in
        if count == 0 then write_back (has dec k s.pending) k (record e { head = true }) s' else s'
  ]

  unfoldable pub mark_each : Bool → List K → EntryIndex → EntryIndex
  mark_each head [] s = s
  mark_each true (k ∷ l) s = mark_each true l (mark_head k s)
  mark_each false (k ∷ l) s = mark_each false l (mark_not_head k s)

  -- `privateUpdateNextHeadProperty`
  unfoldable pub update_next_heads : Entry K → Bool → EntryIndex → EntryIndex
  update_next_heads from head s = if from.cut then s else mark_each head from.next s

  -- The write of `put`, deferred or not
  unfoldable pub write_entry : Entry K → Bool → Bool → EntryIndex → EntryIndex
  write_entry entry is_head defer s =
      let e : Shallow K = record { entry = entry; head = is_head } in
      if defer && is_head && not entry.cut && elim entry.next [ [] ↦ true | k ∷ l ↦ false ]
      then record s { pending = put dec entry.hash e s.pending; timer = true }
      else (let s' = flush_keys entry.next s in record s' { index = put dec entry.hash e s'.index })

  -- The gids that are shadowed, where `onGidRemoved` is there to hear of them
  unfoldable pub shadowed_gids : Entry K → Bool → EntryIndex → EntryIndex × List K
  shadowed_gids entry watched s =
      if watched && elim entry.next [ [] ↦ false | k ∷ l ↦ true ]
      then (let s' = flush_pending s in (s', shadowed_by dec entry s'.index s'.index))
      else (s, [])

  -- The count and the cache
  unfoldable pub register : Entry K → Bool → EntryIndex → EntryIndex
  register entry unique s = record s {
    length = if unique || not (has_entry entry.hash s) then suc s.length else s.length;
    cache = add entry.hash true s.cache;
  }

  -- `put` of an entry with its hash, with the gids that it reports. With `toMultiHash` the source stores the
  -- block before this.
  unfoldable pub put_entry : Entry K → Bool → Bool → Bool → Bool → EntryIndex → EntryIndex × List K
  put_entry entry unique is_head defer watched s =
      let (s', gids) =
        shadowed_gids entry watched (write_entry entry is_head defer (register entry unique s)) in
      (update_next_heads entry false s', gids)

  -- The end of `delete`, of an entry that was there
  unfoldable pub after_delete : Shallow K → EntryIndex → EntryIndex
  after_delete from s = update_next_heads from.entry true (record s { length = s.length - 1 })

  -- `delete` of an entry that is known
  unfoldable pub delete_known : K → Shallow K → EntryIndex → EntryIndex × Option (Shallow K)
  delete_known k from s =
      let blocks = discard dec k s.blocks in
      if has dec k s.pending
      then (
        after_delete from (record s { pending = delete dec k s.pending; blocks = blocks }),
        some from,
      )
      else if has dec k s.index
      then (
        after_delete from (record s { index = delete dec k s.index; blocks = blocks }),
        some from,
      )
      else (record s { blocks = blocks }, none)

  -- `delete` with no entry at hand
  unfoldable pub delete_entry : K → EntryIndex → EntryIndex × Option (Shallow K)
  delete_entry k s =
      let s' : EntryIndex = record s { cache = del k s.cache } in
      elim (get_shallow k s') [ none ↦ (s', none) | some from ↦ delete_known k from s' ]

  unfoldable pub sum_sizes : Table K (Shallow K) → ℕ
  sum_sizes [] = 0
  sum_sizes ((k, e) ∷ m) = e.entry.size + sum_sizes m

  -- `getMemoryUsage`
  unfoldable pub memory_usage : EntryIndex → ℕ
  memory_usage s = sum_sizes s.index + sum_sizes s.pending

  -- `resolve`, of an entry that the block store answers with or not; `none` is the error of an entry
  -- that is missing.
  unfoldable pub resolve : K → Bool → Bool → EntryIndex → Option (EntryIndex × Bool)
  resolve k stored ignore_missing s = elim (read k s.cache) [
    | some found ↦ some (s, found)
    | none ↦
        if not stored && not ignore_missing
        then none
        else some (record s { cache = add k stored s.cache }, stored)
  ]

  -- `clear`
  unfoldable pub clear : EntryIndex → EntryIndex
  clear s = record {
    index = [];
    pending = [];
    timer = false;
    length = 0;
    cache = empty;
    blocks = discard_all dec (keys s.pending ++ keys s.index) s.blocks;
  }
