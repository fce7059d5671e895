-- ===== src/Sorting.antt =====
-- packages/log/src/log-sorting.ts: the orders in which a log sorts its entries, and the queries for
-- the entries before and after one. The index that runs a query is not modelled, what a query asks
-- of an entry is.
mod Order
mod Tests
use Prim.Native.Nat.{Ordering}
use peerbit.Base.{ℕ, Bool, true, false, List, [], ◌∷◌, ltb, if◌then◌else◌}
use peerbit.Clock.{Timestamp}
use peerbit.Roots.{text_before}

-- `SortableEntry`
pub record Entry : Type 0 where
  pub timestamp : Timestamp
  pub gid : List ℕ
  pub hash : List ℕ

-- The keys of the entry that are sorted by
pub data Field : Type 0 where
  wall_time_key logical_key hash_key : Field

pub data Value : Type 0 where
  number : ℕ → Value
  text : List ℕ → Value

pub data SortDirection : Type 0 where
  asc desc : SortDirection

pub data Comparison : Type 0 where
  less greater : Comparison

-- `IntegerCompare`
pub record Query : Type 0 where
  pub key : Field
  pub value : ℕ
  pub compare : Comparison

-- `SortFn`, whose `before` and `after` ask one thing each
pub record SortFn : Type 0 where
  pub sort : List (Field × SortDirection)
  pub before : Entry → Query
  pub after : Entry → Query

-- `sort.key.reduce`
unfoldable pub field : Field → Entry → Value
field wall_time_key e = number e.timestamp.wall_time
field logical_key e = number e.timestamp.logical
field hash_key e = text e.hash

-- `<` of two values of one key
unfoldable pub value_before : Value → Value → Bool
value_before (number a) (number b) = ltb a b
value_before (text a) (text b) = text_before a b
value_before (number a) (text b) = false
value_before (text a) (number b) = false

-- The result of a comparison in a direction
unfoldable pub directed : SortDirection → Ordering → Ordering
directed asc o = o
directed desc Ordering.lt = Ordering.gt
directed desc Ordering.eq = Ordering.eq
directed desc Ordering.gt = Ordering.lt

-- The loop of `compare`
unfoldable pub compare_by : List (Field × SortDirection) → Entry → Entry → Ordering
compare_by [] a b = Ordering.eq
compare_by ((key, direction) ∷ l) a b =
    let rest = compare_by l a b in
    if value_before (field key a) (field key b)
    then directed direction Ordering.lt
    else if value_before (field key b) (field key a)
    then directed direction Ordering.gt
    else rest

-- `compare`
unfoldable pub compare_entries : Entry → Entry → SortFn → Ordering
compare_entries a b sort_fn = compare_by sort_fn.sort a b

abbrev wall_time_query : Comparison → Entry → Query
wall_time_query c e = record { key = wall_time_key; value = e.timestamp.wall_time; compare = c }

-- `LastWriteWins`
unfoldable pub last_write_wins : SortFn
last_write_wins = record {
  sort = (wall_time_key, asc) ∷ (logical_key, asc) ∷ [];
  before = λ e. wall_time_query less e;
  after = λ e. wall_time_query greater e;
}

-- `FirstWriteWins`
unfoldable pub first_write_wins : SortFn
first_write_wins = record {
  sort = (wall_time_key, desc) ∷ (logical_key, desc) ∷ [];
  before = λ e. wall_time_query greater e;
  after = λ e. wall_time_query less e;
}

-- `SortByEntryHash`, whose queries compare the hash with the wall time
unfoldable pub sort_by_entry_hash : SortFn
sort_by_entry_hash = record {
  sort = (hash_key, asc) ∷ [];
  before = λ e. record { key = hash_key; value = e.timestamp.wall_time; compare = less };
  after = λ e. record { key = hash_key; value = e.timestamp.wall_time; compare = greater };
}

-- Whether an entry answers a query
unfoldable pub answers : Query → Entry → Bool
unfolding value_before
answers q e = elim q.compare [
  | less ↦ value_before (field q.key e) (number q.value)
  | greater ↦ value_before (number q.value) (field q.key e)
]
