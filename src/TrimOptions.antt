-- ===== src/TrimOptions.antt =====
-- packages/log/src/trim.ts: the options of a trim, and how two of them compare.
use peerbit.Base.{
  ℕ, Bool, true, false, not, ◌&&◌, ◌||◌, Option, none, some, ◌==◌, ltb, if◌then◌else◌,
}
use peerbit.Clock.{Timestamp}

-- `ShallowEntry`, as far as it is read here
pub record Node (K : Type 0) : Type 0 where
  pub hash : K
  pub gid : K
  pub timestamp : Timestamp
  pub size : ℕ

-- `filter`: the function with the identity that `===` compares, and what `cacheId` answers
pub record Filter (K : Type 0) : Type 0 where
  pub identity : ℕ
  pub can_trim : Node K → Bool
  pub cache_id : Option ℕ

-- `TrimCondition`: to, and from or not; or the age in milliseconds
pub data TrimCondition : Type 0 where
  to_length to_bytelength : ℕ → Option ℕ → TrimCondition
  to_age : ℕ → TrimCondition

pub record TrimOptions (K : Type 0) : Type 0 where
  pub condition : TrimCondition
  pub filter : Option (Filter K)

unfoldable pub from_or_to : Option ℕ → ℕ → ℕ
from_or_to none to = to
from_or_to (some from) to = from

-- `from.from || from.to`, where zero does not count
unfoldable pub limit_from : Option ℕ → ℕ → ℕ
limit_from none to = to
limit_from (some from) to = if from == 0 then to else from

unfoldable pub same_number : Option ℕ → Option ℕ → Bool
same_number none none = true
same_number none (some b) = false
same_number (some a) none = false
same_number (some a) (some b) = a == b

unfoldable pub same_filter : {K : Type 0} → Option (Filter K) → Option (Filter K) → Bool
same_filter none none = true
same_filter none (some g) = false
same_filter (some f) none = false
same_filter (some f) (some g) = f.identity == g.identity

unfoldable pub same_condition : TrimCondition → TrimCondition → Bool
same_condition a b = elim a [
  | to_length to from ↦ elim b [
    | to_length to' from' ↦ same_number from from' && to == to'
    | to_bytelength to' from' ↦ false
    | to_age age' ↦ false
  ]
  | to_bytelength to from ↦ elim b [
    | to_length to' from' ↦ false
    | to_bytelength to' from' ↦ same_number from from' && to == to'
    | to_age age' ↦ false
  ]
  | to_age age ↦ elim b [
    | to_length to' from' ↦ false
    | to_bytelength to' from' ↦ false
    | to_age age' ↦ age == age'
  ]
]

-- `trimOptionsEqual`
unfoldable pub trim_options_equal : {K : Type 0} → TrimOptions K → TrimOptions K → Bool
trim_options_equal a b = same_condition a.condition b.condition && same_filter a.filter b.filter

unfoldable pub stricter_limits : ℕ → Option ℕ → ℕ → Option ℕ → Bool
stricter_limits to from to' from' = ltb to' to || ltb (limit_from from' to') (limit_from from to)

-- `trimOptionsStricter` without the filters. The error at its end is not reached, since two options of
-- one type are handled before it.
unfoldable pub stricter_condition : TrimCondition → TrimCondition → Bool
stricter_condition a b = elim a [
  | to_length to from ↦ elim b [
    | to_length to' from' ↦ stricter_limits to from to' from'
    | to_bytelength to' from' ↦ true
    | to_age age' ↦ true
  ]
  | to_bytelength to from ↦ elim b [
    | to_length to' from' ↦ true
    | to_bytelength to' from' ↦ stricter_limits to from to' from'
    | to_age age' ↦ true
  ]
  | to_age age ↦ elim b [
    | to_length to' from' ↦ true
    | to_bytelength to' from' ↦ true
    | to_age age' ↦ ltb age' age
  ]
]

-- `trimOptionsStricter`
unfoldable pub trim_options_stricter : {K : Type 0} → TrimOptions K → TrimOptions K → Bool
trim_options_stricter a b =
    not (same_filter a.filter b.filter) || stricter_condition a.condition b.condition
