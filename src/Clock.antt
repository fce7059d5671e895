-- ===== src/Clock.antt =====
-- packages/log/src/clock.ts: timestamps, the hybrid logical clock (HLC) and the clock of an entry.
-- A reading of the wall clock is an argument of the operation that makes it. The clock's bounds are
-- natural numbers. An operation that throws leaves the clock as it was, so an error carries no state.
-- The results -1, 0 and 1 of a comparison are `lt`, `eq` and `gt`.
pub mod Order
pub mod Update
pub mod Run
pub mod Lamport
mod Tests
use Prim.Native.Nat.{Ordering}
use peerbit.Base.Outcome.{Outcome, returns, throws, ◌>>=◌, ◌>>◌}
use peerbit.Base.{
  ℕ, ◌+◌, ◌-◌, Bool, true, false, ◌&&◌, Option, none, some, List, ltb, if◌then◌else◌,
}

-- `Timestamp`: both fields are serialised, as a u64 and a u32.
pub record Timestamp : Type 0 where
  pub wall_time : ℕ
  pub logical : ℕ

abbrev pub uint64_max : ℕ
uint64_max = 18446744073709551615

abbrev pub uint32_max : ℕ
uint32_max = 4294967295

-- `Timestamp.compare`
unfoldable pub compare : Timestamp → Timestamp → Ordering
compare a b =
    if ltb b.wall_time a.wall_time
    then Ordering.gt
    else if ltb a.wall_time b.wall_time
    then Ordering.lt
    else if ltb b.logical a.logical
    then Ordering.gt
    else if ltb a.logical b.logical
    then Ordering.lt
    else Ordering.eq

-- `Timestamp.bigger`
unfoldable pub bigger : Timestamp → Timestamp → Timestamp
unfolding compare
bigger a b = elim (compare a b) [ Ordering.lt ↦ b | _ ↦ a ]

-- `Timestamp.smaller`
unfoldable pub smaller : Timestamp → Timestamp → Timestamp
unfolding compare
smaller a b = elim (compare a b) [ Ordering.gt ↦ b | _ ↦ a ]

pub data ClockError : Type 0 where
  -- the jump, and what is tolerated
  forward_jump : ℕ → ℕ → ClockError
  -- the offset, and the largest one allowed
  clock_offset : ℕ → ℕ → ClockError
  -- the time, and the largest one allowed
  wall_time_overflow : ℕ → ℕ → ClockError

-- A call of the clock.
abbrev pub Result : Type 0 → Type 0
Result A = Outcome ClockError A

-- `HLC`; a bound that is 0 is off.
pub record Hlc : Type 0 where
  pub max_offset : ℕ
  pub wall_time_upper_bound : ℕ
  pub tolerated_forward_clock_jump : ℕ
  pub last : Timestamp

-- The constructor, at the wall time `now`; an option that is left out is `none`.
unfoldable pub create : ℕ → Option ℕ → Option ℕ → Option ℕ → Option Timestamp → Hlc
create now offset upper jump last = record {
  max_offset = elim offset [ none ↦ 0 | some n ↦ n ];
  wall_time_upper_bound = elim upper [ none ↦ 0 | some n ↦ n ];
  tolerated_forward_clock_jump = elim jump [ none ↦ 0 | some n ↦ n ];
  last = elim last [
    | none ↦ record { wall_time = now; logical = 0 }
    | some t ↦ bigger t (record { wall_time = now; logical = 0 })
  ];
}

-- `validateOffset` at the offset `last - wall`, which may be negative: one of `last - wall` and
-- `wall - last` is then 0.
unfoldable pub validate_offset : Hlc → ℕ → ℕ → Result (Unit {0})
validate_offset h last wall =
    if ltb 0 h.tolerated_forward_clock_jump && ltb h.tolerated_forward_clock_jump (wall - last)
    then throws (forward_jump (wall - last) h.tolerated_forward_clock_jump)
    else if ltb 0 h.max_offset && ltb h.max_offset (last - wall)
    then throws (clock_offset (last - wall) h.max_offset)
    else returns tt

-- `wallTimeUpperBound > 0n ? wallTimeUpperBound : UINT64_MAX`
unfoldable pub max_wall_time : Hlc → ℕ
max_wall_time h = if ltb 0 h.wall_time_upper_bound then h.wall_time_upper_bound else uint64_max

-- The wall and logical time that `update` picks, from the bigger timestamp and the wall time.
unfoldable pub next_time : Timestamp → ℕ → Timestamp
next_time last wall =
    if ltb last.wall_time wall
    then record { wall_time = wall; logical = 0 }
    else if ltb uint32_max (last.logical + 1)
    then record { wall_time = last.wall_time + 1; logical = 0 }
    else record { wall_time = last.wall_time; logical = last.logical + 1 }

-- The end of `update`: the overflow check, and the write to `last`.
unfoldable pub commit : Hlc → Timestamp → Result (Hlc × Timestamp)
commit h t =
    if ltb (max_wall_time h) t.wall_time
    then throws (wall_time_overflow t.wall_time (max_wall_time h))
    else returns (record h { last = t }, t)

-- `update`, with the wall time read as `wall`
unfoldable pub update : Hlc → Timestamp → ℕ → Result (Hlc × Timestamp)
update h other wall = do
  let last = bigger other h.last
  validate_offset h last.wall_time wall
  commit h (next_time last wall)

-- `now`
unfoldable pub now : Hlc → ℕ → Result (Hlc × Timestamp)
now h wall = update h h.last wall

-- `LamportClock`: the key of its peer, and a time
pub record LamportClock : Type 0 where
  pub id : List ℕ
  pub timestamp : Timestamp

-- `advance`: a fresh HLC, created at the wall time `t0`, that updates at `t1` and is read at `t2`
unfoldable pub advance : LamportClock → ℕ → ℕ → ℕ → Result LamportClock
advance c t0 t1 t2 = do
  (h, _) ← update (create t0 none none none none) c.timestamp t1
  (_, t) ← now h t2
  returns (record { id = c.id; timestamp = t })

-- `LamportClock.compare`, over the byte comparison of the package uint8arrays
unfoldable pub compare_clocks :
    (List ℕ → List ℕ → Ordering) → LamportClock → LamportClock → Ordering
compare_clocks compare_bytes a b = elim (compare a.timestamp b.timestamp) [
  | Ordering.eq ↦ compare_bytes a.id b.id
  | Ordering.lt ↦ Ordering.lt
  | Ordering.gt ↦ Ordering.gt
]

-- `LamportClock.equals`, over the byte equality of the package uint8arrays
unfoldable pub equals : (List ℕ → List ℕ → Bool) → LamportClock → LamportClock → Bool
equals equal_bytes a b =
    equal_bytes a.id b.id
    && elim (compare a.timestamp b.timestamp) [ Ordering.eq ↦ true | _ ↦ false ]
