-- ===== src/Clock/Update.antt =====
-- What one `HLC.update` does, on every branch.
use peerbit.Base.Outcome.{returns}
use peerbit.Base.{ℕ, ◌+◌, ◌≤◌, ◌<◌, ◌≡◌, ◌↔◌, ◌⊎◌, arith, subst, sym}
use peerbit.Clock.{
  Timestamp, Hlc, bigger, validate_offset, max_wall_time, next_time, commit, update, now,
  uint32_max,
}
use peerbit.Clock.Order.{Before}

-- The time that is picked is later than the bigger timestamp, and not before the wall time.
pub next_time_lem :
    (t : Timestamp) (wall : ℕ)
    → Before t (next_time t wall)
      × (wall ≤ (next_time t wall).wall_time)
      × ((next_time t wall).logical ≤ uint32_max)
unfolding next_time
next_time_lem t wall = (ground arith, ground arith, ground arith)

commit-returns :
    (h h' : Hlc) (s t : Timestamp)
    → commit h s ≡ returns (h', t)
    → (t ≡ s) × (h' ≡ record h { last = s }) × (s.wall_time ≤ max_wall_time h)
unfolding commit
commit-returns h h' s t e = ground arith

-- A successful update, taken apart.
pub update-returns :
    (h h' : Hlc) (other t : Timestamp) (wall : ℕ)
    → update h other wall ≡ returns (h', t)
    → (validate_offset h (bigger other h.last).wall_time wall ≡ returns tt)
      × (t ≡ next_time (bigger other h.last) wall)
      × (h' ≡ record h { last = t })
      × (t.wall_time ≤ max_wall_time h)
unfolding update
update-returns h h' other t wall e =
    ground (arith, commit-returns h h' (next_time (bigger other h.last) wall) t)

-- A timestamp after the bigger of two is after both.
pub Before-bigger : (a b t : Timestamp) → Before (bigger a b) t → Before a t × Before b t
unfolding bigger
Before-bigger a b t h = (ground arith, ground arith)

-- The wall time drifts from the last timestamp by no more than the bounds that are on.
abbrev pub WithinDrift : Hlc → Timestamp → ℕ → Type 0
WithinDrift h last wall =
    ((h.tolerated_forward_clock_jump ≡ 0)
      ⊎ (wall ≤ last.wall_time + h.tolerated_forward_clock_jump))
    × ((h.max_offset ≡ 0) ⊎ (last.wall_time ≤ wall + h.max_offset))

pub validate_offset-returns_iff :
    (h : Hlc) (last : Timestamp) (wall : ℕ)
    → (validate_offset h last.wall_time wall ≡ returns tt) ↔ WithinDrift h last wall
unfolding validate_offset
validate_offset-returns_iff h last wall = (λ e. (ground arith, ground arith), λ e. ground arith)

commit_total :
    (h : Hlc) (t : Timestamp)
    → t.wall_time ≤ max_wall_time h
    → commit h t ≡ returns (record h { last = t }, t)
unfolding commit
commit_total h t b = ground arith

-- `HLC.update` returns a timestamp strictly later than the one it is given and than the last one
-- of the clock, which is what the clock then holds as its last. The new timestamp is not before the
-- wall time, it fits the u32 counter, and its wall time is at most the clock's upper bound.
pub update-Before :
    (h h' : Hlc) (other t : Timestamp) (wall : ℕ)
    → update h other wall ≡ returns (h', t)
    → Before other t
      × Before h.last t
      × (h' ≡ record h { last = t })
      × (wall ≤ t.wall_time)
      × (t.logical ≤ uint32_max)
      × (t.wall_time ≤ max_wall_time h)
update-Before h h' other t wall e =
    let (_, picked, next, bound) = update-returns h h' other t wall e in
    let (later, not_before, fits) = next_time_lem (bigger other h.last) wall in
    let (after_other, after_last) =
      Before-bigger other h.last t
        (subst (λ s. Before (bigger other h.last) s) (sym picked) later) in
    (after_other, after_last, next, rw picked not_before, rw picked fits, bound)

-- With a largest offset in force, a successful `HLC.update` is never more than that offset and one
-- nanosecond ahead of the wall time.
pub update_drift :
    (h h' : Hlc) (other t : Timestamp) (wall : ℕ)
    → 0 < h.max_offset
    → update h other wall ≡ returns (h', t)
    → t.wall_time ≤ wall + h.max_offset + 1
unfolding next_time
update_drift h h' other t wall on e =
    let (valid, picked, _, _) = update-returns h h' other t wall e in
    let (_, near) = (validate_offset-returns_iff h (bigger other h.last) wall).0 valid in
    ground arith

-- `HLC.update` succeeds exactly when the wall time drifts from the bigger of the given and the last
-- timestamp by no more than the bounds that are on, and the time it picks is within the clock's
-- upper bound.
pub update-returns_iff :
    (h : Hlc) (other : Timestamp) (wall : ℕ)
    → ((r : Hlc × Timestamp) × (update h other wall ≡ returns r)) ↔ (
        WithinDrift h (bigger other h.last) wall
        × ((next_time (bigger other h.last) wall).wall_time ≤ max_wall_time h))
unfolding update
update-returns_iff h other wall = (
  λ r.
      let (valid, picked, _, bound) = update-returns h (r.0).0 other (r.0).1 wall r.1 in
      ((validate_offset-returns_iff h (bigger other h.last) wall).0 valid, rw (← picked) bound),
  λ c. (
    (
      record h { last = next_time (bigger other h.last) wall },
      next_time (bigger other h.last) wall,
    ),
    ground (
      arith,
      (validate_offset-returns_iff h (bigger other h.last) wall).1 c.0,
      commit_total h (next_time (bigger other h.last) wall) c.1,
    ),
  ),
)

pub now-Before :
    (h h' : Hlc) (t : Timestamp) (wall : ℕ) → now h wall ≡ returns (h', t) → Before h.last t
unfolding now
now-Before h h' t wall p = let (_, later, _, _, _, _) = update-Before h h' h.last t wall p in later
