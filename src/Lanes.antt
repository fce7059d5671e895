-- ===== src/Lanes.antt =====
-- packages/transport/stream/src/pushable-lanes.ts: the queue of several lanes behind a stream, which
-- serves its lanes by strict priority or by weighted round-robin (WRR).
-- The lanes are queues of the package fast-fifo, which enter as a parameter. Weights, the bias and
-- sizes are natural numbers.
pub mod Views
pub mod Shift
pub mod Fairness
pub mod Starvation
pub mod Schedule
mod Tests
use mathlib.Core.Option.{get_or}
use peerbit.Base.Fifo.{Fifo}
use peerbit.Base.Int.{ℤ, pos, negsuc}
use peerbit.Base.{
  ℕ, zero, suc, ◌+◌, ◌-◌, ◌%◌, ◌^◌, max, Bool, true, false, ◌&&◌, Option, none, some, List, [], ◌∷◌,
  ◌++◌, ltb, leb, ◌==◌, if◌then◌else◌, length, get_elem?, replicate,
}

-- `Next`, of values that are known by their number of bytes
pub data Next (E : Type 0) : Type 0 where
  value : ℕ → ℕ → Next E
  done : Next E
  error : E → Next E

-- The bytes that a value adds to the size of a lane.
abbrev pub bytes : {E : Type 0} → Next E → ℕ
bytes (value name size) = size
bytes done = 0
bytes (error e) = 0

-- `FairnessMode`
pub data Mode : Type 0 where
  priority wrr : Mode

-- The 32 bits of an integer (`lane | 0`), read without the sign
unfoldable pub low_bits : ℤ → ℕ
low_bits (pos n) = n % 2 ^ 32
low_bits (negsuc n) = 2 ^ 32 - 1 - n % 2 ^ 32

-- `clampLane`, at an integer. From 2^31 on, the 32 bits stand for a negative number.
unfoldable pub clamp_lane : ℤ → ℕ → ℕ
clamp_lane lane lanes =
    let bits = low_bits lane in
    if leb (2 ^ 31) bits then 0 else if leb lanes bits then lanes - 1 else bits

abbrev pub sum : List ℕ → ℕ
sum [] = 0
sum (n ∷ l) = n + sum l

-- The weights made from the bias, from lane `i` on, of which there are `left` more: lane `i` of `L`
-- weighs bias^(L-1-i), and at least 1.
unfoldable pub auto_weights : ℕ → ℕ → List ℕ
auto_weights bias zero = []
auto_weights bias (suc left) = max 1 (bias ^ left) ∷ auto_weights bias left

-- `normalizeWeights`; `none` is its error.
unfoldable pub normalize_weights : List ℕ → ℕ → Option (List ℕ)
normalize_weights weights lanes =
    if length weights == lanes
    then some (if sum weights == 0 then replicate lanes 1 else weights)
    else none

-- The schedule: each lane from `i` on, as often as it weighs.
unfoldable pub schedule_from : ℕ → List ℕ → List ℕ
schedule_from i [] = []
schedule_from i (w ∷ ws) = replicate w i ++ schedule_from (suc i) ws

-- The lanes `i`, `i + 1`, …, of which there are `left`.
unfoldable pub lanes_from : ℕ → ℕ → List ℕ
lanes_from i zero = []
lanes_from i (suc left) = i ∷ lanes_from (suc i) left

module _ {E : Type 0} (fifo : Fifo (Next E)) where
  open fifo use {Queue, empty, push, shift}

  -- `ByteFifo`
  pub record ByteFifo : Type 0 where
    pub queue : Queue
    pub size : ℕ

  unfoldable pub push_lane : ByteFifo → Next E → ByteFifo
  push_lane b v = record { queue = push b.queue v; size = b.size + bytes v }

  unfoldable pub shift_lane : ByteFifo → Option (Next E × ByteFifo)
  shift_lane b = elim (shift b.queue) [
    | none ↦ none
    | some (v, q) ↦ some (v, record { queue = q; size = b.size - bytes v })
  ]

  -- `LaneQueue`
  pub record LaneQueue : Type 0 where
    pub lanes : List ByteFifo
    pub mode : Mode
    pub schedule : List ℕ
    pub cursor : ℕ

  -- The empty lanes with a schedule.
  unfoldable pub start : ℕ → Mode → List ℕ → LaneQueue
  start count mode schedule = record {
    lanes = replicate count (record { queue = empty; size = 0 });
    mode = mode;
    schedule = schedule;
    cursor = 0;
  }

  -- The schedule of round-robin; one with no slot falls back to the lanes in order.
  unfoldable pub start_wrr : ℕ → List ℕ → LaneQueue
  start_wrr count weights = elim (schedule_from 0 weights) [
    | [] ↦ start count wrr (lanes_from 0 count)
    | i ∷ l ↦ start count wrr (i ∷ l)
  ]

  -- The constructor; weights that are left out are `none`, and so is its error.
  unfoldable pub create : ℕ → Mode → Option (List ℕ) → ℕ → Option LaneQueue
  create lanes priority weights bias =
      let count = max 1 lanes in some (start count priority (lanes_from 0 count))
  create lanes wrr weights bias =
      let count = max 1 lanes in
      elim (normalize_weights (get_or weights (auto_weights bias count)) count) [
        | none ↦ none
        | some w ↦ some (start_wrr count w)
      ]

  -- `push` to lane `i`
  unfoldable pub push_at : ℕ → Next E → List ByteFifo → List ByteFifo
  push_at i v [] = []
  push_at zero v (b ∷ l) = push_lane b v ∷ l
  push_at (suc i) v (b ∷ l) = b ∷ push_at i v l

  unfoldable pub push_value : Next E → ℤ → LaneQueue → LaneQueue
  push_value v lane q = record q { lanes = push_at (clamp_lane lane (length q.lanes)) v q.lanes }

  -- `this.lanes[i].shift()`
  unfoldable pub shift_at : ℕ → List ByteFifo → Option (Next E × List ByteFifo)
  shift_at i [] = none
  shift_at zero (b ∷ l) = elim (shift_lane b) [ none ↦ none | some (v, b') ↦ some (v, b' ∷ l) ]
  shift_at (suc i) (b ∷ l) = elim (shift_at i l) [ none ↦ none | some (v, l') ↦ some (v, b ∷ l') ]

  -- The scan of the lanes from 0 up, of strict priority and of the fallback.
  unfoldable pub scan : List ByteFifo → Option (Next E × List ByteFifo)
  scan [] = none
  scan (b ∷ l) =
      let rest = scan l in
      elim (shift_lane b) [
        | some (v, b') ↦ some (v, b' ∷ l)
        | none ↦ elim rest [ none ↦ none | some (v, l') ↦ some (v, b ∷ l') ]
      ]

  -- The probes of round-robin: the cursor where they end, and what was found.
  unfoldable pub probe : List ℕ → ℕ → ℕ → List ByteFifo → ℕ × Option (Next E × List ByteFifo)
  probe schedule zero cursor l = (cursor, none)
  probe schedule (suc probes) cursor l =
      let next = (cursor + 1) % length schedule in
      let rest = probe schedule probes next l in
      elim (get_elem? schedule cursor) [
        | none ↦ rest
        | some i ↦ elim (shift_at i l) [ some r ↦ (next, some r) | none ↦ rest ]
      ]

  -- `isEmpty`: a lane is empty if there is nothing to shift.
  unfoldable pub is_empty : List ByteFifo → Bool
  is_empty [] = true
  is_empty (b ∷ l) = elim (shift b.queue) [ none ↦ is_empty l | some _ ↦ false ]

  -- `size`
  unfoldable pub total_size : List ByteFifo → ℕ
  total_size [] = 0
  total_size (b ∷ l) = b.size + total_size l

  -- A queue after a shift.
  unfoldable pub after_shift :
      LaneQueue → Option (Next E × List ByteFifo) → LaneQueue × Option (Next E)
  after_shift q none = (q, none)
  after_shift q (some (v, l)) = (record q { lanes = l }, some v)

  -- The end of round-robin: what the probes found, or else the first value by the scan.
  unfoldable pub finish_wrr :
      LaneQueue → ℕ × Option (Next E × List ByteFifo) → LaneQueue × Option (Next E)
  finish_wrr q (cursor, some r) = after_shift (record q { cursor = cursor }) (some r)
  finish_wrr q (cursor, none) = after_shift (record q { cursor = cursor }) (scan q.lanes)

  -- `shift` of a queue that is not empty
  unfoldable pub shift_by : Mode → LaneQueue → LaneQueue × Option (Next E)
  shift_by priority q = after_shift q (scan q.lanes)
  shift_by wrr q = finish_wrr q (probe q.schedule (length q.schedule) q.cursor q.lanes)

  -- `shift`
  unfoldable pub shift_queue : LaneQueue → LaneQueue × Option (Next E)
  shift_queue q = if is_empty q.lanes then (q, none) else shift_by q.mode q
