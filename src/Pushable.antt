-- ===== src/Pushable.antt =====
-- packages/transport/stream/src/pushable-lanes.ts: the iterator around the lanes (`_pushable`), with its
-- bound of buffered bytes, its end and its errors. What a promise would wait for is a flag; what runs
-- when a promise is settled runs at once. `onEmpty`, the signals and the callbacks are not modelled.
pub mod Sizes
pub mod Calls
pub mod Held
pub mod Bounded
pub mod Ending
mod Tests
use peerbit.Base.Fifo.{Fifo}
use peerbit.Base.Int.{ℤ, pos}
use peerbit.Base.Outcome.{Outcome, throws, returns}
use peerbit.Base.{
  ℕ, ◌+◌, Bool, true, false, not, ◌&&◌, Option, none, some, List, [], ◌∷◌, ltb, keep, if◌then◌else◌,
}
use peerbit.Lanes.{
  Next, value, done, error, ByteFifo, LaneQueue, push_lane, shift_lane, push_value, is_empty,
  total_size, shift_queue,
}

-- `OverflowPolicy`
pub data OverflowPolicy : Type 0 where
  throw_error drop_newest : OverflowPolicy

-- `NextResult`, or the error that is thrown
pub data Turn (E : Type 0) : Type 0 where
  gives : ℕ → ℕ → Turn E
  finishes : Turn E
  fails : E → Turn E

-- `getNext` of what was shifted
unfoldable pub turn_of : {E : Type 0} → Option (Next E) → Turn E
turn_of none = finishes
turn_of (some (value name size)) = gives name size
turn_of (some done) = finishes
turn_of (some (error e)) = fails e

module _ {E : Type 0} (fifo : Fifo (Next E)) where
  open fifo use {empty, shift}

  -- The lanes, or the simple queue after an error or a return
  pub data Buffer : Type 0 where
    lane_buffer : LaneQueue fifo → Buffer
    plain_buffer : ByteFifo fifo → Buffer

  unfoldable pub buffer_push : Next E → ℤ → Buffer → Buffer
  buffer_push v lane (lane_buffer q) = lane_buffer (push_value fifo v lane q)
  buffer_push v lane (plain_buffer b) = plain_buffer (push_lane fifo b v)

  unfoldable pub plain_shift :
      ByteFifo fifo → Option (Next E × ByteFifo fifo) → Buffer × Option (Next E)
  plain_shift b none = (plain_buffer b, none)
  plain_shift b (some (v, b')) = (plain_buffer b', some v)

  unfoldable pub buffer_shift : Buffer → Buffer × Option (Next E)
  buffer_shift (lane_buffer q) = (lane_buffer (shift_queue fifo q).0, (shift_queue fifo q).1)
  buffer_shift (plain_buffer b) = plain_shift b (shift_lane fifo b)

  unfoldable pub buffer_empty : Buffer → Bool
  buffer_empty (lane_buffer q) = is_empty fifo q.lanes
  buffer_empty (plain_buffer b) = elim (shift b.queue) [ none ↦ true | some v ↦ false ]

  -- `totalBufferedBytes`
  unfoldable pub buffered_bytes : Buffer → ℕ
  buffered_bytes (lane_buffer q) = total_size fifo q.lanes
  buffered_bytes (plain_buffer b) = b.size

  -- The state of `_pushable`; `waiting` is an `onNext`, and a waiter is known by its limit.
  pub record Pushable : Type 0 where
    pub buffer : Buffer
    pub waiting : Bool
    pub ended : Bool
    pub waiters : List ℕ
    pub max_bytes : Option ℕ
    pub overflow : OverflowPolicy

  abbrev pub new_buffer : Buffer
  new_buffer = plain_buffer (record { queue = empty; size = 0 })

  -- `notifyBufferedBelowWaiters`
  unfoldable pub notify_waiters : Pushable → Pushable
  notify_waiters s = record s {
    waiters = keep (λ limit. ltb limit (buffered_bytes s.buffer)) s.waiters;
  }

  -- `getNext`, with the end of `waitNext`
  unfoldable pub get_next : Pushable → Pushable × Option (Turn E)
  get_next s =
      let (b, v) = buffer_shift s.buffer in
      (notify_waiters (record s { buffer = b }), some (turn_of v))

  -- `waitNext`; `none` waits.
  unfoldable pub wait_next : Pushable → Pushable × Option (Turn E)
  wait_next s =
      if not (buffer_empty s.buffer)
      then get_next s
      else if s.ended
      then (notify_waiters s, some finishes)
      else (record s { waiting = true }, none)

  -- `bufferNext`, with what it gives to a `waitNext` that waits
  unfoldable pub buffer_next : Next E → ℤ → Pushable → Pushable × Option (Turn E)
  buffer_next v lane s =
      let s' : Pushable = record s { buffer = buffer_push v lane s.buffer; waiting = false } in
      if s.waiting then get_next s' else (s', none)

  -- `bufferError`
  unfoldable pub buffer_error : E → Pushable → Pushable × Option (Turn E)
  buffer_error e s =
      buffer_next (error e) (pos 0) (notify_waiters (record s { buffer = new_buffer }))

  -- The buffer has no room for a value.
  unfoldable pub overflows : ℕ → Pushable → Bool
  overflows size s = elim s.max_bytes [
    | none ↦ false
    | some m ↦ ltb 0 m && ltb m (buffered_bytes s.buffer + size)
  ]

  -- `push` of a value; the error is the size that there would be.
  unfoldable pub push : ℕ → ℕ → ℤ → Pushable → Outcome ℕ (Pushable × Option (Turn E))
  push name size lane s =
      if s.ended
      then returns (s, none)
      else if overflows size s
      then elim s.overflow [
        | drop_newest ↦ returns (s, none)
        | throw_error ↦ throws (buffered_bytes s.buffer + size)
      ]
      else returns (buffer_next (value name size) lane s)

  -- What `end` leaves to be read
  unfoldable pub deliver_end : Option E → Pushable → Pushable × Option (Turn E)
  deliver_end none s = buffer_next done (pos 0) s
  deliver_end (some e) s = buffer_error e s

  -- `end`
  unfoldable pub end_stream : Option E → Pushable → Pushable × Option (Turn E)
  end_stream err s =
      if s.ended then (s, none) else deliver_end err (record s { ended = true; waiters = [] })

  -- `return`
  unfoldable pub return_stream : Pushable → Pushable × Option (Turn E)
  return_stream s = end_stream none (notify_waiters (record s { buffer = new_buffer }))

  -- `throw`
  unfoldable pub throw_stream : E → Pushable → Pushable × Option (Turn E)
  throw_stream e s = end_stream (some e) s

  -- `onBufferedBelow`: a waiter is added, unless there is nothing to wait for.
  unfoldable pub on_buffered_below : ℕ → Pushable → Pushable × Bool
  on_buffered_below limit s =
      if not (ltb limit (buffered_bytes s.buffer))
      then (s, true)
      else if s.ended
      then (s, true)
      else (record s { waiters = limit ∷ s.waiters }, false)
