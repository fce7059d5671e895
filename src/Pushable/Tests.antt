-- ===== src/Pushable/Tests.antt =====
-- The iterator on concrete values, and the theorems at inputs that meet their hypotheses.
use peerbit.Base.Fifo.{Fifo, list_fifo}
use peerbit.Base.Int.{pos}
use peerbit.Base.Outcome.{throws}
use peerbit.Base.{ℕ, ◌≡◌, refl, false, none, some, [], ◌∷◌, arith}
use peerbit.Lanes.{
  Next, value, priority, ByteFifo, LaneQueue, low_bits, clamp_lane, push_lane, shift_lane, push_at,
  push_value, scan, is_empty, total_size, after_shift, shift_by, shift_queue,
}
use peerbit.Pushable.Bounded.{IsWithin, run_calls-IsWithin}
use peerbit.Pushable.Calls.{call_push, call_next, call_end, after_push, run_call, run_calls}
use peerbit.Pushable.Ending.{end_stream-finishes}
use peerbit.Pushable.{
  throw_error, gives, finishes, turn_of, lane_buffer, Pushable, buffer_push, buffer_shift,
  buffer_empty, buffered_bytes, notify_waiters, get_next, wait_next, buffer_next, overflows, push,
  deliver_end, end_stream,
}

abbrev queues : Fifo (Next ℕ)
queues = list_fifo (Next ℕ)

-- An empty lane before one that holds three bytes
abbrev lane_one : ByteFifo queues
lane_one = record { queue = value 7 3 ∷ []; size = 3 }

abbrev lane_zero : ByteFifo queues
lane_zero = record { queue = []; size = 0 }

abbrev two_lanes : LaneQueue queues
two_lanes = record {
  lanes = lane_zero ∷ lane_one ∷ [];
  mode = priority;
  schedule = 0 ∷ 1 ∷ [];
  cursor = 0;
}

abbrev stream : Pushable queues
stream = record {
  buffer = lane_buffer two_lanes;
  waiting = false;
  ended = false;
  waiters = 1 ∷ 3 ∷ [];
  max_bytes = some 8;
  overflow = throw_error;
}

program : Unit {0}
unfolding low_bits clamp_lane push_lane shift_lane push_at push_value scan is_empty total_size
    after_shift shift_by shift_queue turn_of buffer_push buffer_shift buffer_empty buffered_bytes
    notify_waiters get_next wait_next buffer_next overflows push deliver_end end_stream
program = tt

-- A value of six bytes does not fit, one of five does and is read first, as it is in the first lane.
turns :
    (push queues 1 6 (pos 0) stream ≡ throws 9)
    × ((wait_next queues (run_call queues (call_push 1 5 (pos 0)) stream)).1 ≡ some (gives 1 5))
    × ((wait_next queues stream).1 ≡ some (gives 7 3))
    × ((wait_next queues stream).0.waiters ≡ [])
unfolding program after_push run_call
turns = (refl, refl, refl, refl)

stream-IsWithin : IsWithin queues 8 stream
stream-IsWithin = (refl, (refl, (refl, tt)), omega arith)

run_calls-IsWithin_example : IsWithin queues 8 (
    run_calls queues
      (call_push 1 5 (pos 0) ∷ call_push 2 1 (pos 1) ∷ call_next ∷ call_end none ∷ [])
      stream)
run_calls-IsWithin_example =
    run_calls-IsWithin queues 8
      (call_push 1 5 (pos 0) ∷ call_push 2 1 (pos 1) ∷ call_next ∷ call_end none ∷ []) stream
      (omega arith) stream-IsWithin

end_stream-finishes_example : (wait_next queues (end_stream queues none stream).0).1 ≡ some finishes
end_stream-finishes_example =
    end_stream-finishes queues lane_zero (lane_one ∷ []) two_lanes stream refl refl refl refl refl
      refl
