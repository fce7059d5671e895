-- ===== src/Lanes/Tests.antt =====
-- Lanes over a list as their queue, on concrete values, and the theorems at inputs that meet their
-- hypotheses.
use peerbit.Base.Fifo.{Fifo, list_fifo}
use peerbit.Base.Int.{pos, negsuc}
use peerbit.Base.{ℕ, ◌≡◌, refl, none, some, List, [], ◌∷◌, arith}
use peerbit.Lanes.Shift.{Shifts, shift_queue_lem}
use peerbit.Lanes.Starvation.{Call, push_call, shift_call, Served, shift_queue-Served}
use peerbit.Lanes.{
  Next, value, priority, wrr, LaneQueue, low_bits, clamp_lane, auto_weights, normalize_weights,
  schedule_from, lanes_from, push_lane, shift_lane, start, start_wrr, create, push_at, push_value,
  shift_at, scan, probe, is_empty, total_size, after_shift, finish_wrr, shift_by, shift_queue,
}

program : Unit {0}
unfolding low_bits clamp_lane auto_weights normalize_weights schedule_from lanes_from push_lane
    shift_lane start start_wrr create push_at push_value shift_at scan probe is_empty total_size
    after_shift finish_wrr shift_by shift_queue
program = tt

abbrev queues : Fifo (Next ℕ)
queues = list_fifo (Next ℕ)

-- Two lanes, of which lane 0 has two of three slots; two values in lane 0 and one in lane 1.
abbrev two_lanes : LaneQueue queues
two_lanes = record {
  lanes =
      record { queue = value 1 5 ∷ value 2 5 ∷ value 3 4 ∷ []; size = 14 }
      ∷ record { queue = value 7 3 ∷ []; size = 3 }
      ∷ [];
  mode = wrr;
  schedule = 0 ∷ 0 ∷ 1 ∷ [];
  cursor = 0;
}

abbrev by_priority : LaneQueue queues
by_priority = record two_lanes { mode = priority; schedule = 0 ∷ 1 ∷ [] }

-- The queue from the constructor, with the bias 2, and pushes; lane 9 is clamped to lane 1.
built :
    create queues 2 wrr none 2
    ≡ some (record two_lanes {
      lanes = record { queue = []; size = 0 } ∷ record { queue = []; size = 0 } ∷ [];
    })
unfolding program
built = refl

shifted : (shift_queue queues two_lanes).1 ≡ some (value 1 5)
unfolding program
shifted = refl

clamped : total_size queues (push_value queues (value 9 6) (pos 9) two_lanes).lanes ≡ 23
unfolding program
clamped = refl

-- From 2^31 on a lane wraps to a negative number, and 2^32 + 1 to 1.
wrapped :
    (clamp_lane (pos 2147483648) 2 ≡ 0)
    × (clamp_lane (pos 4294967297) 2 ≡ 1)
    × (clamp_lane (negsuc 0) 2 ≡ 0)
    × (clamp_lane (negsuc 4294967294) 2 ≡ 1)
unfolding program
wrapped = (refl, refl, refl, refl)

abbrev calls : List (Call ℕ)
calls = shift_call ∷ push_call (value 4 1) (pos 0) ∷ shift_call ∷ shift_call ∷ []

shift_queue-Served_example : Served queues 1 calls two_lanes
shift_queue-Served_example =
    shift_queue-Served queues calls two_lanes 1 2 (value 7 3) [] refl (omega arith) refl refl
      (omega arith)

shift_queue_lem_example : Shifts queues two_lanes (shift_queue queues two_lanes)
shift_queue_lem_example = shift_queue_lem queues two_lanes
