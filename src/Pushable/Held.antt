-- ===== src/Pushable/Held.antt =====
-- What a buffer holds: the sizes are those of the values in its queues, and a read adds none.
use peerbit.Base.Fifo.{Fifo}
use peerbit.Base.Int.{ℤ}
use peerbit.Base.{ℕ, ◌+◌, ◌≡◌, ◌≤◌, inl, inr, refl, ap, List, [], ◌∷◌, arith}
use peerbit.Lanes.{Next, bytes, ByteFifo, push_lane, shift_lane, total_size}
use peerbit.Lanes.Views.{shift-cases}
use peerbit.Pushable.Sizes.{
  bytes_in, IsCountedLane, AllCounted, push_lane-IsCountedLane, push_value-AllCounted,
  push_value-size, shift_queue-size,
}
use peerbit.Pushable.{
  Buffer, lane_buffer, plain_buffer, buffer_push, plain_shift, buffer_shift, buffered_bytes,
}

module _ {E : Type 0} (fifo : Fifo (Next E)) where
  open fifo use {contents}

  -- The sizes are those of the values in the queues.
  abbrev pub IsCounted : Buffer fifo → Type 0
  IsCounted (lane_buffer q) = AllCounted fifo q.lanes
  IsCounted (plain_buffer b) = IsCountedLane fifo b

  abbrev held_lanes : List (ByteFifo fifo) → ℕ
  held_lanes [] = 0
  held_lanes (b ∷ l) = bytes_in fifo (contents b.queue) + held_lanes l

  -- The bytes of the values in the queues
  abbrev pub held : Buffer fifo → ℕ
  held (lane_buffer q) = held_lanes q.lanes
  held (plain_buffer b) = bytes_in fifo (contents b.queue)

  held_lanes-counted :
      (l : List (ByteFifo fifo)) → AllCounted fifo l → total_size fifo l ≡ held_lanes l
  unfolding total_size
  held_lanes-counted [] c = refl
  held_lanes-counted (b ∷ l) (c, all) = let ih = held_lanes-counted l all in omega arith

  pub held-counted : (b : Buffer fifo) → IsCounted b → buffered_bytes fifo b ≡ held b
  unfolding buffered_bytes
  held-counted (lane_buffer q) c = held_lanes-counted q.lanes c
  held-counted (plain_buffer b) c = c

  pub buffer_push-IsCounted :
      (v : Next E) (lane : ℤ) (b : Buffer fifo)
      → IsCounted b
      → IsCounted (buffer_push fifo v lane b)
  unfolding buffer_push
  buffer_push-IsCounted v lane (lane_buffer q) c = push_value-AllCounted fifo v lane q c
  buffer_push-IsCounted v lane (plain_buffer b) c = push_lane-IsCountedLane fifo v b c

  pub buffer_push-size :
      (v : Next E) (lane : ℤ) (b : Buffer fifo)
      → buffered_bytes fifo (buffer_push fifo v lane b) ≤ buffered_bytes fifo b + bytes v
  unfolding buffer_push buffered_bytes push_lane
  buffer_push-size v lane (lane_buffer q) = push_value-size fifo v lane q
  buffer_push-size v lane (plain_buffer b) = omega arith

  -- A buffer that is counted, and holds no more than a number of bytes
  abbrev Holds : Buffer fifo → ℕ → Type 0
  Holds b n = IsCounted b × (buffered_bytes fifo b ≤ n)

  plain_shift-size :
      (b : ByteFifo fifo)
      → IsCountedLane fifo b
      → Holds (plain_shift fifo b (shift_lane fifo b)).0 b.size
  unfolding plain_shift buffered_bytes shift_lane
  plain_shift-size b c = elim (shift-cases fifo b.queue) [
    | inl (_, e) ↦ rw (e, plain_shift, shift_lane, buffered_bytes) (c, omega arith)
    | inr (v, q, e, first) ↦
        let all = ap (bytes_in fifo) first in
        rw (e, plain_shift, shift_lane, buffered_bytes) (omega arith, omega arith)
  ]

  pub buffer_shift-size :
      (b : Buffer fifo) → IsCounted b → Holds (buffer_shift fifo b).0 (buffered_bytes fifo b)
  unfolding buffer_shift buffered_bytes
  buffer_shift-size (lane_buffer q) c = shift_queue-size fifo q c
  buffer_shift-size (plain_buffer b) c = plain_shift-size b c
