-- ===== src/Pushable/Ending.antt =====
-- The end of a stream, which goes to lane 0 and is read before what waits in the lanes behind it.
use peerbit.Base.Fifo.{Fifo}
use peerbit.Base.Int.{pos}
use peerbit.Base.{
  ℕ, ◌-◌, ◌≡◌, inl, inr, refl, sym, ap, ◌∙◌, true, false, not, Option, none, some, List, [], ◌∷◌,
  ◌++◌, length, if_true, if_false, arith,
}
use peerbit.Lanes.Views.{shift-cases}
use peerbit.Lanes.{
  Next, bytes, done, Mode, priority, ByteFifo, LaneQueue, low_bits, clamp_lane, push_lane,
  shift_lane, push_at, push_value, scan, is_empty, after_shift, shift_by, shift_queue,
}
use peerbit.Pushable.{
  Turn, finishes, turn_of, Buffer, lane_buffer, Pushable, buffer_push, buffer_shift, buffer_empty,
  get_next, wait_next, buffer_next, deliver_end, end_stream,
}

module _ {E : Type 0} (fifo : Fifo (Next E)) where
  open fifo use {Queue, contents, contents_push, shift}

  -- The only value of a queue is shifted first.
  shift-only :
      (q : Queue) → contents q ≡ [] → (q' : Queue) × (shift (fifo.push q done) ≡ some (done, q'))
  shift-only q e = elim (shift-cases fifo (fifo.push q done)) [
    | inl (nothing, _) ↦
        absurd
          (cc (sym nothing ∙ contents_push q done ∙ ap (λ (l : List (Next E)). l ++ done ∷ []) e))
    | inr (v, q', found, first) ↦
        let same : v ∷ contents q' ≡ done ∷ [] =
          sym first ∙ contents_push q done ∙ ap (λ (l : List (Next E)). l ++ done ∷ []) e in
        let head : v ≡ done = cc same in (q', found ∙ ap (λ (x : Next E). some (x, q')) head)
  ]

  -- The lanes after the end was pushed to them
  abbrev with_end : ByteFifo fifo → List (ByteFifo fifo) → List (ByteFifo fifo)
  with_end b l = push_lane fifo b done ∷ l

  clamp-first :
      (b : ByteFifo fifo) (l : List (ByteFifo fifo)) → clamp_lane (pos 0) (length (b ∷ l)) ≡ 0
  unfolding clamp_lane low_bits
  clamp-first b l = ground arith

  push_value-first :
      (b : ByteFifo fifo) (l : List (ByteFifo fifo)) (q : LaneQueue fifo)
      → q.lanes ≡ b ∷ l
      → (push_value fifo done (pos 0) q).lanes ≡ with_end b l
  unfolding push_value push_at
  push_value-first b l q e =
      ap (λ (m : List (ByteFifo fifo)). push_at fifo (clamp_lane (pos 0) (length m)) done m) e
      ∙ ap (λ (i : ℕ). push_at fifo i done (b ∷ l)) (clamp-first b l)

  scan-end :
      (b : ByteFifo fifo) (l : List (ByteFifo fifo))
      → contents b.queue ≡ []
      → (l' : List (ByteFifo fifo)) × (scan fifo (with_end b l) ≡ some (done, l'))
  unfolding scan shift_lane push_lane
  scan-end b l e =
      let (q', found) = shift-only b.queue e in
      (
        record { queue = q'; size = (push_lane fifo b done).size - bytes {E = E} done } ∷ l,
        rw (found, scan, shift_lane, push_lane) refl,
      )

  is_empty-end :
      (b : ByteFifo fifo) (l : List (ByteFifo fifo))
      → contents b.queue ≡ []
      → is_empty fifo (with_end b l) ≡ false
  unfolding is_empty push_lane
  is_empty-end b l e =
      let (q', found) = shift-only b.queue e in rw (found, is_empty, push_lane) refl

  shift_queue-end :
      (b : ByteFifo fifo) (l : List (ByteFifo fifo)) (q : LaneQueue fifo)
      → q.mode ≡ priority
      → q.lanes ≡ with_end b l
      → contents b.queue ≡ []
      → (is_empty fifo q.lanes ≡ false) × ((shift_queue fifo q).1 ≡ some done)
  unfolding shift_queue shift_by after_shift
  shift_queue-end b l q m e clear =
      let (l', found) = scan-end b l clear in
      let full : is_empty fifo q.lanes ≡ false = ap (is_empty fifo) e ∙ is_empty-end b l clear in
      (
        full,
        ap (λ (r : LaneQueue fifo × Option (Next E)). r.1) (if_false (q, none) full)
            ∙ ap (λ (mode : Mode). (shift_by fifo mode q).1) m
            ∙ ap (λ (lanes : List (ByteFifo fifo)). (after_shift fifo q (scan fifo lanes)).1) e
            ∙ ap (λ (r : Option (Next E × List (ByteFifo fifo))). (after_shift fifo q r).1) found,
      )

  wait_next-end :
      (s : Pushable fifo) (q : LaneQueue fifo)
      → s.buffer ≡ lane_buffer q
      → is_empty fifo q.lanes ≡ false
      → (shift_queue fifo q).1 ≡ some done
      → (wait_next fifo s).1 ≡ some finishes
  unfolding wait_next get_next buffer_shift buffer_empty turn_of
  wait_next-end s q e full first =
      let occupied : not (buffer_empty fifo s.buffer) ≡ true =
        ap (λ (x : Buffer fifo). not (buffer_empty fifo x)) e ∙ ap not full in
      ap (λ (r : Pushable fifo × Option (Turn E)). r.1) (if_true _ occupied)
      ∙ ap (λ (x : Buffer fifo). some (turn_of (buffer_shift fifo x).1)) e
      ∙ ap (λ (v : Option (Next E)). some (turn_of v)) first

  -- Lanes of strict priority whose first lane is empty, with no reader that waits: after `end` without
  -- an error the next read finishes the stream, whatever the other lanes still hold.
  pub end_stream-finishes :
      (b : ByteFifo fifo) (l : List (ByteFifo fifo)) (q : LaneQueue fifo) (s : Pushable fifo)
      → s.buffer ≡ lane_buffer q
      → q.mode ≡ priority
      → q.lanes ≡ b ∷ l
      → contents b.queue ≡ []
      → s.waiting ≡ false
      → s.ended ≡ false
      → (wait_next fifo (end_stream fifo none s).0).1 ≡ some finishes
  unfolding end_stream deliver_end buffer_next buffer_push push_value
  end_stream-finishes b l q s buffered m e clear idle open_end =
      let q' = push_value fifo done (pos 0) q in
      let s1 : Pushable fifo = record s { ended = true; waiters = [] } in
      let s' : Pushable fifo = record s1 {
        buffer = buffer_push fifo done (pos 0) s.buffer;
        waiting = false;
      } in
      let (full, first) = shift_queue-end b l q' m (push_value-first b l q e) clear in
      let at : end_stream fifo none s ≡ (s', none) = if_false _ open_end ∙ if_false _ idle in
      ap (λ (r : Pushable fifo × Option (Turn E)). (wait_next fifo r.0).1) at
      ∙ wait_next-end s' q' (ap (buffer_push fifo done (pos 0)) buffered) full first
