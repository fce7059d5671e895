-- ===== src/Pushable/Sizes.antt =====
-- How many bytes the lanes hold: the sizes that are counted stay those of the values in the queues, a
-- push adds those of its value, and a shift adds none.
use peerbit.Base.Fifo.{Fifo}
use peerbit.Base.Int.{ℤ}
use peerbit.Base.{
  ℕ, zero, suc, ◌+◌, ◌%◌, ◌≤◌, ◌≡◌, inl, inr, sym, ap, ◌∙◌, subst, ◌++◌, Option, none, some, List,
  [], ◌∷◌, length, get_elem?, arith, Bool-cases, Option-cases,
}
use peerbit.Lanes.Views.{shift-cases}
use peerbit.Lanes.{
  Next, bytes, Mode, priority, wrr, ByteFifo, LaneQueue, clamp_lane, push_lane, shift_lane, push_at,
  push_value, shift_at, scan, probe, is_empty, total_size, after_shift, finish_wrr, shift_by,
  shift_queue,
}

module _ {E : Type 0} (fifo : Fifo (Next E)) where
  open fifo use {contents, contents_push}

  -- The bytes of values
  abbrev pub bytes_in : List (Next E) → ℕ
  bytes_in [] = 0
  bytes_in (v ∷ l) = bytes v + bytes_in l

  -- The size of a lane is that of the values in its queue.
  abbrev pub IsCountedLane : ByteFifo fifo → Type 0
  IsCountedLane b = b.size ≡ bytes_in (contents b.queue)

  abbrev pub AllCounted : List (ByteFifo fifo) → Type 0
  AllCounted [] = Unit
  AllCounted (b ∷ l) = IsCountedLane b × AllCounted l

  bytes_in-snoc : (v : Next E) (l : List (Next E)) → bytes_in (l ++ v ∷ []) ≡ bytes_in l + bytes v
  bytes_in-snoc v [] = omega arith
  bytes_in-snoc v (x ∷ l) = let ih = bytes_in-snoc v l in omega arith

  pub push_lane-IsCountedLane :
      (v : Next E) (b : ByteFifo fifo) → IsCountedLane b → IsCountedLane (push_lane fifo b v)
  unfolding push_lane
  push_lane-IsCountedLane v b c =
      let added = ap bytes_in (contents_push b.queue v) ∙ bytes_in-snoc v (contents b.queue) in
      ap (λ (n : ℕ). n + bytes v) c ∙ sym added

  push_at-AllCounted :
      (i : ℕ) (v : Next E) (l : List (ByteFifo fifo))
      → AllCounted l
      → AllCounted (push_at fifo i v l)
  unfolding push_at
  push_at-AllCounted i v [] c = tt
  push_at-AllCounted zero v (b ∷ l) (c, all) = (push_lane-IsCountedLane v b c, all)
  push_at-AllCounted (suc i) v (b ∷ l) (c, all) = (c, push_at-AllCounted i v l all)

  pub push_value-AllCounted :
      (v : Next E) (lane : ℤ) (q : LaneQueue fifo)
      → AllCounted q.lanes
      → AllCounted (push_value fifo v lane q).lanes
  unfolding push_value
  push_value-AllCounted v lane q c =
      push_at-AllCounted (clamp_lane lane (length q.lanes)) v q.lanes c

  -- Lanes that are left are counted, and hold no more than a number of bytes.
  abbrev Shrinks : Option (Next E × List (ByteFifo fifo)) → ℕ → Type 0
  Shrinks none n = Unit
  Shrinks (some (v, l)) n = AllCounted l × (total_size fifo l ≤ n)

  pub push_at-size :
      (i : ℕ) (v : Next E) (l : List (ByteFifo fifo))
      → total_size fifo (push_at fifo i v l) ≤ total_size fifo l + bytes v
  unfolding push_at push_lane total_size
  push_at-size i v [] = omega arith
  push_at-size zero v (b ∷ l) = omega arith
  push_at-size (suc i) v (b ∷ l) = let ih = push_at-size i v l in omega arith

  pub push_value-size :
      (v : Next E) (lane : ℤ) (q : LaneQueue fifo)
      → total_size fifo (push_value fifo v lane q).lanes ≤ total_size fifo q.lanes + bytes v
  unfolding push_value
  push_value-size v lane q = push_at-size (clamp_lane lane (length q.lanes)) v q.lanes

  abbrev LaneShrinks : Option (Next E × ByteFifo fifo) → ℕ → Type 0
  LaneShrinks none n = Unit
  LaneShrinks (some (v, b)) n = IsCountedLane b × (b.size ≤ n)

  pub shift_lane-size :
      (b : ByteFifo fifo) → IsCountedLane b → LaneShrinks (shift_lane fifo b) b.size
  unfolding shift_lane
  shift_lane-size b c = elim (shift-cases fifo b.queue) [
    | inl (_, e) ↦ rw (e, LaneShrinks, shift_lane) tt
    | inr (v, q, e, first) ↦
        let all = ap bytes_in first in rw (e, LaneShrinks, shift_lane) (omega arith, omega arith)
  ]

  shift_at-size :
      (i : ℕ) (l : List (ByteFifo fifo))
      → AllCounted l
      → Shrinks (shift_at fifo i l) (total_size fifo l)
  unfolding shift_at total_size
  shift_at-size i [] c = tt
  shift_at-size zero (b ∷ l) (c, all) =
      let size = shift_lane-size b c in
      elim (Option-cases (shift_lane fifo b)) [
        | inl e ↦ rw (e, Shrinks, shift_at) tt
        | inr ((v, b'), e) ↦
            let less =
              subst (λ (o : Option (Next E × ByteFifo fifo)). LaneShrinks o b.size) e size in
            rw (e, Shrinks, shift_at) ((less.0, all), (let fewer = less.1 in omega arith))
      ]
  shift_at-size (suc i) (b ∷ l) (c, all) =
      let ih = shift_at-size i l all in
      elim (Option-cases (shift_at fifo i l)) [
        | inl e ↦ rw (e, Shrinks, shift_at) tt
        | inr ((v, l'), e) ↦
            let less =
              subst (λ (o : Option (Next E × List (ByteFifo fifo))). Shrinks o (total_size fifo l))
                e ih in
            rw (e, Shrinks, shift_at) ((c, less.0), (let fewer = less.1 in omega arith))
      ]

  scan-size : (l : List (ByteFifo fifo)) → AllCounted l → Shrinks (scan fifo l) (total_size fifo l)
  unfolding scan total_size
  scan-size [] c = tt
  scan-size (b ∷ l) (c, all) =
      let size = shift_lane-size b c in
      let ih = scan-size l all in
      elim (Option-cases (shift_lane fifo b)) [
        | inr ((v, b'), e) ↦
            let less =
              subst (λ (o : Option (Next E × ByteFifo fifo)). LaneShrinks o b.size) e size in
            rw (e, Shrinks, scan) ((less.0, all), (let fewer = less.1 in omega arith))
        | inl e ↦ elim (Option-cases (scan fifo l)) [
          | inl e' ↦ rw (e, e', Shrinks, scan) tt
          | inr ((v, l'), e') ↦
              let less =
                subst
                  (λ (o : Option (Next E × List (ByteFifo fifo))). Shrinks o (total_size fifo l)) e'
                  ih in
              rw (e, e', Shrinks, scan) ((c, less.0), (let fewer = less.1 in omega arith))
        ]
      ]

  probe-size :
      (schedule : List ℕ) (probes cursor : ℕ) (l : List (ByteFifo fifo))
      → AllCounted l
      → Shrinks (probe fifo schedule probes cursor l).1 (total_size fifo l)
  unfolding probe
  probe-size schedule zero cursor l c = tt
  probe-size schedule (suc probes) cursor l c =
      let next = (cursor + 1) % length schedule in
      let ih = probe-size schedule probes next l c in
      elim (Option-cases (get_elem? schedule cursor)) [
        | inl e ↦ rw (e, Shrinks, probe) ih
        | inr (i, e) ↦
            let found = shift_at-size i l c in
            elim (Option-cases (shift_at fifo i l)) [
              | inl e' ↦ rw (e, e', Shrinks, probe) ih
              | inr (r, e') ↦
                  rw (e, e', Shrinks, probe)
                    (subst
                      (λ (o : Option (Next E × List (ByteFifo fifo))).
                        Shrinks o (total_size fifo l))
                      e' found)
            ]
      ]

  -- A queue that is counted, and holds no more than a number of bytes
  abbrev pub Holds : LaneQueue fifo → ℕ → Type 0
  Holds q n = AllCounted q.lanes × (total_size fifo q.lanes ≤ n)

  after_shift-size :
      (q : LaneQueue fifo) (r : Option (Next E × List (ByteFifo fifo)))
      → AllCounted q.lanes
      → Shrinks r (total_size fifo q.lanes)
      → Holds (after_shift fifo q r).0 (total_size fifo q.lanes)
  unfolding after_shift
  after_shift-size q none c h = (c, omega arith)
  after_shift-size q (some (v, l)) c h = h

  finish_wrr-size :
      (q : LaneQueue fifo) (r : ℕ × Option (Next E × List (ByteFifo fifo)))
      → AllCounted q.lanes
      → Shrinks r.1 (total_size fifo q.lanes)
      → Holds (finish_wrr fifo q r).0 (total_size fifo q.lanes)
  unfolding finish_wrr
  finish_wrr-size q (cursor, some r) c h =
      after_shift-size (record q { cursor = cursor }) (some r) c h
  finish_wrr-size q (cursor, none) c h =
      after_shift-size (record q { cursor = cursor }) (scan fifo q.lanes) c (scan-size q.lanes c)

  shift_by-size :
      (mode : Mode) (q : LaneQueue fifo)
      → AllCounted q.lanes
      → Holds (shift_by fifo mode q).0 (total_size fifo q.lanes)
  unfolding shift_by
  shift_by-size priority q c = after_shift-size q (scan fifo q.lanes) c (scan-size q.lanes c)
  shift_by-size wrr q c =
      finish_wrr-size q (probe fifo q.schedule (length q.schedule) q.cursor q.lanes) c
        (probe-size q.schedule (length q.schedule) q.cursor q.lanes c)

  pub shift_queue-size :
      (q : LaneQueue fifo)
      → AllCounted q.lanes
      → Holds (shift_queue fifo q).0 (total_size fifo q.lanes)
  unfolding shift_queue
  shift_queue-size q c = elim (Bool-cases (is_empty fifo q.lanes)) [
    | inl e ↦ rw e (c, omega arith)
    | inr e ↦ rw e (shift_by-size q.mode q c)
  ]
