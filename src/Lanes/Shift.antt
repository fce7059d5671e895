-- ===== src/Lanes/Shift.antt =====
-- `shift` of the lanes (`LaneQueue.shift`): what it takes in either mode.
use peerbit.Base.Fifo.{Fifo}
use peerbit.Base.{
  ℕ, zero, suc, ◌+◌, ◌%◌, ◌≡◌, ◌⊎◌, inl, inr, refl, ap, ◌∙◌, true, false, Option, none, some, List,
  get_elem?, take, length, Bool-cases,
}
use peerbit.Lanes.{
  Next, Mode, priority, wrr, ByteFifo, LaneQueue, scan, is_empty, probe, after_shift, finish_wrr,
  shift_by, shift_queue,
}
use peerbit.Lanes.Views.{
  view, TakesAt, AllEmpty, shift_at-cases, scan-cases, is_empty-AllEmpty, AllEmpty-is_empty,
}

module _ {E : Type 0} (fifo : Fifo (Next E)) where
  -- What the probes find is the first value of some lane.
  abbrev pub Found : List (ByteFifo fifo) → ℕ × Option (Next E × List (ByteFifo fifo)) → Type 0
  Found l r =
      ((c : ℕ) × (r ≡ (c, none)))
      ⊎ ((c i : ℕ) × (v : Next E) × (l' : List (ByteFifo fifo)) × (r ≡ (c, some (v, l')))
          × TakesAt fifo i (view fifo l) v (view fifo l'))

  pub probe-cases :
      (schedule : List ℕ) (n cursor : ℕ) (l : List (ByteFifo fifo))
      → Found l (probe fifo schedule n cursor l)
  unfolding probe
  probe-cases schedule zero cursor l = inl (cursor, refl)
  probe-cases schedule (suc n) cursor l =
      let next = (cursor + 1) % length schedule in
      let ih = probe-cases schedule n next l in go (get_elem? schedule cursor) refl ih
    where
      go :
          (s : Option ℕ)
          → get_elem? schedule cursor ≡ s
          → Found l (probe fifo schedule n ((cursor + 1) % length schedule) l)
          → Found l (probe fifo schedule (suc n) cursor l)
      go none e ih = rw (e, probe) ih
      go (some i) e ih = elim (shift_at-cases fifo i l) [
        | inl (nothing, _) ↦ rw (e, probe) (rw nothing ih)
        | inr (v, l', found, takes) ↦
            inr ((cursor + 1) % length schedule, i, v, l', rw (e, found, probe), takes)
      ]

  -- A shift that finds nothing leaves the queue, and every lane is empty; any other takes the first
  -- value of one lane.
  abbrev pub Shifts : LaneQueue fifo → LaneQueue fifo × Option (Next E) → Type 0
  Shifts q r =
      ((r ≡ (q, none)) × AllEmpty fifo (view fifo q.lanes))
      ⊎ ((i : ℕ) × (v : Next E) × (q' : LaneQueue fifo) × (r ≡ (q', some v))
          × TakesAt fifo i (view fifo q.lanes) v (view fifo q'.lanes))

  shift_queue-empty :
      (q : LaneQueue fifo) → is_empty fifo q.lanes ≡ true → shift_queue fifo q ≡ (q, none)
  unfolding shift_queue
  shift_queue-empty q e = rw (e, shift_queue)

  pub shift_queue-mode :
      (q : LaneQueue fifo) (m : Mode)
      → is_empty fifo q.lanes ≡ false
      → q.mode ≡ m
      → shift_queue fifo q ≡ shift_by fifo m q
  unfolding shift_queue
  shift_queue-mode q m e same = rw (e, shift_queue) (ap (λ (x : Mode). shift_by fifo x q) same)

  scan-some :
      (l : List (ByteFifo fifo))
      → is_empty fifo l ≡ false
      → (i : ℕ) × (v : Next E) × (l' : List (ByteFifo fifo)) × (scan fifo l ≡ some (v, l'))
        × TakesAt fifo i (view fifo l) v (view fifo l')
        × AllEmpty fifo (take i (view fifo l))
  scan-some l e = elim (scan-cases fifo l) [
    | inl (_, all) ↦ absurd (cc (AllEmpty-is_empty fifo l all))
    | inr found ↦ found
  ]

  -- Strict priority: unless every lane is empty, `shift` takes the first value of a lane, all the
  -- lanes before which are empty, and changes no other lane.
  pub shift_queue-first_lane :
      (q : LaneQueue fifo)
      → q.mode ≡ priority
      → ((shift_queue fifo q ≡ (q, none)) × AllEmpty fifo (view fifo q.lanes))
        ⊎ ((i : ℕ) × (v : Next E) × (q' : LaneQueue fifo) × (shift_queue fifo q ≡ (q', some v))
            × TakesAt fifo i (view fifo q.lanes) v (view fifo q'.lanes)
            × AllEmpty fifo (take i (view fifo q.lanes)))
  unfolding after_shift shift_by
  shift_queue-first_lane q m = elim (Bool-cases (is_empty fifo q.lanes)) [
    | inl e ↦ inl (shift_queue-empty q e, is_empty-AllEmpty fifo q.lanes e)
    | inr e ↦
        let (i, v, l', found, takes, before) = scan-some q.lanes e in
        inr
          (i, v, record q { lanes = l' }, shift_queue-mode q priority e m ∙ rw found, takes, before)
  ]

  shift_wrr_lem :
      (q : LaneQueue fifo)
      → is_empty fifo q.lanes ≡ false
      → (i : ℕ) × (v : Next E) × (q' : LaneQueue fifo) × (shift_by fifo wrr q ≡ (q', some v))
        × TakesAt fifo i (view fifo q.lanes) v (view fifo q'.lanes)
  unfolding shift_by finish_wrr after_shift
  shift_wrr_lem q e = elim (probe-cases q.schedule (length q.schedule) q.cursor q.lanes) [
    | inl (c, nothing) ↦
        let (i, v, l', found, takes, before) = scan-some q.lanes e in
        (
          i,
          v,
          record q { lanes = l'; cursor = c },
          ap (finish_wrr fifo q) nothing ∙ rw found,
          takes,
        )
    | inr (c, i, v, l', found, takes) ↦
        (i, v, record q { lanes = l'; cursor = c }, ap (finish_wrr fifo q) found, takes)
  ]

  -- In either mode, `shift` gives nothing, and leaves the queue as it is, exactly when every lane is
  -- empty; otherwise it takes the first value of one lane and changes no other lane.
  pub shift_queue_lem : (q : LaneQueue fifo) → Shifts q (shift_queue fifo q)
  shift_queue_lem q = go q.mode refl
    where
      go : (m : Mode) → q.mode ≡ m → Shifts q (shift_queue fifo q)
      go priority m = elim (shift_queue-first_lane q m) [
        | inl nothing ↦ inl nothing
        | inr (i, v, q', e, takes, _) ↦ inr (i, v, q', e, takes)
      ]
      go wrr m = elim (Bool-cases (is_empty fifo q.lanes)) [
        | inl e ↦ inl (shift_queue-empty q e, is_empty-AllEmpty fifo q.lanes e)
        | inr e ↦
            let (i, v, q', s, takes) = shift_wrr_lem q e in
            inr (i, v, q', shift_queue-mode q wrr e m ∙ s, takes)
      ]
