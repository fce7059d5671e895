-- ===== src/Lanes/Schedule.antt =====
-- The schedule of round-robin that the constructor builds (`LaneQueue.constructor`,
-- `normalizeWeights`).
use mathlib.Core.Option.{get_or}
use peerbit.Base.Fifo.{Fifo}
use peerbit.Base.{
  ℕ, zero, suc, ◌+◌, ◌-◌, ◌^◌, max, ◌≤◌, ◌<◌, ◌≡◌, ◌≢◌, ◌⊎◌, inl, inr, refl, sym, ap, ◌∙◌, Option,
  none, some, List, [], ◌∷◌, ◌++◌, get_elem?, length, replicate, arith, ℕ_discrete,
}
use peerbit.Lanes.{
  Next, wrr, LaneQueue, sum, auto_weights, normalize_weights, schedule_from, start, start_wrr,
  create,
}

get_elem?-replicate :
    (n k : ℕ) (i j : ℕ) (rest : List ℕ)
    → get_elem? (replicate n i ++ rest) k ≡ some j
    → i ≢ j
    → (k' : ℕ) × (get_elem? rest k' ≡ some j)
get_elem?-replicate zero k i j rest h ne = (k, h)
get_elem?-replicate (suc n) zero i j rest h ne = absurd (ne (cc h))
get_elem?-replicate (suc n) (suc k) i j rest h ne = get_elem?-replicate n k i j rest h ne

get_elem?-past :
    (n k : ℕ) (i : ℕ) (rest : List ℕ) → get_elem? (replicate n i ++ rest) (n + k) ≡ get_elem? rest k
get_elem?-past zero k i rest = ap (get_elem? rest) (omega arith)
get_elem?-past (suc n) k i rest =
    ap (get_elem? (i ∷ replicate n i ++ rest)) {x = suc n + k} {y = suc (n + k)} (omega arith)
    ∙ get_elem?-past n k i rest

-- A lane that weighs something has a slot.
slot_of :
    (w : List ℕ) (base i n : ℕ)
    → get_elem? w i ≡ some (suc n)
    → (k : ℕ) × (get_elem? (schedule_from base w) k ≡ some (base + i))
unfolding schedule_from
slot_of [] base i n h = cc h
slot_of (x ∷ w) base zero n h = (0, ground arith)
slot_of (x ∷ w) base (suc i) n h =
    let (k, at) = slot_of w (suc base) i n h in
    (x + k, get_elem?-past x k base (schedule_from (suc base) w) ∙ at ∙ ap some (omega arith))

-- The lanes of the schedule are those from `base` on.
slot_bound : (w : List ℕ) (base j k : ℕ) → get_elem? (schedule_from base w) k ≡ some j → base ≤ j
unfolding schedule_from
slot_bound [] base j k h = cc h
slot_bound (x ∷ w) base j k h = elim (ℕ_discrete base j) [
  | yes same ↦ omega arith
  | no other ↦
      let (k', h') = get_elem?-replicate x k base j (schedule_from (suc base) w) h other in
      let up = slot_bound w (suc base) j k' h' in omega arith
]

-- A lane that weighs nothing has none.
no_slot :
    (w : List ℕ) (base i k : ℕ)
    → get_elem? w i ≡ some 0
    → get_elem? (schedule_from base w) k ≢ some (base + i)
unfolding schedule_from
no_slot [] base i k h at = cc h
no_slot (x ∷ w) base zero k h at =
    let none_yet : x ≡ 0 = ground arith in
    let up = slot_bound w (suc base) (base + 0) k (
      ap (λ (n : ℕ). get_elem? (replicate n base ++ schedule_from (suc base) w) k) (sym none_yet)
      ∙ at) in
    omega arith
no_slot (x ∷ w) base (suc i) k h at =
    let (k', h') =
      get_elem?-replicate x k base (base + suc i) (schedule_from (suc base) w) at (omega arith) in
    no_slot w (suc base) i k' h (h' ∙ ap some (omega arith))

length-replicate {ℓ} : {A : Type ℓ} (x : A) (n : ℕ) → length (replicate n x) ≡ n
length-replicate x zero = refl
length-replicate x (suc n) = ap suc (length-replicate x n)

length-auto_weights : (bias left : ℕ) → length (auto_weights bias left) ≡ left
unfolding auto_weights
length-auto_weights bias zero = refl
length-auto_weights bias (suc left) = ap suc (length-auto_weights bias left)

auto_weights-positive :
    (bias left i : ℕ) → i < left → (n : ℕ) × (get_elem? (auto_weights bias left) i ≡ some (suc n))
unfolding auto_weights
auto_weights-positive bias zero i lt = absurd (omega arith)
auto_weights-positive bias (suc left) zero lt = (max 1 (bias ^ left) - 1, ap some (omega arith))
auto_weights-positive bias (suc left) (suc i) lt = auto_weights-positive bias left i (omega arith)

sum-positive : (w : List ℕ) (i n : ℕ) → get_elem? w i ≡ some (suc n) → sum w ≢ 0
sum-positive [] i n h e = cc h
sum-positive (x ∷ w) zero n h e = ground arith
sum-positive (x ∷ w) (suc i) n h e = sum-positive w i n h (omega arith)

normalize_weights-same :
    (w : List ℕ) (lanes : ℕ) → length w ≡ lanes → sum w ≢ 0 → normalize_weights w lanes ≡ some w
unfolding normalize_weights
normalize_weights-same w lanes e some_weight = ground arith

sum-no_weight : (w : List ℕ) → sum w ≢ 0 → (i : ℕ) × (n : ℕ) × (get_elem? w i ≡ some (suc n))
sum-no_weight [] ne = absurd (ne refl)
sum-no_weight (zero ∷ w) ne = let (i, n, h) = sum-no_weight w (omega arith) in (suc i, n, h)
sum-no_weight (suc x ∷ w) ne = (0, x, refl)

module _ {E : Type 0} (fifo : Fifo (Next E)) where
  -- A schedule with a slot is the one that the queue has.
  start_wrr-schedule :
      (count k j : ℕ) (w : List ℕ)
      → get_elem? (schedule_from 0 w) k ≡ some j
      → start_wrr fifo count w ≡ start fifo count wrr (schedule_from 0 w)
  unfolding start_wrr
  start_wrr-schedule count k j w at = go (schedule_from 0 w) refl at
    where
      go :
          (s : List ℕ)
          → schedule_from 0 w ≡ s
          → get_elem? s k ≡ some j
          → start_wrr fifo count w ≡ start fifo count wrr (schedule_from 0 w)
      go [] e h = cc h
      go (i ∷ s) e h = rw (e, start_wrr)

  create-schedule :
      (lanes bias : ℕ) (weights : Option (List ℕ))
      → length (get_or weights (auto_weights bias (max 1 lanes))) ≡ max 1 lanes
      → sum (get_or weights (auto_weights bias (max 1 lanes))) ≢ 0
      → create fifo lanes wrr weights bias
        ≡ some (
            start fifo
              (max 1 lanes)
              wrr
              (schedule_from 0 (get_or weights (auto_weights bias (max 1 lanes)))))
  unfolding create
  create-schedule lanes bias weights e ne =
      let w = get_or weights (auto_weights bias (max 1 lanes)) in
      let (i, n, h) = sum-no_weight w ne in
      let (k, at) = slot_of w 0 i n h in
      rw (normalize_weights-same w (max 1 lanes) e ne, create)
        (ap some (start_wrr-schedule (max 1 lanes) k (0 + i) w at))

  -- With no weights given, the constructor succeeds at any bias and builds a round-robin queue, with
  -- the cursor at 0, in whose schedule each of its lanes has a slot.
  pub create-auto_slots :
      (lanes bias i : ℕ)
      → i < max 1 lanes
      → (q : LaneQueue fifo) × (k : ℕ) × (create fifo lanes wrr none bias ≡ some q)
        × (q.mode ≡ wrr)
        × (q.cursor ≡ 0)
        × (length q.lanes ≡ max 1 lanes)
        × (get_elem? q.schedule k ≡ some i)
  unfolding start
  create-auto_slots lanes bias i lt =
      let w = auto_weights bias (max 1 lanes) in
      let (n, h) = auto_weights-positive bias (max 1 lanes) i lt in
      let (k, at) = slot_of w 0 i n h in
      (
        start fifo (max 1 lanes) wrr (schedule_from 0 w),
        k,
        create-schedule lanes bias none (length-auto_weights bias (max 1 lanes))
            (sum-positive w i n h),
        refl,
        refl,
        length-replicate _ (max 1 lanes),
        at ∙ ap some (omega arith),
      )

  -- Weights that are given, one for each lane and not all 0: the constructor succeeds, and a lane has
  -- a slot in the schedule exactly if its weight is not 0. A lane that weighs 0 is accepted and never
  -- probed.
  pub create-slots_iff :
      (lanes bias i x : ℕ) (weights : List ℕ)
      → length weights ≡ max 1 lanes
      → sum weights ≢ 0
      → get_elem? weights i ≡ some x
      → (q : LaneQueue fifo) × (create fifo lanes wrr (some weights) bias ≡ some q)
        × (((x ≢ 0) × (k : ℕ) × (get_elem? q.schedule k ≡ some i))
            ⊎ ((x ≡ 0) × ((k : ℕ) → get_elem? q.schedule k ≢ some i)))
  unfolding start
  create-slots_iff lanes bias i zero weights e ne h = (
    start fifo (max 1 lanes) wrr (schedule_from 0 weights),
    create-schedule lanes bias (some weights) e ne,
    inr (refl, λ k at. no_slot weights 0 i k h (at ∙ ap some (omega arith))),
  )
  create-slots_iff lanes bias i (suc n) weights e ne h =
      let (k, at) = slot_of weights 0 i n h in
      (
        start fifo (max 1 lanes) wrr (schedule_from 0 weights),
        create-schedule lanes bias (some weights) e ne,
        inl (omega arith, k, at ∙ ap some (omega arith)),
      )
