-- ===== src/Lanes/Starvation.antt =====
-- Calls of a queue of lanes (`LaneQueue.push`, `LaneQueue.shift`) and the lanes they serve.
use peerbit.Base.Fifo.{Fifo}
use peerbit.Base.Int.{ℤ}
use peerbit.Base.{
  ℕ, zero, suc, ◌≤◌, ◌<◌, ◌≡◌, ◌⊎◌, inl, inr, refl, sym, ap, subst, some, List, [], ◌∷◌, ◌++◌,
  get_elem?, length, arith, lt_of_get_elem?,
}
use peerbit.Lanes.{
  Next, wrr, ByteFifo, LaneQueue, clamp_lane, push_lane, push_at, push_value, shift_queue,
}
use peerbit.Lanes.Views.{view, TakesAt}
use peerbit.Lanes.Fairness.{slots_until, Waiting, shift_queue-Progress}

-- A call of a queue of lanes.
pub data Call (E : Type 0) : Type 0 where
  push_call : Next E → ℤ → Call E
  shift_call : Call E

-- How often the calls shift.
abbrev pub shifts : {E : Type 0} → List (Call E) → ℕ
shifts [] = 0
shifts (push_call v lane ∷ calls) = shifts calls
shifts (shift_call ∷ calls) = suc (shifts calls)

module _ {E : Type 0} (fifo : Fifo (Next E)) where
  open fifo use {contents, contents_push}

  -- One of the calls is a shift that returns the first value of lane `i`.
  abbrev pub Served : ℕ → List (Call E) → LaneQueue fifo → Type 0
  Served i [] q = ⊥
  Served i (push_call v lane ∷ calls) q = Served i calls (push_value fifo v lane q)
  Served i (shift_call ∷ calls) q =
      ((v : Next E) × ((shift_queue fifo q).1 ≡ some v)
        × TakesAt fifo i (view fifo q.lanes) v (view fifo (shift_queue fifo q).0.lanes))
      ⊎ Served i calls (shift_queue fifo q).0

  -- A push leaves a lane waiting.
  push_at-waiting :
      (j i : ℕ) (v x : Next E) (c : List (Next E)) (l : List (ByteFifo fifo))
      → get_elem? (view fifo l) i ≡ some (x ∷ c)
      → (c' : List (Next E)) × (get_elem? (view fifo (push_at fifo j v l)) i ≡ some (x ∷ c'))
  unfolding push_at push_lane
  push_at-waiting j i v x c [] h = cc h
  push_at-waiting zero zero v x c (b ∷ l) h = (c ++ v ∷ [], ground (arith, contents_push b.queue v))
  push_at-waiting zero (suc i) v x c (b ∷ l) h = (c, h)
  push_at-waiting (suc j) zero v x c (b ∷ l) h = (c, h)
  push_at-waiting (suc j) (suc i) v x c (b ∷ l) h = push_at-waiting j i v x c l h

module _ {E : Type 0} (fifo : Fifo (Next E)) (schedule : List ℕ) (i k : ℕ)
    (slot : get_elem? schedule k ≡ some i) where
  Served-within :
      (calls : List (Call E)) (q : LaneQueue fifo)
      → q.mode ≡ wrr
      → q.schedule ≡ schedule
      → q.cursor < length schedule
      → Waiting fifo schedule i k slot q.lanes
      → slots_until (length schedule) q.cursor k < shifts calls
      → Served fifo i calls q
  unfolding push_value
  Served-within [] q m s lt w near = absurd (omega arith)
  Served-within (push_call v lane ∷ calls) q m s lt (x, c, h) near =
      let (c', h') = push_at-waiting fifo (clamp_lane lane (length q.lanes)) i v x c q.lanes h in
      Served-within calls (push_value fifo v lane q) m s lt (x, c', h') near
  Served-within (shift_call ∷ calls) q m s lt w near =
      let (v, q', e, m', s', lt', end) = shift_queue-Progress fifo schedule i k slot q m s lt w in
      let same = sym (ap (λ (r : LaneQueue fifo × _). r.0) e) in
      elim end [
        | inl takes ↦ inl (
          v,
          ap (λ (r : LaneQueue fifo × _). r.1) e,
          subst (λ (r : LaneQueue fifo). TakesAt fifo i (view fifo q.lanes) v (view fifo r.lanes))
              same takes,
        )
        | inr (nearer, w') ↦
            inr
              (subst (Served fifo i calls) same (Served-within calls q' m' s' lt' w' (omega arith)))
      ]

-- Round-robin starves no lane: where lane `i` has slot `k` of the schedule, the cursor is inside the
-- schedule and lane `i` holds a value, any calls that shift at least as often as the schedule has
-- slots, with pushes to any lanes between, serve lane `i`.
pub shift_queue-Served :
    {E : Type 0} (fifo : Fifo (Next E)) (calls : List (Call E)) (q : LaneQueue fifo) (i k : ℕ)
    (x : Next E) (c : List (Next E))
    → q.mode ≡ wrr
    → q.cursor < length q.schedule
    → get_elem? q.schedule k ≡ some i
    → get_elem? (view fifo q.lanes) i ≡ some (x ∷ c)
    → length q.schedule ≤ shifts calls
    → Served fifo i calls q
shift_queue-Served fifo calls q i k x c m lt slot holds enough =
    let lk = lt_of_get_elem? q.schedule k i slot in
    Served-within fifo q.schedule i k slot calls q m refl lt (x, c, holds) (ground arith)
