-- ===== src/Lanes/Fairness.antt =====
-- Round-robin starves no lane that has a slot in the schedule.
use native.Mathlib.Nat.{mod-eq_of_lt, mod_self, mod-lt}
use peerbit.Base.Fifo.{Fifo}
use peerbit.Base.{
  ℕ, zero, suc, ◌+◌, ◌-◌, ◌%◌, ◌<◌, ◌≡◌, ◌≢◌, ◌⊎◌, inl, inr, ap, subst, ◌∙◌, false, none, some,
  List, [], ◌∷◌, get_elem?, length, arith, Bool-cases, leb, if◌then◌else◌, ℕ_discrete,
  get_elem?_of_lt, lt_of_get_elem?, get_elem?-set_other,
}
use peerbit.Lanes.{
  Next, wrr, ByteFifo, LaneQueue, probe, is_empty, after_shift, finish_wrr, shift_by, shift_queue,
}
use peerbit.Lanes.Shift.{shift_queue-mode}
use peerbit.Lanes.Views.{view, TakesAt, AllEmpty, shift_at-cases, is_empty-AllEmpty}

-- The slots from the cursor up to slot `k`, around the end of the schedule.
abbrev pub slots_until : ℕ → ℕ → ℕ → ℕ
slots_until total cursor k = if leb cursor k then k - cursor else k + total - cursor

next_slot :
    (total cursor k : ℕ)
    → cursor < total
    → k < total
    → cursor ≢ k
    → ((cursor + 1) % total < total)
      × (slots_until total ((cursor + 1) % total) k < slots_until total cursor k)
next_slot total cursor k lt lk ne = elim (ℕ_discrete (cursor + 1) total) [
  | yes last ↦ rw last (rw (mod_self total) (omega arith, ground arith))
  | no inner ↦
      rw (mod-eq_of_lt {n = cursor + 1} {m = total} (omega arith)) (omega arith, ground arith)
]

module _ {E : Type 0} (fifo : Fifo (Next E)) where
  not_AllEmpty :
      (l : List (List (Next E))) (i : ℕ) (x : Next E) (c : List (Next E))
      → get_elem? l i ≡ some (x ∷ c)
      → ¬ AllEmpty fifo l
  not_AllEmpty [] i x c holds all = cc holds
  not_AllEmpty (b ∷ l) zero x c holds (e, all) = cc holds
  not_AllEmpty (b ∷ l) (suc i) x c holds (e, all) = not_AllEmpty l i x c holds all

module _ {E : Type 0} (fifo : Fifo (Next E)) (schedule : List ℕ) (i k : ℕ)
    (slot : get_elem? schedule k ≡ some i) where
  -- Lane `i` is not empty.
  abbrev pub Waiting : List (ByteFifo fifo) → Type 0
  Waiting l = (x : Next E) × (c : List (Next E)) × (get_elem? (view fifo l) i ≡ some (x ∷ c))

  Waiting-occupied : (l : List (ByteFifo fifo)) → Waiting l → is_empty fifo l ≡ false
  Waiting-occupied l (x, c, holds) = elim (Bool-cases (is_empty fifo l)) [
    | inl e ↦ absurd (not_AllEmpty fifo (view fifo l) i x c holds (is_empty-AllEmpty fifo l e))
    | inr e ↦ e
  ]

  -- A value taken from another lane leaves this one waiting.
  stays_Waiting :
      (j : ℕ) (v : Next E) (l l' : List (ByteFifo fifo))
      → j ≢ i
      → TakesAt fifo j (view fifo l) v (view fifo l')
      → Waiting l
      → Waiting l'
  stays_Waiting j v l l' ne (rest, first, after) (x, c, holds) =
      (x, c, ap (λ b. get_elem? b i) after ∙ get_elem?-set_other (view fifo l) j i rest ne ∙ holds)

  not_Waiting :
      (j : ℕ) (l : List (ByteFifo fifo))
      → (get_elem? (view fifo l) j ≡ none) ⊎ (get_elem? (view fifo l) j ≡ some [])
      → Waiting l
      → j ≢ i
  not_Waiting j l (inl nothing) (x, c, holds) same =
      cc (ap (λ (n : ℕ). get_elem? (view fifo l) n) same)
  not_Waiting j l (inr nothing) (x, c, holds) same =
      cc (ap (λ (n : ℕ). get_elem? (view fifo l) n) same)

  -- Slot `k` is that of lane `i`, so the slot of another lane is not slot `k`.
  other_slot : (j cursor : ℕ) → get_elem? schedule cursor ≡ some j → j ≢ i → cursor ≢ k
  other_slot j cursor at other same = other (cc (ap (λ (n : ℕ). get_elem? schedule n) same))

  -- The value that the probes find is of lane `i`, or it brings the cursor closer to slot `k`.
  abbrev pub Progress : ℕ → List (ByteFifo fifo) → ℕ → Next E → List (ByteFifo fifo) → Type 0
  Progress cursor l c' v l' =
      TakesAt fifo i (view fifo l) v (view fifo l')
      ⊎ ((slots_until (length schedule) c' k < slots_until (length schedule) cursor k) × Waiting l')

  closer_still :
      (c1 c2 c3 : ℕ) (v : Next E) (l l' : List (ByteFifo fifo))
      → slots_until (length schedule) c2 k < slots_until (length schedule) c1 k
      → Progress c2 l c3 v l'
      → Progress c1 l c3 v l'
  closer_still c1 c2 c3 v l l' lt (inl takes) = inl takes
  closer_still c1 c2 c3 v l l' lt (inr (nearer, w)) = inr (omega arith, w)

  -- The probes find a value, of lane `i` or on the way to its slot.
  pub probe-Waiting :
      (n cursor : ℕ) (l : List (ByteFifo fifo))
      → cursor < length schedule
      → slots_until (length schedule) cursor k < n
      → Waiting l
      → (c' : ℕ) × (v : Next E) × (l' : List (ByteFifo fifo)) × (probe fifo schedule n cursor l
          ≡ (c', some (v, l')))
        × (c' < length schedule)
        × Progress cursor l c' v l'
  unfolding probe
  probe-Waiting zero cursor l lt near w = absurd (omega arith)
  probe-Waiting (suc n) cursor l lt near w =
      let (j, at) = get_elem?_of_lt schedule cursor lt in
      let lk = lt_of_get_elem? schedule k i slot in
      let next = (cursor + 1) % length schedule in
      elim (shift_at-cases fifo j l) [
        | inr (v, l', e, takes) ↦ elim (ℕ_discrete j i) [
          | yes same ↦ (
            next,
            v,
            l',
            rw (at, e, probe),
            mod-lt (cursor + 1) (omega arith),
            inl (subst (λ (x : ℕ). TakesAt fifo x (view fifo l) v (view fifo l')) same takes),
          )
          | no other ↦
              let (lt', closer) =
                next_slot (length schedule) cursor k lt lk (other_slot j cursor at other) in
              (
                next,
                v,
                l',
                rw (at, e, probe),
                lt',
                inr (closer, stays_Waiting j v l l' other takes w),
              )
        ]
        | inl (nothing, e) ↦
            let other = other_slot j cursor at (not_Waiting j l e w) in
            let (lt', closer) = next_slot (length schedule) cursor k lt lk other in
            let (c', v, l', found, lt'', end) = probe-Waiting n next l lt' (omega arith) w in
            (
              c',
              v,
              l',
              rw (at, nothing, probe) found,
              lt'',
              closer_still cursor next c' v l l' closer end,
            )
      ]

  -- `shift` under round-robin, while lane `i` waits and its slot is among the slots of the schedule.
  pub shift_queue-Progress :
      (q : LaneQueue fifo)
      → q.mode ≡ wrr
      → q.schedule ≡ schedule
      → q.cursor < length schedule
      → Waiting q.lanes
      → (v : Next E) × (q' : LaneQueue fifo) × (shift_queue fifo q ≡ (q', some v))
        × (q'.mode ≡ wrr)
        × (q'.schedule ≡ schedule)
        × (q'.cursor < length schedule)
        × Progress q.cursor q.lanes q'.cursor v q'.lanes
  unfolding shift_by finish_wrr after_shift
  shift_queue-Progress q m s lt w =
      let lk = lt_of_get_elem? schedule k i slot in
      let (c', v, l', found, lt', end) =
        probe-Waiting (length schedule) q.cursor q.lanes lt (ground arith) w in
      (
        v,
        record q { cursor = c'; lanes = l' },
        shift_queue-mode fifo q wrr (Waiting-occupied q.lanes w) m
            ∙ ap (finish_wrr fifo q)
                (ap (λ (t : List ℕ). probe fifo t (length t) q.cursor q.lanes) s ∙ found),
        m,
        s,
        lt',
        end,
      )
