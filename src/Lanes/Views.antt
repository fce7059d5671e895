-- ===== src/Lanes/Views.antt =====
-- The lanes by what they hold.
use peerbit.Base.Fifo.{Fifo, seen_as, uncons}
use peerbit.Base.{
  ℕ, zero, suc, ◌-◌, ◌≡◌, ◌⊎◌, inl, inr, refl, ap, true, Option, none, some, List, [], ◌∷◌,
  get_elem?, set, take, arith,
}
use peerbit.Lanes.{Next, bytes, ByteFifo, shift_lane, shift_at, scan, is_empty}

module _ {E : Type 0} (fifo : Fifo (Next E)) where
  open fifo use {Queue, push, shift, contents, contents_shift, contents_push}

  -- What each lane holds.
  abbrev pub view : List (ByteFifo fifo) → List (List (Next E))
  view [] = []
  view (b ∷ l) = contents b.queue ∷ view l

  -- A queue with nothing in it gives nothing, any other its first value.
  abbrev pub Front : Queue → Type 0
  Front q =
      ((contents q ≡ []) × (shift q ≡ none))
      ⊎ ((v : Next E) × (q' : Queue) × (shift q ≡ some (v, q')) × (contents q ≡ v ∷ contents q'))

  pub shift-cases : (q : Queue) → Front q
  shift-cases q = go (shift q) (contents q) refl refl (contents_shift q)
    where
      go :
          (r : Option (Next E × Queue)) (c : List (Next E))
          → shift q ≡ r
          → contents q ≡ c
          → seen_as contents (shift q) ≡ uncons (contents q)
          → Front q
      go none [] p e h = inl (e, p)
      go none (x ∷ c) p e h = cc
      go (some (v, q')) [] p e h = cc
      go (some (v, q')) (x ∷ c) p e h = inr (v, q', p, cc)

  -- `v` is the first value of lane `i`, and it is taken off: no other lane changes.
  abbrev pub TakesAt : ℕ → List (List (Next E)) → Next E → List (List (Next E)) → Type 0
  TakesAt i before v after =
      (rest : List (Next E)) × (get_elem? before i ≡ some (v ∷ rest)) × (after ≡ set before i rest)

  -- A shift of a lane that is not there or empty gives nothing, any other takes its first value.
  pub shift_at-cases :
      (i : ℕ) (l : List (ByteFifo fifo))
      → ((shift_at fifo i l ≡ none)
          × ((get_elem? (view l) i ≡ none) ⊎ (get_elem? (view l) i ≡ some [])))
        ⊎ ((v : Next E) × (l' : List (ByteFifo fifo)) × (shift_at fifo i l ≡ some (v, l'))
            × TakesAt i (view l) v (view l'))
  unfolding shift_at shift_lane
  shift_at-cases i [] = inl (refl, inl refl)
  shift_at-cases zero (b ∷ l) = elim (shift-cases b.queue) [
    | inl (nothing, e) ↦ inl (rw (e, shift_lane, shift_at), inr (ap some nothing))
    | inr (v, q', e, first) ↦ inr (
      v,
      record { queue = q'; size = b.size - bytes v } ∷ l,
      rw (e, shift_lane, shift_at),
      (contents q', ap some first, refl),
    )
  ]
  shift_at-cases (suc i) (b ∷ l) = elim (shift_at-cases i l) [
    | inl (nothing, e) ↦ inl (rw (nothing, shift_at), e)
    | inr (v, l', e, (rest, first, after)) ↦
        inr (
          v,
          b ∷ l',
          rw (e, shift_lane, shift_at),
          (rest, first, ap (◌∷◌ (contents b.queue)) after),
        )
  ]

  -- Each lane is empty.
  abbrev pub AllEmpty : List (List (Next E)) → Type 0
  AllEmpty [] = Unit
  AllEmpty (c ∷ l) = (c ≡ []) × AllEmpty l

  pub is_empty-AllEmpty : (l : List (ByteFifo fifo)) → is_empty fifo l ≡ true → AllEmpty (view l)
  unfolding is_empty
  is_empty-AllEmpty [] h = tt
  is_empty-AllEmpty (b ∷ l) h = elim (shift-cases b.queue) [
    | inl (nothing, e) ↦ (nothing, is_empty-AllEmpty l (ground arith))
    | inr (v, q', e, first) ↦ absurd (ground arith)
  ]

  pub AllEmpty-is_empty : (l : List (ByteFifo fifo)) → AllEmpty (view l) → is_empty fifo l ≡ true
  unfolding is_empty
  AllEmpty-is_empty [] h = refl
  AllEmpty-is_empty (b ∷ l) h = elim (shift-cases b.queue) [
    | inl (nothing, e) ↦ rw (e, is_empty) (AllEmpty-is_empty l h.1)
    | inr (v, q', e, first) ↦ cc (h.0)
  ]

  -- The scan takes the first value of the first lane that has one.
  pub scan-cases :
      (l : List (ByteFifo fifo))
      → ((scan fifo l ≡ none) × AllEmpty (view l))
        ⊎ ((i : ℕ) × (v : Next E) × (l' : List (ByteFifo fifo)) × (scan fifo l ≡ some (v, l'))
            × TakesAt i (view l) v (view l')
            × AllEmpty (take i (view l)))
  unfolding scan shift_lane
  scan-cases [] = inl (refl, tt)
  scan-cases (b ∷ l) = elim (shift-cases b.queue) [
    | inr (v, q', e, first) ↦ inr (
      0,
      v,
      record { queue = q'; size = b.size - bytes v } ∷ l,
      rw (e, shift_lane, scan),
      (contents q', ap some first, refl),
      tt,
    )
    | inl (nothing, e) ↦ elim (scan-cases l) [
      | inl (none_left, all) ↦ inl (rw (e, shift_lane, scan) (rw none_left), (nothing, all))
      | inr (i, v, l', found, (rest, first, after), before) ↦ inr (
        suc i,
        v,
        b ∷ l',
        rw (e, shift_lane, scan) (rw found),
        (rest, first, ap (◌∷◌ (contents b.queue)) after),
        (nothing, before),
      )
    ]
  ]
