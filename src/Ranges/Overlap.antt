-- ===== src/Ranges/Overlap.antt =====
-- `overlaps` looks only at the ends of the segments, and finds every shared point.
use peerbit.Base.{ℕ, ◌-◌, ◌<◌, ◌≡◌, ◌↔◌, ◌⊎◌, inl, inr, true, arith, Bool-cases}
use peerbit.Ranges.{Range, Segment, contains, contains_last, touches, overlaps}
use peerbit.Ranges.Segments.{inside}

-- Both segments hold a point.
abbrev pub IsFilled : Range → Type 0
IsFilled r = (r.start1 < r.end1) × (r.start2 < r.end2)

-- The ranges share a point.
abbrev pub Meets : Range → Range → Type 0
Meets r q = (p : ℕ) × (contains r p ≡ true) × (contains q p ≡ true)

-- The ends of the segments are points of the range.
contains-start1 : (q : Range) → IsFilled q → contains q q.start1 ≡ true
unfolding contains
contains-start1 q f = ground arith

contains-start2 : (q : Range) → IsFilled q → contains q q.start2 ≡ true
unfolding contains
contains-start2 q f = ground arith

contains-last1 : (q : Range) → IsFilled q → contains q (q.end1 - 1) ≡ true
unfolding contains
contains-last1 q f = ground arith

contains-last2 : (q : Range) → IsFilled q → contains q (q.end2 - 1) ≡ true
unfolding contains
contains-last2 q f = ground arith

touches-Meets : (r q : Range) → IsFilled q → touches r q ≡ true → Meets r q
unfolding touches contains_last
touches-Meets r q f h = elim (Bool-cases (contains r q.start1)) [
  | inl first ↦ (q.start1, first, contains-start1 q f)
  | inr a ↦ elim (Bool-cases (contains r q.start2)) [
    | inl second ↦ (q.start2, second, contains-start2 q f)
    | inr b ↦ elim (Bool-cases (contains_last r q.end1)) [
      | inl first ↦ (q.end1 - 1, ground arith, contains-last1 q f)
      | inr c ↦ (q.end2 - 1, ground arith, contains-last2 q f)
    ]
  ]
]

-- Of two segments that share a point, one holds the start of the other.
inside-start :
    (s t : Segment) (p : ℕ)
    → inside s p ≡ true
    → inside t p ≡ true
    → (inside s t.0 ≡ true) ⊎ (inside t s.0 ≡ true)
inside-start s t p hs ht = ground arith

-- A contained point lies in a segment, and what lies in a segment is contained.
contains-segment :
    (r : Range) (p : ℕ)
    → contains r p ≡ true
    → (inside (r.start1, r.end1) p ≡ true) ⊎ (inside (r.start2, r.end2) p ≡ true)
unfolding contains
contains-segment r p h = ground arith

contains_of_segment :
    (r : Range) (p : ℕ)
    → (inside (r.start1, r.end1) p ≡ true) ⊎ (inside (r.start2, r.end2) p ≡ true)
    → contains r p ≡ true
unfolding contains
contains_of_segment r p h = ground arith

-- If a point is shared, one range contains a start of the other.
abbrev SharesStart : Range → Range → Type 0
SharesStart r q =
    ((contains r q.start1 ≡ true) ⊎ (contains r q.start2 ≡ true))
    ⊎ ((contains q r.start1 ≡ true) ⊎ (contains q r.start2 ≡ true))

shared-start : (r q : Range) (p : ℕ) → contains r p ≡ true → contains q p ≡ true → SharesStart r q
shared-start r q p hr hq = go (contains-segment r p hr) (contains-segment q p hq)
  where
    go :
        (inside (r.start1, r.end1) p ≡ true) ⊎ (inside (r.start2, r.end2) p ≡ true)
        → (inside (q.start1, q.end1) p ≡ true) ⊎ (inside (q.start2, q.end2) p ≡ true)
        → SharesStart r q
    go (inl a) (inl b) = elim (inside-start (r.start1, r.end1) (q.start1, q.end1) p a b) [
      | inl h ↦ inl (inl (contains_of_segment r q.start1 (inl h)))
      | inr h ↦ inr (inl (contains_of_segment q r.start1 (inl h)))
    ]
    go (inl a) (inr b) = elim (inside-start (r.start1, r.end1) (q.start2, q.end2) p a b) [
      | inl h ↦ inl (inr (contains_of_segment r q.start2 (inl h)))
      | inr h ↦ inr (inl (contains_of_segment q r.start1 (inr h)))
    ]
    go (inr a) (inl b) = elim (inside-start (r.start2, r.end2) (q.start1, q.end1) p a b) [
      | inl h ↦ inl (inl (contains_of_segment r q.start1 (inr h)))
      | inr h ↦ inr (inr (contains_of_segment q r.start2 (inl h)))
    ]
    go (inr a) (inr b) = elim (inside-start (r.start2, r.end2) (q.start2, q.end2) p a b) [
      | inl h ↦ inl (inr (contains_of_segment r q.start2 (inr h)))
      | inr h ↦ inr (inr (contains_of_segment q r.start2 (inr h)))
    ]

Meets-sym : (r q : Range) → Meets r q → Meets q r
Meets-sym r q (p, hr, hq) = (p, hq, hr)

overlaps_of_start : (r q : Range) → SharesStart r q → overlaps r q true ≡ true
unfolding overlaps touches
overlaps_of_start r q h = ground arith

-- Of two ranges whose segments all hold points, `overlaps` is true exactly if some point is
-- contained in both.
pub overlaps_iff : (r q : Range) → IsFilled r → IsFilled q → (overlaps r q true ≡ true) ↔ Meets r q
unfolding overlaps
overlaps_iff r q fr fq = (
  λ h. elim (Bool-cases (touches r q)) [
    | inl direct ↦ touches-Meets r q fq direct
    | inr other ↦ Meets-sym q r (touches-Meets q r fr (ground arith))
  ],
  λ m. overlaps_of_start r q (shared-start r q m.0 m.1 m.2),
)
