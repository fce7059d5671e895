-- ===== src/Ranges/Difference.antt =====
-- `symmetricDifferenceRanges`: the points of the ranges that it returns.
use peerbit.Base.{ℕ, ◌≡◌, ◌⊎◌, ◌≢◌, ◌∙◌, not, ◌&&◌, arith, keep, ltb}
use peerbit.Ranges.{
  Range, contains, to_segments, difference_segments, merge_segments, difference_ranges,
  symmetric_difference,
}
use peerbit.Ranges.Merge.{merge_segments_lem}
use peerbit.Ranges.Segments.{
  covers, any_contains, covers-difference_segments, covers-keep, any_contains-build_ranges,
}

-- The second segment starts elsewhere than the first, or it is the first.
abbrev pub IsRegular : Range → Type 0
IsRegular r = (r.start1 ≢ r.start2) ⊎ (r.end1 ≡ r.end2)

-- The segments of a regular range cover what it contains.
pub covers-to_segments : (r : Range) (p : ℕ) → IsRegular r → covers (to_segments r) p ≡ contains r p
unfolding to_segments contains
covers-to_segments r p h = ground arith

any_contains-difference_ranges :
    (a b : Range) (p : ℕ)
    → IsRegular a
    → IsRegular b
    → any_contains (difference_ranges a b) p ≡ (contains a p && not (contains b p))
unfolding difference_ranges
any_contains-difference_ranges a b p ha hb =
    let raw = difference_segments (to_segments a) (to_segments b) in
    let valid = keep (λ s. ltb s.0 s.1) raw in
    any_contains-build_ranges a (merge_segments valid) p
    ∙ (merge_segments_lem valid p).0
    ∙ covers-keep raw p
    ∙ ground (
      arith,
      covers-difference_segments (to_segments a) (to_segments b) p,
      covers-to_segments a p ha,
      covers-to_segments b p hb,
    )

-- Of two regular ranges, the first list of `symmetricDifferenceRanges` contains exactly the points of
-- the first range that the second does not contain, and the second list exactly the points of the
-- second range that the first does not contain.
pub symmetric_difference_lem :
    (a b : Range) (p : ℕ)
    → IsRegular a
    → IsRegular b
    → (any_contains (symmetric_difference a b).0 p ≡ (contains a p && not (contains b p)))
      × (any_contains (symmetric_difference a b).1 p ≡ (contains b p && not (contains a p)))
unfolding symmetric_difference
symmetric_difference_lem a b p ha hb =
    (any_contains-difference_ranges a b p ha hb, any_contains-difference_ranges b a p hb ha)
