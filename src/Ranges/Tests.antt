-- ===== src/Ranges/Tests.antt =====
-- Ranges on a ring of 100 points, and the theorems at inputs that meet their hypotheses.
use peerbit.Base.{ℕ, ◌≡◌, refl, ◌↔◌, inl, inr, true, false, not, ◌&&◌, [], ◌∷◌, some, ltb, arith}
use peerbit.Ranges.Arc
use peerbit.Ranges.Arc.{steps_up}
use peerbit.Ranges.Difference
use peerbit.Ranges.Difference.{IsRegular}
use peerbit.Ranges.Merge
use peerbit.Ranges.Merge.{Apart}
use peerbit.Ranges.Overlap
use peerbit.Ranges.Overlap.{Meets}
use peerbit.Ranges.Segments.{covers, any_contains}
use peerbit.Ranges.{
  Range, non_strict, segments_from, width_of, create, contains, contains_last, touches, overlaps,
  to_segments, subtract, insert_sorted, sort_segments, merge_from, merge_sorted, merge_segments,
  pair_up, build_ranges, subtract_from_all, leftover, difference_segments, difference_ranges,
  symmetric_difference, above, below, closest, diff, get_distance,
}

program : Unit {0}
unfolding segments_from width_of create contains contains_last touches overlaps to_segments subtract
    insert_sorted sort_segments merge_from merge_sorted merge_segments pair_up build_ranges
    subtract_from_all leftover difference_segments difference_ranges symmetric_difference diff
    get_distance
program = tt

abbrev arc : ℕ → ℕ → ℕ → ℕ → ℕ → Range
arc start1 end1 start2 end2 width = record {
  id = 1 ∷ [];
  hash = "a";
  timestamp = 0;
  start1 = start1;
  end1 = end1;
  start2 = start2;
  end2 = end2;
  width = width;
  mode = non_strict;
}

abbrev wrapped : Range
wrapped = arc 90 100 0 5 15

abbrev plain : Range
plain = arc 95 98 95 98 3

runs :
    (create 100 (1 ∷ []) "a" 90 15 non_strict 0 ≡ some wrapped)
    × (create 100 (1 ∷ []) "a" 95 3 non_strict 0 ≡ some plain)
    × (contains wrapped 3 ≡ true)
    × (contains wrapped 5 ≡ false)
    × (symmetric_difference wrapped plain ≡ (arc 0 5 90 95 15 ∷ arc 98 100 98 100 15 ∷ [], []))
    × (get_distance 5 95 above 100 ≡ 10)
    × (get_distance 5 95 below 100 ≡ 90)
    × (get_distance 5 95 closest 100 ≡ 10)
unfolding program
runs = (refl, refl, refl, refl, refl, refl, refl, refl)

merges : merge_segments ((20, 25) ∷ (10, 20) ∷ (40, 50) ∷ []) ≡ (10, 25) ∷ (40, 50) ∷ []
unfolding program
merges = refl

create_arc_example :
    (r : Range) × (create 100 (1 ∷ []) "a" 90 15 non_strict 0 ≡ some r)
    × (r.width ≡ 15)
    × IsRegular r
    × (contains r 3 ≡ ltb (steps_up 100 90 3) 15)
create_arc_example =
    Arc.create_arc 100 (1 ∷ []) "a" 90 15 non_strict 0 3 (omega arith) (omega arith) (omega arith)

create_full_at_end_example :
    (r : Range) × (create 100 (1 ∷ []) "a" 100 100 non_strict 0 ≡ some r)
    × (r.width ≡ 0)
    × (contains r 100 ≡ false)
create_full_at_end_example = Arc.create_full_at_end 100 (1 ∷ []) "a" non_strict 0 100 (omega arith)

overlaps_iff_example : (overlaps wrapped plain true ≡ true) ↔ Meets wrapped plain
overlaps_iff_example = Overlap.overlaps_iff wrapped plain (omega arith) (omega arith)

merge_segments_lem_example :
    (covers (merge_segments ((20, 25) ∷ (10, 20) ∷ (40, 50) ∷ [])) 22
      ≡ covers ((20, 25) ∷ (10, 20) ∷ (40, 50) ∷ []) 22)
    × Apart (merge_segments ((20, 25) ∷ (10, 20) ∷ (40, 50) ∷ []))
merge_segments_lem_example = Merge.merge_segments_lem ((20, 25) ∷ (10, 20) ∷ (40, 50) ∷ []) 22

symmetric_difference_lem_example :
    (any_contains (symmetric_difference wrapped plain).0 99
      ≡ (contains wrapped 99 && not (contains plain 99)))
    × (any_contains (symmetric_difference wrapped plain).1 99
        ≡ (contains plain 99 && not (contains wrapped 99)))
symmetric_difference_lem_example =
    Difference.symmetric_difference_lem wrapped plain 99 (inl (omega arith)) (inr refl)
