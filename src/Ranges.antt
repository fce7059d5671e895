-- ===== src/Ranges.antt =====
-- packages/programs/data/shared-log/src/ranges.ts: replication ranges, arcs on the ring of
-- coordinates below `max`, which may wrap around its end.
-- Coordinates are whole numbers (u32 or u64; `max` is MAX_U32 or MAX_U64), so `Math.round` changes
-- nothing and the conversions between number and bigint are not needed. The identity of a range
-- (`id`, the owner's `hash`, `timestamp`, `mode`) is carried along.
pub mod Arc
pub mod Overlap
pub mod Segments
pub mod Merge
pub mod Difference
pub mod Distance
mod Tests
use Prim.Native.String.{String}
use peerbit.Base.{
  ℕ, ◌+◌, ◌-◌, ◌%◌, Bool, true, false, not, ◌&&◌, ◌||◌, Option, none, some, List, [], ◌∷◌, ◌++◌,
  ltb, leb, ◌==◌, if◌then◌else◌, keep,
}

-- `ReplicationIntent`
pub data Intent : Type 0 where
  non_strict strict : Intent

abbrev pub Segment : Type 0
Segment = ℕ × ℕ

-- `ReplicationRangeIndexable`
pub record Range : Type 0 where
  pub id : List ℕ
  pub hash : String
  pub timestamp : ℕ
  pub start1 : ℕ
  pub end1 : ℕ
  pub start2 : ℕ
  pub end2 : ℕ
  pub width : ℕ
  pub mode : Intent

-- `getSegmentsFromOffsetAndRange`, with zero at 0
unfoldable pub segments_from : ℕ → ℕ → ℕ → Segment × Segment
segments_from offset factor max =
    let end1_unscaled = offset + factor in
    let end1 = if ltb end1_unscaled max then end1_unscaled else max in
    (
      (offset, end1),
      if ltb max end1_unscaled
          then (0, (if factor == max then offset else offset + factor) % max)
          else (offset, end1),
    )

-- The width that `transform` computes.
unfoldable pub width_of : Segment × Segment → ℕ
width_of ((start1, end1), (start2, end2)) =
    end1 - start1 + (if ltb end2 end1 then end2 - start2 else 0)

-- The constructor with `transform`; `none` is its error "Segment coordinate out of bounds". A
-- negative width, which it also refuses, comes only from a start beyond `max`.
unfoldable pub create : ℕ → List ℕ → String → ℕ → ℕ → Intent → ℕ → Option Range
unfolding segments_from width_of
create max id hash offset factor mode timestamp =
    let (first, second) = segments_from offset factor max in
    let width = width_of (first, second) in
    if ltb max first.0 || ltb max first.1 || ltb max second.0 || ltb max second.1 || ltb max width
    then none
    else some (record {
      id = id;
      hash = hash;
      timestamp = timestamp;
      start1 = first.0;
      end1 = first.1;
      start2 = second.0;
      end2 = second.1;
      width = width;
      mode = mode;
    })

-- `contains`
unfoldable pub contains : Range → ℕ → Bool
contains r point =
    (leb r.start1 point && ltb point r.end1) || (leb r.start2 point && ltb point r.end2)

-- `contains(end - 1)`; no range contains the point -1.
unfoldable pub contains_last : Range → ℕ → Bool
unfolding contains
contains_last r end = if end == 0 then false else contains r (end - 1)

-- The test of `overlaps` in one direction.
unfoldable pub touches : Range → Range → Bool
unfolding contains contains_last
touches r other =
    contains r other.start1
    || contains r other.start2
    || contains_last r other.end1
    || contains_last r other.end2

-- `overlaps`; the second call is `other.overlaps(this, false)`.
unfoldable pub overlaps : Range → Range → Bool → Bool
unfolding touches
overlaps r other check_other =
    if touches r other then true else if check_other then touches other r else false

-- `toSegmentsBigInt`
unfoldable pub to_segments : Range → List Segment
to_segments r =
    if not (r.start2 == r.start1) && not (r.start2 == r.end2)
    then (r.start1, r.end1) ∷ (r.start2, r.end2) ∷ []
    else (r.start1, r.end1) ∷ []

-- `subtractBigIntSegment`
unfoldable pub subtract : Segment → Segment → List Segment
subtract (a_start, a_end) (b_start, b_end) =
    if leb b_end a_start || leb a_end b_start
    then (a_start, a_end) ∷ []
    else if leb b_start a_start && leb a_end b_end
    then []
    else ((if ltb a_start b_start then (a_start, b_start) ∷ [] else [])
        ++ (if ltb b_end a_end then (b_end, a_end) ∷ [] else []))

-- `segments.sort` by start, which is stable.
unfoldable pub insert_sorted : Segment → List Segment → List Segment
insert_sorted s [] = s ∷ []
insert_sorted s (t ∷ l) = if leb s.0 t.0 then s ∷ t ∷ l else t ∷ insert_sorted s l

unfoldable pub sort_segments : List Segment → List Segment
sort_segments [] = []
sort_segments (s ∷ l) = insert_sorted s (sort_segments l)

-- The loop of `mergeBigIntSegments`, with the segment that is being extended.
unfoldable pub merge_from : Segment → List Segment → List Segment
merge_from current [] = current ∷ []
merge_from current (next ∷ l) = elim (leb next.0 current.1) [
  | true ↦ merge_from (current.0, if ltb next.1 current.1 then current.1 else next.1) l
  | false ↦ current ∷ merge_from next l
]

-- `mergeBigIntSegments`: a list of fewer than two segments is returned as it is.
unfoldable pub merge_sorted : List Segment → List Segment
merge_sorted [] = []
merge_sorted (s ∷ l) = merge_from s l

unfoldable pub merge_segments : List Segment → List Segment
merge_segments [] = []
merge_segments (s ∷ []) = s ∷ []
merge_segments (s ∷ t ∷ l) = merge_sorted (sort_segments (s ∷ t ∷ l))

-- The loop of `buildRangesFromBigIntSegments`: two segments to a range, and the last one alone.
unfoldable pub pair_up : Range → List Segment → List Range
pair_up template [] = []
pair_up template (s ∷ []) =
    record template { start1 = s.0; end1 = s.1; start2 = s.0; end2 = s.1 } ∷ []
pair_up template (s ∷ t ∷ l) =
    record template { start1 = s.0; end1 = s.1; start2 = t.0; end2 = t.1 } ∷ pair_up template l

-- `buildRangesFromBigIntSegments`
unfoldable pub build_ranges : List Segment → Range → List Range
build_ranges segments template = pair_up template (sort_segments segments)

-- One pass of the inner loop of `symmetricDifferenceRanges`: a segment off every leftover.
unfoldable pub subtract_from_all : List Segment → Segment → List Segment
subtract_from_all [] b = []
subtract_from_all (a ∷ l) b = subtract a b ++ subtract_from_all l b

-- The inner loop: what the segments `bs` leave of the segments at hand.
unfoldable pub leftover : List Segment → List Segment → List Segment
leftover as_left [] = as_left
leftover as_left (b ∷ bs) = leftover (subtract_from_all as_left b) bs

-- The outer loop.
unfoldable pub difference_segments : List Segment → List Segment → List Segment
difference_segments [] bs = []
difference_segments (a ∷ l) bs = leftover (a ∷ []) bs ++ difference_segments l bs

-- The half of `symmetricDifferenceRanges` that gives the ranges of its first argument.
unfoldable pub difference_ranges : Range → Range → List Range
difference_ranges a b =
    let valid = keep (λ s. ltb s.0 s.1) (difference_segments (to_segments a) (to_segments b)) in
    build_ranges (merge_segments valid) a

-- `symmetricDifferenceRanges`
unfoldable pub symmetric_difference : Range → Range → List Range × List Range
symmetric_difference a b = (difference_ranges a b, difference_ranges b a)

pub data Direction : Type 0 where
  above below closest : Direction

unfoldable pub diff : ℕ → ℕ → ℕ
diff a b = if ltb a b then b - a else a - b

-- `getDistance`, for coordinates that are at most `end`
unfoldable pub get_distance : ℕ → ℕ → Direction → ℕ → ℕ
unfolding diff
get_distance from to closest end =
    if from == to
    then 0
    else if ltb (diff from to) (diff end (diff from to))
    then diff from to
    else diff end (diff from to)
get_distance from to above end = if leb from to then end - to + from else from - to
get_distance from to below end = if leb to from then end - from + to else to - from
