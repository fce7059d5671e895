-- ===== src/Ranges/Merge.antt =====
-- `mergeBigIntSegments` covers the same points by segments that are apart from one another.
use peerbit.Base.{
  ℕ, ◌≤◌, ◌<◌, ◌≡◌, refl, ◌∙◌, ◌||◌, List, [], ◌∷◌, ltb, leb, arith, if◌then◌else◌, Bool-cases, inl,
  inr,
}
use peerbit.Ranges.{Segment, insert_sorted, sort_segments, merge_from, merge_sorted, merge_segments}
use peerbit.Ranges.Segments.{inside, covers, covers-sort_segments}

-- The starts rise, from `least` on.
abbrev pub StartsFrom : ℕ → List Segment → Type 0
StartsFrom least [] = Unit
StartsFrom least (s ∷ l) = (least ≤ s.0) × StartsFrom s.0 l

-- Each segment begins after the end of the one before it, the first after `last`.
abbrev pub ApartFrom : ℕ → List Segment → Type 0
ApartFrom last [] = Unit
ApartFrom last (s ∷ l) = (last < s.0) × ApartFrom s.1 l

abbrev pub Apart : List Segment → Type 0
Apart [] = Unit
Apart (s ∷ l) = ApartFrom s.1 l

-- No segment ends before it starts.
abbrev pub Proper : List Segment → Type 0
Proper [] = Unit
Proper (s ∷ l) = (s.0 ≤ s.1) × Proper l

StartsFrom-weaken :
    (least least' : ℕ) (l : List Segment)
    → least' ≤ least
    → StartsFrom least l
    → StartsFrom least' l
StartsFrom-weaken least least' [] le h = tt
StartsFrom-weaken least least' (s ∷ l) le h = (omega arith, h.1)

insert_sorted-StartsFrom :
    (least : ℕ) (s : Segment) (l : List Segment)
    → least ≤ s.0
    → StartsFrom least l
    → StartsFrom least (insert_sorted s l)
unfolding insert_sorted
insert_sorted-StartsFrom least s [] le h = (le, tt)
insert_sorted-StartsFrom least s (t ∷ l) le h = elim (Bool-cases (leb s.0 t.0)) [
  | inl before ↦ rw before (le, (ground arith, h.1))
  | inr after ↦ rw after (h.0, insert_sorted-StartsFrom t.0 s l (ground arith) h.1)
]

pub sort_segments-StartsFrom : (l : List Segment) → StartsFrom 0 (sort_segments l)
unfolding sort_segments
sort_segments-StartsFrom [] = tt
sort_segments-StartsFrom (s ∷ l) =
    insert_sorted-StartsFrom 0 s (sort_segments l) (omega arith) (sort_segments-StartsFrom l)

covers-merge_from :
    (s : Segment) (l : List Segment) (p : ℕ)
    → StartsFrom s.0 l
    → covers (merge_from s l) p ≡ (inside s p || covers l p)
unfolding merge_from
covers-merge_from s [] p h = refl
covers-merge_from s (t ∷ l) p h = elim (Bool-cases (leb t.0 s.1)) [
  | inl joins ↦
      rw (joins, merge_from)
        (ground (
          arith,
          joins,
          covers-merge_from (s.0, if ltb t.1 s.1 then s.1 else t.1) l p
              (StartsFrom-weaken t.0 s.0 l h.0 h.1),
        ))
  | inr apart ↦ rw (apart, merge_from) (ground (arith, covers-merge_from t l p h.1))
]

-- A merged list starts where its first segment starts.
merge_from-ApartFrom :
    (last : ℕ) (s : Segment) (l : List Segment) → last < s.0 → ApartFrom last (merge_from s l)
unfolding merge_from
merge_from-ApartFrom last s [] h = (h, tt)
merge_from-ApartFrom last s (t ∷ l) h = elim (Bool-cases (leb t.0 s.1)) [
  | inl joins ↦
      rw (joins, merge_from) (merge_from-ApartFrom last (s.0, if ltb t.1 s.1 then s.1 else t.1) l h)
  | inr apart ↦ rw (apart, merge_from) (h, merge_from-ApartFrom s.1 t l (ground arith))
]

merge_from-Apart : (s : Segment) (l : List Segment) → Apart (merge_from s l)
unfolding merge_from
merge_from-Apart s [] = tt
merge_from-Apart s (t ∷ l) = elim (Bool-cases (leb t.0 s.1)) [
  | inl joins ↦ rw (joins, merge_from) (merge_from-Apart (s.0, if ltb t.1 s.1 then s.1 else t.1) l)
  | inr apart ↦ rw (apart, merge_from) (merge_from-ApartFrom s.1 t l (ground arith))
]

covers-merge_sorted :
    (l : List Segment) (p : ℕ) → StartsFrom 0 l → covers (merge_sorted l) p ≡ covers l p
unfolding merge_sorted
covers-merge_sorted [] p h = refl
covers-merge_sorted (s ∷ l) p h = covers-merge_from s l p h.1

merge_sorted-Apart : (l : List Segment) → Apart (merge_sorted l)
unfolding merge_sorted
merge_sorted-Apart [] = tt
merge_sorted-Apart (s ∷ l) = merge_from-Apart s l

-- `mergeBigIntSegments` covers exactly the points that the given segments cover, and each segment of
-- its result begins beyond the end of the one before it.
pub merge_segments_lem :
    (l : List Segment) (p : ℕ)
    → (covers (merge_segments l) p ≡ covers l p) × Apart (merge_segments l)
unfolding merge_segments
merge_segments_lem [] p = (refl, tt)
merge_segments_lem (s ∷ []) p = (refl, tt)
merge_segments_lem (s ∷ t ∷ l) p = (
  covers-merge_sorted (sort_segments (s ∷ t ∷ l)) p (sort_segments-StartsFrom (s ∷ t ∷ l))
      ∙ covers-sort_segments (s ∷ t ∷ l) p,
  merge_sorted-Apart (sort_segments (s ∷ t ∷ l)),
)
