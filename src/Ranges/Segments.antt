-- ===== src/Ranges/Segments.antt =====
-- The points that segments cover, and what the steps on lists of segments do to them.
use peerbit.Base.{
  ℕ, ◌≡◌, refl, ◌∙◌, Bool, false, not, ◌&&◌, ◌||◌, List, [], ◌∷◌, ◌++◌, ltb, leb, arith, keep,
}
use peerbit.Ranges.{
  Segment, Range, contains, subtract, insert_sorted, sort_segments, pair_up, subtract_from_all,
  leftover, difference_segments, build_ranges,
}

abbrev pub inside : Segment → ℕ → Bool
inside s p = leb s.0 p && ltb p s.1

abbrev pub covers : List Segment → ℕ → Bool
covers [] p = false
covers (s ∷ l) p = inside s p || covers l p

abbrev pub any_contains : List Range → ℕ → Bool
any_contains [] p = false
any_contains (r ∷ l) p = contains r p || any_contains l p

pub covers-append : (k l : List Segment) (p : ℕ) → covers (k ++ l) p ≡ (covers k p || covers l p)
covers-append [] l p = refl
covers-append (s ∷ k) l p = ground (arith, covers-append k l p)

-- What is left of one segment covers its points that the other one does not.
pub covers-subtract :
    (a b : Segment) (p : ℕ) → covers (subtract a b) p ≡ (inside a p && not (inside b p))
unfolding subtract
covers-subtract (a_start, a_end) (b_start, b_end) p = ground arith

pub covers-subtract_from_all :
    (l : List Segment) (b : Segment) (p : ℕ)
    → covers (subtract_from_all l b) p ≡ (covers l p && not (inside b p))
unfolding subtract_from_all
covers-subtract_from_all [] b p = refl
covers-subtract_from_all (a ∷ l) b p = ground (
  arith,
  covers-append (subtract a b) (subtract_from_all l b) p,
  covers-subtract a b p,
  covers-subtract_from_all l b p,
)

pub covers-leftover :
    (l bs : List Segment) (p : ℕ) → covers (leftover l bs) p ≡ (covers l p && not (covers bs p))
unfolding leftover
covers-leftover l [] p = ground arith
covers-leftover l (b ∷ bs) p =
    ground (arith, covers-leftover (subtract_from_all l b) bs p, covers-subtract_from_all l b p)

pub covers-difference_segments :
    (l bs : List Segment) (p : ℕ)
    → covers (difference_segments l bs) p ≡ (covers l p && not (covers bs p))
unfolding difference_segments
covers-difference_segments [] bs p = refl
covers-difference_segments (a ∷ l) bs p = ground (
  arith,
  covers-append (leftover (a ∷ []) bs) (difference_segments l bs) p,
  covers-leftover (a ∷ []) bs p,
  covers-difference_segments l bs p,
)

-- Dropping segments that hold no point changes nothing.
pub covers-keep : (l : List Segment) (p : ℕ) → covers (keep (λ s. ltb s.0 s.1) l) p ≡ covers l p
covers-keep [] p = refl
covers-keep (s ∷ l) p = ground (arith, covers-keep l p)

covers-insert_sorted :
    (s : Segment) (l : List Segment) (p : ℕ)
    → covers (insert_sorted s l) p ≡ (inside s p || covers l p)
unfolding insert_sorted
covers-insert_sorted s [] p = refl
covers-insert_sorted s (t ∷ l) p = ground (arith, covers-insert_sorted s l p)

pub covers-sort_segments : (l : List Segment) (p : ℕ) → covers (sort_segments l) p ≡ covers l p
unfolding sort_segments
covers-sort_segments [] p = refl
covers-sort_segments (s ∷ l) p =
    ground (arith, covers-insert_sorted s (sort_segments l) p, covers-sort_segments l p)

any_contains-pair_up :
    (template : Range) (l : List Segment) (p : ℕ) → any_contains (pair_up template l) p ≡ covers l p
unfolding pair_up contains
any_contains-pair_up template [] p = refl
any_contains-pair_up template (s ∷ []) p = ground arith
any_contains-pair_up template (s ∷ t ∷ l) p = ground (arith, any_contains-pair_up template l p)

pub any_contains-build_ranges :
    (template : Range) (l : List Segment) (p : ℕ)
    → any_contains (build_ranges l template) p ≡ covers l p
unfolding build_ranges
any_contains-build_ranges template l p =
    any_contains-pair_up template (sort_segments l) p ∙ covers-sort_segments l p
