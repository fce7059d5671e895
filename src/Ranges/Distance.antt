-- ===== src/Ranges/Distance.antt =====
-- The distances on the ring.
use peerbit.Base.{ℕ, ◌+◌, ◌%◌, ◌<◌, ◌≡◌, ◌≢◌, ◌⊎◌, ◌∙◌, ap, arith, min, inl, inr}
use native.Mathlib.Nat.{mod-eq_of_lt, mod-eq-sub-mod}
use peerbit.Ranges.{above, below, closest, get_distance}

mod_once : (n x m : ℕ) → x < m → (n ≡ x) ⊎ (n ≡ x + m) → n % m ≡ x
mod_once n x m lt (inl e) = rw e (mod-eq_of_lt lt)
mod_once n x m lt (inr e) =
    mod-eq-sub-mod {n = n} {m = m} (omega arith) ∙ ap (λ k. k % m) (omega arith) ∙ mod-eq_of_lt lt

-- On a ring of `end` points, the distance above takes `to` up to `from`, the distance below takes
-- `from` up to `to`, and of two different points the two add up to the whole ring; the closest
-- distance is the smaller of the two, and does not depend on the order of the points.
pub get_distance_lem :
    (from to end : ℕ)
    → from < end
    → to < end
    → from ≢ to
    → ((to + get_distance from to above end) % end ≡ from)
      × ((from + get_distance from to below end) % end ≡ to)
      × (get_distance from to above end + get_distance from to below end ≡ end)
      × (get_distance from to closest end
          ≡ min (get_distance from to above end) (get_distance from to below end))
      × (get_distance from to closest end ≡ get_distance to from closest end)
unfolding get_distance
get_distance_lem from to end lf lt ne = (
  mod_once (to + get_distance from to above end) from end lf (ground arith),
  mod_once (from + get_distance from to below end) to end lt (ground arith),
  ground arith,
  ground arith,
  ground arith,
)
