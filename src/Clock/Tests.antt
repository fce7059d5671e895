-- ===== src/Clock/Tests.antt =====
-- Runs of the clock on concrete readings, and the theorems at inputs that meet their hypotheses.
use Prim.Native.Nat.{Ordering}
use Prim.Native.Nat
use peerbit.Base.Outcome.{returns, throws}
use peerbit.Base.{ℕ, ◌≤◌, ◌≡◌, refl, ◌↔◌, List, [], ◌∷◌, arith}
use peerbit.Clock.{
  Timestamp, Hlc, LamportClock, forward_jump, clock_offset, wall_time_overflow, compare, bigger,
  smaller, create, validate_offset, max_wall_time, next_time, commit, update, now, advance,
  compare_clocks, equals, uint32_max,
}
use peerbit.Clock.Order.{Before}
use peerbit.Clock.Run
use peerbit.Clock.Run.{tick, receive, apply, run, Increases, Follows}
use peerbit.Clock.Update
use peerbit.Clock.Update.{WithinDrift}

program : Unit {0}
unfolding compare bigger smaller create validate_offset max_wall_time next_time commit update now
    advance compare_clocks equals apply run
program = tt

abbrev at : ℕ → ℕ → Timestamp
at w l = record { wall_time = w; logical = l }

abbrev clock : Hlc
clock = record {
  max_offset = 50;
  wall_time_upper_bound = 0;
  tolerated_forward_clock_jump = 100;
  last = at 20 3;
}

-- A received time ahead of the wall, a wall time ahead of it, an offset and a jump that are too
-- large.
updates :
    (update clock (at 30 7) 25 ≡ returns (record clock { last = at 30 8 }, at 30 8))
    × (update clock (at 30 7) 40 ≡ returns (record clock { last = at 40 0 }, at 40 0))
    × (update clock (at 90 0) 25 ≡ throws (clock_offset 65 50))
    × (update clock (at 30 7) 140 ≡ throws (forward_jump 110 100))
    × (update clock (at 30 uint32_max) 25 ≡ returns (record clock { last = at 31 0 }, at 31 0))
unfolding program
updates = (refl, refl, refl, refl, refl)

overflow :
    update (record clock { wall_time_upper_bound = 30 }) (at 30 uint32_max) 25
    ≡ throws (wall_time_overflow 31 30)
unfolding program
overflow = refl

update-Before_example :
    Before (at 30 7) (at 30 8)
    × Before (at 20 3) (at 30 8)
    × (record clock { last = at 30 8 } ≡ record clock { last = at 30 8 })
    × (25 ≤ 30)
    × (8 ≤ uint32_max)
    × (30 ≤ max_wall_time clock)
update-Before_example =
    Update.update-Before clock (record clock { last = at 30 8 }) (at 30 7) (at 30 8) 25 (updates.0)

update-returns_iff_example : ((r : Hlc × Timestamp) × (update clock (at 30 7) 25 ≡ returns r)) ↔ (
    WithinDrift clock (bigger (at 30 7) (at 20 3)) 25
    × ((next_time (bigger (at 30 7) (at 20 3)) 25).wall_time ≤ max_wall_time clock))
update-returns_iff_example = Update.update-returns_iff clock (at 30 7) 25

run-Increases_example :
    Increases (at 20 3) (at 21 0 ∷ at 30 8 ∷ at 30 9 ∷ [])
    × Follows (tick 21 ∷ receive (at 30 7) 25 ∷ tick 25 ∷ []) (at 21 0 ∷ at 30 8 ∷ at 30 9 ∷ [])
unfolding program
run-Increases_example =
    Run.run-Increases clock (record clock { last = at 30 9 })
      (tick 21 ∷ receive (at 30 7) 25 ∷ tick 25 ∷ []) (at 21 0 ∷ at 30 8 ∷ at 30 9 ∷ []) refl

-- The byte comparison: the first byte that differs decides, and a proper prefix comes first.
compare_bytes : List ℕ → List ℕ → Ordering
compare_bytes [] [] = Ordering.eq
compare_bytes [] (y ∷ ys) = Ordering.lt
compare_bytes (x ∷ xs) [] = Ordering.gt
compare_bytes (x ∷ xs) (y ∷ ys) =
    let rest = compare_bytes xs ys in
    elim (Nat.compare x y) [
      | Ordering.lt ↦ Ordering.lt
      | Ordering.gt ↦ Ordering.gt
      | Ordering.eq ↦ rest
    ]

compare_bytes-flip :
    (x y : List ℕ) → (compare_bytes x y ≡ Ordering.lt) ↔ (compare_bytes y x ≡ Ordering.gt)
unfolding compare_bytes
compare_bytes-flip [] [] = (λ h. cc, λ h. cc)
compare_bytes-flip [] (y ∷ ys) = (λ h. refl, λ h. refl)
compare_bytes-flip (x ∷ xs) [] = (λ h. cc, λ h. cc)
compare_bytes-flip (x ∷ xs) (y ∷ ys) =
    (λ h. ground (arith, compare_bytes-flip xs ys), λ h. ground (arith, compare_bytes-flip xs ys))

compare_bytes-same : (x y : List ℕ) → (compare_bytes x y ≡ Ordering.eq) ↔ (x ≡ y)
unfolding compare_bytes
compare_bytes-same [] [] = (λ h. refl, λ h. refl)
compare_bytes-same [] (y ∷ ys) = (λ h. cc, λ h. cc)
compare_bytes-same (x ∷ xs) [] = (λ h. cc, λ h. cc)
compare_bytes-same (x ∷ xs) (y ∷ ys) =
    (λ h. ground (arith, compare_bytes-same xs ys), λ h. ground (arith, compare_bytes-same xs ys))

compare_bytes-chain :
    (x y z : List ℕ)
    → compare_bytes x y ≡ Ordering.lt
    → compare_bytes y z ≡ Ordering.lt
    → compare_bytes x z ≡ Ordering.lt
unfolding compare_bytes
compare_bytes-chain [] [] z p q = cc
compare_bytes-chain [] (y ∷ ys) [] p q = cc
compare_bytes-chain [] (y ∷ ys) (z ∷ zs) p q = refl
compare_bytes-chain (x ∷ xs) [] z p q = cc
compare_bytes-chain (x ∷ xs) (y ∷ ys) [] p q = cc
compare_bytes-chain (x ∷ xs) (y ∷ ys) (z ∷ zs) p q = ground (
  arith,
  compare_bytes-chain xs ys zs,
  compare_bytes-same xs ys,
  compare_bytes-same ys zs,
  compare_bytes-same xs zs,
)

abbrev peer : ℕ → ℕ → LamportClock
peer b w = record { id = b ∷ []; timestamp = at w 0 }
