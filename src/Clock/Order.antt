-- ===== src/Clock/Order.antt =====
-- The order of timestamps: wall time first, then the logical counter.
use Prim.Native.Nat.{Ordering}
use peerbit.Base.{◌<◌, ◌≡◌, ◌↔◌, ◌⊎◌, arith}
use peerbit.Clock.{Timestamp, compare, bigger, smaller}

-- `a` is strictly earlier than `b`.
abbrev pub Before : Timestamp → Timestamp → Type 0
Before a b = (a.wall_time < b.wall_time) ⊎ ((a.wall_time ≡ b.wall_time) × (a.logical < b.logical))

-- Two timestamps with equal fields are one.
pub Timestamp-eq : (a b : Timestamp) → a.wall_time ≡ b.wall_time → a.logical ≡ b.logical → a ≡ b
Timestamp-eq a b p q = λ i. record { wall_time = p i; logical = q i }

pub compare-lt_iff : (a b : Timestamp) → (compare a b ≡ Ordering.lt) ↔ Before a b
unfolding compare
compare-lt_iff a b = (λ h. ground arith, λ h. ground arith)

pub compare-gt_iff : (a b : Timestamp) → (compare a b ≡ Ordering.gt) ↔ Before b a
unfolding compare
compare-gt_iff a b = (λ h. ground arith, λ h. ground arith)

pub compare-eq_iff : (a b : Timestamp) → (compare a b ≡ Ordering.eq) ↔ (a ≡ b)
unfolding compare
compare-eq_iff a b = (λ h. Timestamp-eq a b (ground arith) (ground arith), λ h. ground arith)

pub Before-trans : (a b c : Timestamp) → Before a b → Before b c → Before a c
Before-trans a b c p q = omega arith

pub not-Before-self : (a : Timestamp) → ¬ Before a a
not-Before-self a h = omega arith

pub bigger-not_Before : (a b : Timestamp) → (¬ Before (bigger a b) a) × (¬ Before (bigger a b) b)
unfolding bigger
bigger-not_Before a b = (λ h. ground arith, λ h. ground arith)

pub bigger-mem : (a b : Timestamp) → (bigger a b ≡ a) ⊎ (bigger a b ≡ b)
unfolding bigger
bigger-mem a b = ground arith

-- `Timestamp.compare` says -1 of a pair exactly when it says 1 of the swapped pair, and 0 exactly of
-- equal timestamps, so that it orders any two different timestamps.
pub compare_total :
    (a b : Timestamp)
    → ((compare a b ≡ Ordering.lt) ↔ (compare b a ≡ Ordering.gt))
      × ((compare a b ≡ Ordering.eq) ↔ (a ≡ b))
compare_total a b = (
  (
    λ h. (compare-gt_iff b a).1 ((compare-lt_iff a b).0 h),
    λ h. (compare-lt_iff a b).1 ((compare-gt_iff b a).0 h),
  ),
  compare-eq_iff a b,
)

-- `Timestamp.bigger` and `Timestamp.smaller` return one of their arguments each: neither argument
-- is later than the bigger one, and neither is earlier than the smaller one.
pub bigger-smaller :
    (a b : Timestamp)
    → ((bigger a b ≡ a) ⊎ (bigger a b ≡ b))
      × ((smaller a b ≡ a) ⊎ (smaller a b ≡ b))
      × (¬ Before (bigger a b) a)
      × (¬ Before (bigger a b) b)
      × (¬ Before a (smaller a b))
      × (¬ Before b (smaller a b))
unfolding bigger smaller
bigger-smaller a b = (
  ground arith,
  ground arith,
  λ h. ground arith,
  λ h. ground arith,
  λ h. ground arith,
  λ h. ground arith,
)
