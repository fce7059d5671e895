-- ===== src/Clock/Lamport.antt =====
-- The clock that an entry carries.
use Prim.Native.Nat.{Ordering}
use peerbit.Base.Outcome.{returns, returns-bind}
use peerbit.Base.{ℕ, ◌≡◌, ◌↔◌, ◌⊎◌, ap, subst, List, none, arith}
use peerbit.Clock.{LamportClock, create, update, now, advance, compare_clocks}
use peerbit.Clock.Order.{Before, Before-trans, compare-lt_iff, compare-eq_iff, compare-gt_iff}
use peerbit.Clock.Update.{update-Before, now-Before}

-- `LamportClock.advance` keeps the id and returns a strictly later timestamp.
pub advance-Before :
    (c d : LamportClock) (t0 t1 t2 : ℕ)
    → advance c t0 t1 t2 ≡ returns d
    → (d.id ≡ c.id) × Before c.timestamp d.timestamp
unfolding advance
advance-Before c d t0 t1 t2 p =
    let ((h, s), first, rest) =
      returns-bind (update (create t0 none none none none) c.timestamp t1) _ p in
    let ((h', t), second, done) = returns-bind (now h t2) _ rest in
    let (after, _, next, _, _, _) = update-Before _ h c.timestamp s t1 first in
    let later = now-Before h h' t t2 second in
    let from_s = subst (λ u. Before u t) (ap (λ r. r.last) next) later in
    let through = Before-trans c.timestamp s t after from_s in
    (ground arith, subst (λ u. Before c.timestamp u) (ground arith) through)

LamportClock-eq : (a b : LamportClock) → a.id ≡ b.id → a.timestamp ≡ b.timestamp → a ≡ b
LamportClock-eq a b p q = λ i. record { id = p i; timestamp = q i }

module _ (compare_bytes : List ℕ → List ℕ → Ordering) (a b : LamportClock) where
  compare_clocks-lt_iff : (compare_clocks compare_bytes a b ≡ Ordering.lt) ↔ (
      Before a.timestamp b.timestamp
      ⊎ ((a.timestamp ≡ b.timestamp) × (compare_bytes a.id b.id ≡ Ordering.lt)))
  unfolding compare_clocks
  compare_clocks-lt_iff = (
    λ h.
        ground
          (arith, compare-lt_iff a.timestamp b.timestamp, compare-eq_iff a.timestamp b.timestamp),
    λ h.
        ground
          (arith, compare-lt_iff a.timestamp b.timestamp, compare-eq_iff a.timestamp b.timestamp),
  )

  compare_clocks-gt_iff : (compare_clocks compare_bytes a b ≡ Ordering.gt) ↔ (
      Before b.timestamp a.timestamp
      ⊎ ((a.timestamp ≡ b.timestamp) × (compare_bytes a.id b.id ≡ Ordering.gt)))
  unfolding compare_clocks
  compare_clocks-gt_iff = (
    λ h.
        ground
          (arith, compare-gt_iff a.timestamp b.timestamp, compare-eq_iff a.timestamp b.timestamp),
    λ h.
        ground
          (arith, compare-gt_iff a.timestamp b.timestamp, compare-eq_iff a.timestamp b.timestamp),
  )

  compare_clocks-eq_iff :
      (compare_clocks compare_bytes a b ≡ Ordering.eq)
      ↔ ((a.timestamp ≡ b.timestamp) × (compare_bytes a.id b.id ≡ Ordering.eq))
  unfolding compare_clocks
  compare_clocks-eq_iff = (
    λ h. ground (arith, compare-eq_iff a.timestamp b.timestamp),
    λ h. ground (arith, compare-eq_iff a.timestamp b.timestamp),
  )

module _ (compare_bytes : List ℕ → List ℕ → Ordering)
    (flip : (x y : List ℕ) → (compare_bytes x y ≡ Ordering.lt) ↔ (compare_bytes y x ≡ Ordering.gt))
    (same : (x y : List ℕ) → (compare_bytes x y ≡ Ordering.eq) ↔ (x ≡ y)) where
  -- If the byte comparison of ids is antisymmetric and says 0 exactly of equal bytes, then
  -- `LamportClock.compare` says -1 of a pair exactly when it says 1 of the swapped pair, and 0 exactly
  -- of equal clocks: the clocks of different peers are always ordered.
  pub compare_clocks_total :
      (a b : LamportClock)
      → ((compare_clocks compare_bytes a b ≡ Ordering.lt)
          ↔ (compare_clocks compare_bytes b a ≡ Ordering.gt))
        × ((compare_clocks compare_bytes a b ≡ Ordering.eq) ↔ (a ≡ b))
  compare_clocks_total a b = (
    (
      λ h. ground (
        arith,
        (compare_clocks-lt_iff compare_bytes a b).0 h,
        compare_clocks-gt_iff compare_bytes b a,
        flip a.id b.id,
      ),
      λ h. ground (
        arith,
        (compare_clocks-gt_iff compare_bytes b a).0 h,
        compare_clocks-lt_iff compare_bytes a b,
        flip a.id b.id,
      ),
    ),
    (
      λ h.
          let (times, ids) = (compare_clocks-eq_iff compare_bytes a b).0 h in
          LamportClock-eq a b ((same a.id b.id).0 ids) times,
      λ h. ground (arith, compare_clocks-eq_iff compare_bytes a b, same a.id b.id),
    ),
  )

module _ (compare_bytes : List ℕ → List ℕ → Ordering)
    (chain : (x y z : List ℕ)
      → compare_bytes x y ≡ Ordering.lt
      → compare_bytes y z ≡ Ordering.lt
      → compare_bytes x z ≡ Ordering.lt) where
  -- If the byte comparison of ids is transitive at -1, so is `LamportClock.compare`.
  pub compare_clocks_trans :
      (a b c : LamportClock)
      → compare_clocks compare_bytes a b ≡ Ordering.lt
      → compare_clocks compare_bytes b c ≡ Ordering.lt
      → compare_clocks compare_bytes a c ≡ Ordering.lt
  compare_clocks_trans a b c p q = (compare_clocks-lt_iff compare_bytes a c).1 (
      ground (
        arith,
        (compare_clocks-lt_iff compare_bytes a b).0 p,
        (compare_clocks-lt_iff compare_bytes b c).0 q,
        chain a.id b.id c.id,
      ))
