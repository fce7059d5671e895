-- ===== src/Sorting/Order.antt =====
-- The orders by time are those of the clock.
use Prim.Native.Nat.{Ordering}
use peerbit.Base.{◌≡◌, ◌≢◌, ◌↔◌, true, arith}
use peerbit.Clock.{compare}
use peerbit.Sorting.{
  Entry, field, value_before, directed, compare_by, compare_entries, last_write_wins,
  first_write_wins, answers,
}

last_write_wins-compare :
    (a b : Entry) → compare_entries a b last_write_wins ≡ compare a.timestamp b.timestamp
unfolding compare_entries compare_by last_write_wins field value_before directed compare
last_write_wins-compare a b = ground arith

first_write_wins-compare :
    (a b : Entry) → compare_entries a b first_write_wins ≡ compare b.timestamp a.timestamp
unfolding compare_entries compare_by first_write_wins field value_before directed compare
first_write_wins-compare a b = ground arith

-- Sorting by the last write compares entries as `Timestamp.compare` compares their timestamps, and
-- sorting by the first write compares them the other way round.
pub compare_entries-compare :
    (a b : Entry)
    → (compare_entries a b last_write_wins ≡ compare a.timestamp b.timestamp)
      × (compare_entries a b first_write_wins ≡ compare b.timestamp a.timestamp)
compare_entries-compare a b = (last_write_wins-compare a b, first_write_wins-compare a b)

-- The entries that the query `before` of an order by time asks for, by the last or the first write,
-- are exactly those that come before the entry and have another wall time; those that differ by the
-- logical time alone are left out. The same holds of `after`.
pub answers_iff :
    (e x : Entry)
    → ((answers (last_write_wins.before e) x ≡ true) ↔ (
        (compare_entries x e last_write_wins ≡ Ordering.lt)
        × (x.timestamp.wall_time ≢ e.timestamp.wall_time)))
      × ((answers (last_write_wins.after e) x ≡ true) ↔ (
          (compare_entries x e last_write_wins ≡ Ordering.gt)
          × (x.timestamp.wall_time ≢ e.timestamp.wall_time)))
      × ((answers (first_write_wins.before e) x ≡ true) ↔ (
          (compare_entries x e first_write_wins ≡ Ordering.lt)
          × (x.timestamp.wall_time ≢ e.timestamp.wall_time)))
      × ((answers (first_write_wins.after e) x ≡ true) ↔ (
          (compare_entries x e first_write_wins ≡ Ordering.gt)
          × (x.timestamp.wall_time ≢ e.timestamp.wall_time)))
unfolding answers compare_entries compare_by last_write_wins first_write_wins field value_before
    directed
answers_iff e x = (
  (λ h. ground arith, λ h. ground arith),
  (λ h. ground arith, λ h. ground arith),
  (λ h. ground arith, λ h. ground arith),
  (λ h. ground arith, λ h. ground arith),
)
