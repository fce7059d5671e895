-- ===== src/Sorting/Tests.antt =====
-- Concrete entries in order, and the theorems at them.
use Prim.Native.Nat.{Ordering}
use peerbit.Base.{ℕ, ◌≡◌, ◌≢◌, ◌↔◌, refl, true, [], ◌∷◌}
use peerbit.Clock.{compare}
use peerbit.Roots.{text_before}
use peerbit.Sorting.Order.{compare_entries-compare, answers_iff}
use peerbit.Sorting.{
  Entry, field, value_before, directed, compare_by, compare_entries, last_write_wins,
  first_write_wins, sort_by_entry_hash, answers,
}

abbrev early : Entry
early = record { timestamp = record { wall_time = 5; logical = 1 }; gid = []; hash = 98 ∷ [] }

abbrev late : Entry
late = record { timestamp = record { wall_time = 5; logical = 2 }; gid = []; hash = 97 ∷ [] }

orders :
    (compare_entries early late last_write_wins ≡ Ordering.lt)
    × (compare_entries early late first_write_wins ≡ Ordering.gt)
    × (compare_entries early late sort_by_entry_hash ≡ Ordering.gt)
unfolding compare_entries compare_by last_write_wins first_write_wins sort_by_entry_hash field
    value_before directed text_before
orders = (refl, refl, refl)

compare_entries-compare_example :
    (compare_entries early late last_write_wins ≡ compare early.timestamp late.timestamp)
    × (compare_entries early late first_write_wins ≡ compare late.timestamp early.timestamp)
compare_entries-compare_example = compare_entries-compare early late

answers_iff_example :
    ((answers (last_write_wins.before early) late ≡ true)
      ↔ ((compare_entries late early last_write_wins ≡ Ordering.lt) × (◌≢◌ {A = ℕ} 5 5)))
    × ((answers (last_write_wins.after early) late ≡ true)
        ↔ ((compare_entries late early last_write_wins ≡ Ordering.gt) × (◌≢◌ {A = ℕ} 5 5)))
    × ((answers (first_write_wins.before early) late ≡ true)
        ↔ ((compare_entries late early first_write_wins ≡ Ordering.lt) × (◌≢◌ {A = ℕ} 5 5)))
    × ((answers (first_write_wins.after early) late ≡ true)
        ↔ ((compare_entries late early first_write_wins ≡ Ordering.gt) × (◌≢◌ {A = ℕ} 5 5)))
answers_iff_example = answers_iff early late
