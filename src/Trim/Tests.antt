-- ===== src/Trim/Tests.antt =====
-- Trims of lists of nodes, and the theorems at inputs that meet their hypotheses.
use mathlib.Core.List.{List-discrete}
use peerbit.Base.{
  ℕ, ◌-◌, ◌≡◌, ◌≤◌, refl, Bool, true, false, none, some, List, [], ◌∷◌, ◌++◌, length, ltb,
  if◌then◌else◌, min, arith, ℕ_discrete,
}
use peerbit.EntryIndex.Kept.{table_cache}
use peerbit.EntryIndex.{EntryCache}
use peerbit.Trim.Listed.{trim_task-list_returns}
use peerbit.Trim.Filtered.{AllAllowed, trim_task-AllAllowed}
use peerbit.Trim.Oldest.{Removes, Finished}
use peerbit.Trim.Sorted.{reporting_log, list_log, sum_nodes}
use peerbit.Trim.Ties.{trim_task-AllTied}
use peerbit.Trim.Times.{Increasing, list_order}
use peerbit.Trim.Whole.{trim_task-Removes, trim_task-length}
use peerbit.Trim.{Log, Trim, below_from, trim_task}
use peerbit.TrimOptions.{Node, TrimOptions, TrimCondition, to_length, to_bytelength, from_or_to}

abbrev texts : Discrete (List ℕ)
texts = List-discrete ℕ_discrete

abbrev log : Log (List ℕ)
log = list_log texts

abbrev marks : EntryCache (List ℕ)
marks = table_cache texts

-- A node of ten bytes
abbrev node : ℕ → ℕ → Node (List ℕ)
node hash time = record {
  hash = hash ∷ [];
  gid = hash ∷ [];
  timestamp = record { wall_time = time; logical = 0 };
  size = 10;
}

abbrev fresh : List (Node (List ℕ)) → Trim texts log marks
fresh l = record {
  last_node = none;
  last_head = none;
  last_tail = none;
  last_length = 0;
  last_options = none;
  last_seed = none;
  breakpoints = [];
  log = l;
}

abbrev three : List (Node (List ℕ))
three = node 1 5 ∷ node 2 6 ∷ node 3 7 ∷ []

abbrev unfiltered : TrimCondition → TrimOptions (List ℕ)
unfiltered condition = record { condition = condition; filter = none }

-- The nodes but that with hash 1 may go.
abbrev may_go : List ℕ → Bool
may_go [] = true
may_go (k ∷ l) = ltb 1 k

abbrev filtered : TrimOptions (List ℕ)
filtered = record {
  condition = to_length 1 none;
  filter = some (record { identity = 0; can_trim = λ n. may_go n.gid; cache_id = none });
}

-- A log that reports one entry less than it has
abbrev short_log : Log (List ℕ)
short_log = reporting_log texts (λ l. length l - 1)

abbrev short : Trim texts short_log marks
short = record {
  last_node = none;
  last_head = none;
  last_tail = none;
  last_length = 0;
  last_options = none;
  last_seed = none;
  breakpoints = [];
  log = node 1 5 ∷ node 2 5 ∷ node 3 4 ∷ [];
}

trim_task-list_returns_example :
    (t' : Trim texts short_log marks) × (gone : List (Node (List ℕ))) × (trim_task texts short_log
        marks 0
        (some filtered)
        short
      ≡ some (t', gone))
trim_task-list_returns_example =
    trim_task-list_returns texts marks (λ l. length l - 1) 0 (some filtered) short

three-Increasing : Increasing texts three
three-Increasing = (
  (omega arith, (λ e. cc e), (omega arith, (λ e. cc e), tt)),
  ((omega arith, (λ e. cc e), tt), (tt, tt)),
)

large_enough : below_from texts log marks (to_bytelength 15 (some 20)) three ≡ false
unfolding below_from sum_nodes from_or_to
large_enough = refl

trim_task-Removes_example :
    (t' : Trim texts log marks) × (gone : List (Node (List ℕ))) × (trim_task texts log marks 0
        (some (unfiltered (to_bytelength 15 (some 20))))
        (fresh three)
      ≡ some (t', gone))
    × (three ≡ gone ++ t'.log)
    × Increasing texts t'.log
    × Removes texts log marks
        (list_order texts)
        0
        (unfiltered (to_bytelength 15 (some 20)))
        three
        gone
        t'.log
    × Finished texts log marks (list_order texts) 0 (unfiltered (to_bytelength 15 (some 20))) t'.log
trim_task-Removes_example =
    trim_task-Removes texts log marks (list_order texts) 0 (unfiltered (to_bytelength 15 (some 20)))
      (fresh three) refl three-Increasing large_enough

trim_task-length_example :
    (t' : Trim texts log marks) × (gone : List (Node (List ℕ))) × (trim_task texts log marks 0
        (some (unfiltered (to_length 1 (some 2))))
        (fresh three)
      ≡ some (t', gone))
    × (three ≡ gone ++ t'.log)
    × (length t'.log ≡ (
        if ltb (length three) (from_or_to (some 2) 1) then length three else min (length three) 1))
trim_task-length_example =
    trim_task-length texts log marks (list_order texts) 0 1 (some 2) (fresh three) three-Increasing

trim_task-AllAllowed_example :
    (t' : Trim texts log marks) × (gone : List (Node (List ℕ))) × (trim_task texts log marks 0
        (some filtered)
        (fresh three)
      ≡ some (t', gone))
    × AllAllowed texts log marks may_go gone
trim_task-AllAllowed_example =
    trim_task-AllAllowed texts log marks may_go 0 filtered (fresh three)
      (record { identity = 0; can_trim = λ n. may_go n.gid; cache_id = none }, refl, λ n. refl)

from_small : from_or_to none 0 ≤ 3
unfolding from_or_to
from_small = omega arith

trim_task-AllTied_example :
    (t' : Trim texts log marks) × (trim_task texts log marks 0
        (some (unfiltered (to_length 0 none)))
        (fresh (node 1 5 ∷ node 2 5 ∷ node 3 5 ∷ []))
      ≡ some (t', node 1 5 ∷ []))
    × (t'.log ≡ node 2 5 ∷ node 3 5 ∷ [])
trim_task-AllTied_example =
    trim_task-AllTied texts marks 0 0 none (node 1 5) (node 2 5 ∷ node 3 5 ∷ [])
      (fresh (node 1 5 ∷ node 2 5 ∷ node 3 5 ∷ [])) (refl, (λ e. cc e), (refl, (λ e. cc e), tt))
      refl (omega arith) from_small
