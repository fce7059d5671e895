-- ===== src/Cache/Tests.antt =====
-- The cache on concrete calls, and the theorems at inputs that meet their hypotheses.
use peerbit.Base.Int.{pos, ◌+ℤ◌, ◌-ℤ◌}
use peerbit.Base.Table.{get, has, put, delete, contains, include, discard}
use peerbit.Base.{
  ℕ, ◌≤◌, ◌≡◌, refl, ◌↔◌, ◌⊎◌, false, none, some, List, [], ◌∷◌, ◌++◌, arith, ℕ_discrete as dec,
}
use peerbit.Cache.Accuracy
use peerbit.Cache.Reads
use peerbit.Cache.Shape.{HasShape, clear-HasShape, insert-HasShape}
use peerbit.Cache.Size.{live_size, IsAccurate, share}
use peerbit.Cache.Trim
use peerbit.Cache.Trim.{IsSettled, Keeps}
use peerbit.Cache.{
  Cache, clear, create, out_of_date, drop_head, trim_from, trim, has_key, read, get_value, del,
  insert, add,
}

program : Unit {0}
unfolding clear create out_of_date drop_head trim_from trim has_key read get_value del insert add
    get has put delete contains include discard ◌+ℤ◌ ◌-ℤ◌ dec
program = tt

-- An empty cache for at most 10, whose entries stay for 100.
abbrev start : Cache ℕ ℕ
start = record {
  entries = [];
  deleted = [];
  list = [];
  current_size = pos 0;
  max = 10;
  ttl = some 100;
}

abbrev one : Cache ℕ ℕ
one = record start {
  entries = (7, record { value = some 70; time = 5; size = 6 }) ∷ [];
  list = 7 ∷ [];
  current_size = pos 6;
}

abbrev next : Cache ℕ ℕ
next = record start {
  entries = (8, record { value = none; time = 6; size = 5 }) ∷ [];
  list = 8 ∷ [];
  current_size = pos 5;
}

-- The second entry does not fit beside the first, which is dropped; a missing value reads as null.
calls :
    (create 10 (some 100) ≡ some start)
    × (add dec 5 7 (some 70) 6 start ≡ some one)
    × (add dec 6 8 none 5 one ≡ some next)
    × (get_value dec 7 8 next ≡ some (next, some none))
    × (has_key dec 7 7 next ≡ some (next, false))
    × (get_value dec 107 8 next ≡ some (start, none))
unfolding program
calls = (refl, refl, refl, refl, refl, refl)

-- A key that is marked and added again is not counted.
undercount :
    add dec 6 7 (some 71) 6 (del dec 7 one).0
    ≡ some (record one {
      entries = (7, record { value = some 71; time = 6; size = 6 }) ∷ [];
      current_size = pos 0;
    })
unfolding program
undercount = refl

start-HasShape : HasShape dec start
unfolding program
start-HasShape = clear-HasShape dec start

one-HasShape : HasShape dec one
unfolding program
one-HasShape = insert-HasShape dec 5 7 (some 70) 6 start start-HasShape

start-IsAccurate : IsAccurate dec start
start-IsAccurate = refl

one-IsAccurate : IsAccurate dec one
unfolding program
one-IsAccurate = refl

trim_lem_example :
    (c' : Cache ℕ ℕ) × (trim dec 6 one ≡ some c')
    × HasShape dec c'
    × ((gone : List ℕ) × (7 ∷ [] ≡ gone ++ c'.list))
    × IsSettled dec 6 c'
    × Keeps dec 6 one c'
trim_lem_example = Trim.trim_lem dec 6 one one-HasShape

insert-IsAccurate_iff_example :
    IsAccurate dec (insert dec 6 8 none 5 one)
    ↔ ((has dec 8 one.entries ≡ false) ⊎ (share dec one 8 ≡ 5))
insert-IsAccurate_iff_example =
    Accuracy.insert-IsAccurate_iff dec 6 8 none 5 one one-HasShape one-IsAccurate

trim-live_size-le_example :
    (c' : Cache ℕ ℕ) × (trim dec 200 one ≡ some c')
    × HasShape dec c'
    × IsAccurate dec c'
    × (live_size dec c'.deleted c'.entries ≤ 10)
trim-live_size-le_example = Accuracy.trim-live_size-le dec 200 one one-HasShape one-IsAccurate

get_value-add_example :
    (c' : Cache ℕ ℕ) × (add dec 6 8 none 5 one ≡ some c')
    × ((c'' : Cache ℕ ℕ) × (get_value dec 100 8 c' ≡ some (c'', some none)))
unfolding program
get_value-add_example =
    Reads.get_value-add dec 6 100 8 none 5 one one-HasShape one-IsAccurate refl (omega arith) refl
