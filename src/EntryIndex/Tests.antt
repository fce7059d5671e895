-- ===== src/EntryIndex/Tests.antt =====
-- The index on concrete entries, with a table as the cache, and the theorems at inputs that meet their
-- hypotheses.
use peerbit.Base.Keys.{Distinct}
use peerbit.Base.Table.{keys, get, has, put, delete, contains, include, discard}
use peerbit.Base.{ℕ, ◌≡◌, refl, true, false, none, some, List, [], ◌∷◌, arith, ℕ_discrete as dec}
use peerbit.EntryIndex.Deferred.{first_entry, put_entry-deferred, resolve-has_entry}
use peerbit.EntryIndex.Delete.{Deletes, delete_entry-IsSound}
use peerbit.EntryIndex.Kept
use peerbit.EntryIndex.Heads.{referenced, HeadsMatch}
use peerbit.EntryIndex.Put.{IsSound, put_entry-IsSound}
use peerbit.EntryIndex.{
  Entry, EntryCache, EntryIndex, flush_one, flush_each, flush_keys, flush_pending, get_shallow,
  holds, has_entry, count_next, count_has_next, write_back, mark_not_head, mark_head, mark_each,
  update_next_heads, shadowed_by, shadowed_gids, write_entry, register, put_entry, after_delete,
  delete_known, delete_entry, sum_sizes, memory_usage, resolve,
}

program : Unit {0}
unfolding flush_one flush_each flush_keys flush_pending get_shallow holds has_entry count_next
    count_has_next write_back mark_not_head mark_head mark_each update_next_heads shadowed_by
    shadowed_gids write_entry register put_entry after_delete delete_known delete_entry sum_sizes
    memory_usage resolve get has put delete contains include discard dec
program = tt

abbrev table_cache : EntryCache ℕ
table_cache = Kept.table_cache dec

abbrev entry : ℕ → List ℕ → Entry ℕ
entry hash next = record { hash = hash; gid = 1; next = next; cut = false; size = 10 }

-- Entry 2 refers to entry 1, which is no head. The block of an entry 3 is stored already.
abbrev two : EntryIndex dec table_cache
two = record {
  index =
      (1, record { entry = entry 1 []; head = false })
      ∷ (2, record { entry = entry 2 (1 ∷ []); head = true })
      ∷ [];
  pending = [];
  timer = false;
  length = 2;
  cache = (2, true) ∷ [];
  blocks = 1 ∷ 2 ∷ 3 ∷ [];
}

abbrev three : EntryIndex dec table_cache
three = record two {
  index =
      (1, record { entry = entry 1 []; head = false })
      ∷ (2, record { entry = entry 2 (1 ∷ []); head = false })
      ∷ (3, record { entry = entry 3 (2 ∷ []); head = true })
      ∷ [];
  length = 3;
  cache = (2, true) ∷ (3, true) ∷ [];
}

-- A third entry takes the place of the head, and its deletion gives it back.
calls :
    (put_entry dec table_cache (entry 3 (2 ∷ [])) true true false true two ≡ (three, []))
    × ((delete_entry dec table_cache 3 three).0.index ≡ two.index)
    × ((delete_entry dec table_cache 3 three).0.length ≡ 2)
    × (memory_usage dec table_cache three ≡ 30)
unfolding program
calls = (refl, refl, refl, refl)

heads_match : HeadsMatch dec two.index
unfolding get referenced contains dec
heads_match k e h = elim (dec 1 k) [
  | yes same ↦ ground arith
  | no other ↦ elim (dec 2 k) [ yes same ↦ ground arith | no other' ↦ ground arith ]
]

distinct : Distinct dec (keys two.index)
unfolding contains dec
distinct = (refl, (refl, tt))

only_two : (k : ℕ) → get dec k ((2, true) ∷ []) ≡ some true → contains dec k (keys two.index) ≡ true
unfolding get contains
only_two k h = ground arith

two-IsSound : IsSound dec table_cache two
two-IsSound = (refl, distinct, refl, heads_match, only_two)

new_here : get dec 3 two.index ≡ none
unfolding get dec
new_here = refl

not_referenced : referenced dec 3 two.index ≡ false
unfolding referenced contains dec
not_referenced = refl

put_entry-IsSound_example :
    IsSound dec table_cache
      (put_entry dec table_cache (entry 3 (2 ∷ [])) false true false true two).0
    × (keys (put_entry dec table_cache (entry 3 (2 ∷ [])) false true false true two).0.index
        ≡ 1 ∷ 2 ∷ 3 ∷ [])
put_entry-IsSound_example =
    put_entry-IsSound dec table_cache (entry 3 (2 ∷ [])) false true true two new_here
      (rw not_referenced refl) two-IsSound

delete_entry-IsSound_example : Deletes dec table_cache 2 two (delete_entry dec table_cache 2 two)
delete_entry-IsSound_example =
    delete_entry-IsSound dec table_cache 2 two (refl, (refl, tt)) two-IsSound

put_entry-deferred_example :
    ((j : ℕ)
      → get_shallow dec table_cache j
          (put_entry dec table_cache
            (first_entry dec table_cache 4 1 10)
            true
            true
            true
            false
            two).0
        ≡ get_shallow dec table_cache j
            (put_entry dec table_cache
              (first_entry dec table_cache 4 1 10)
              true
              true
              false
              false
              two).0)
    × (flush_pending dec table_cache
          (put_entry dec table_cache
            (first_entry dec table_cache 4 1 10)
            true
            true
            true
            false
            two).0
        ≡ record ((put_entry dec table_cache
            (first_entry dec table_cache 4 1 10)
            true
            true
            false
            false
            two).0) { timer = false })
put_entry-deferred_example = put_entry-deferred dec table_cache 4 1 10 true false two refl

cold : get dec 7 two.cache ≡ none
unfolding get dec
cold = refl

absent : get_shallow dec table_cache 7 two ≡ none
unfolding get_shallow get dec
absent = refl

resolve-has_entry_example :
    (s' : EntryIndex dec table_cache) × (resolve dec table_cache 7 true true two ≡ some (s', true))
    × (has_entry dec table_cache 7 s' ≡ true)
    × (get_shallow dec table_cache 7 s' ≡ none)
    × ((register dec table_cache (entry 7 []) false s').length ≡ 2)
resolve-has_entry_example = resolve-has_entry dec table_cache (entry 7 []) true two cold absent
