-- ===== src/LogHeads/Tests.antt =====
-- Small collections of entries, and the theorems at inputs that meet their hypotheses.
use peerbit.Base.Table.{get, has, put, contains, include}
use peerbit.Base.{
  ℕ, ◌≡◌, refl, true, false, not, ◌&&◌, some, List, [], ◌∷◌, keep, arith, ℕ_discrete as dec,
}
use peerbit.EntryIndex.{Entry}
use peerbit.LogHeads.Found.{find_heads_lem, find_tail_hashes_iff}
use peerbit.LogHeads.Joined.{any_refers, any_hash, OldestFirst, join_heads_iff}
use peerbit.LogHeads.{
  mark_nexts, mark_heads, join_heads, add_nexts, index_nexts, find_heads, index_hashes, add_missing,
  reduce_tails, reverse_nexts, find_tail_hashes,
}

abbrev entry : ℕ → List ℕ → Entry ℕ
entry hash next = record { hash = hash; gid = 1; next = next; cut = false; size = 10 }

-- Entry 3 refers to entry 2, and that to entry 1 and to a missing one.
abbrev oldest_first : List (Entry ℕ)
oldest_first = entry 1 [] ∷ entry 2 (1 ∷ 9 ∷ []) ∷ entry 3 (2 ∷ []) ∷ []

abbrev newest_first : List (Entry ℕ)
newest_first = entry 3 (2 ∷ []) ∷ entry 2 (1 ∷ 9 ∷ []) ∷ entry 1 [] ∷ []

program : Unit {0}
unfolding mark_nexts mark_heads join_heads add_nexts index_nexts find_heads index_hashes add_missing
    reduce_tails reverse_nexts find_tail_hashes get has put contains include dec
program = tt

-- Newest first, entry 1 is taken for a head although entry 2 refers to it. The nexts of entry 2 are
-- reversed by a search for tails.
collections :
    (get dec 1 (join_heads dec oldest_first) ≡ some false)
    × (get dec 1 (join_heads dec newest_first) ≡ some true)
    × (find_heads dec newest_first ≡ entry 3 (2 ∷ []) ∷ [])
    × (find_tail_hashes dec oldest_first
        ≡ (9 ∷ [], entry 1 [] ∷ entry 2 (9 ∷ 1 ∷ []) ∷ entry 3 (2 ∷ []) ∷ []))
unfolding program
collections = (refl, refl, refl, refl)

ordered : OldestFirst dec oldest_first
unfolding contains
ordered = ((λ k h. ground arith), ((λ k h. ground arith), ((λ k h. ground arith), tt)))

there : any_hash dec 2 oldest_first ≡ true
unfolding dec
there = refl

join_heads_iff_example :
    get dec 2 (join_heads dec oldest_first) ≡ some (not (any_refers dec 2 oldest_first))
join_heads_iff_example = join_heads_iff dec 2 oldest_first ordered there

find_heads_lem_example :
    find_heads dec newest_first
    ≡ keep (λ (e : Entry ℕ). not (any_refers dec e.hash newest_first)) newest_first
find_heads_lem_example = find_heads_lem dec newest_first

find_tail_hashes_iff_example :
    contains dec 9 (find_tail_hashes dec oldest_first).0
    ≡ (any_refers dec 9 oldest_first && not (any_hash dec 9 oldest_first))
find_tail_hashes_iff_example = find_tail_hashes_iff dec 9 oldest_first
