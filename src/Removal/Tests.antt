-- ===== src/Removal/Tests.antt =====
-- Deletions from a small index, and the theorems at inputs that meet their hypotheses.
use mathlib.Core.List.{reverse}
use peerbit.Base.Table.{Table, get, contains}
use peerbit.Base.{
  ℕ, ◌≡◌, refl, subst, Bool, true, false, Option, none, some, List, [], ◌∷◌, ite, arith,
  ℕ_discrete as dec,
}
use peerbit.EntryIndex.{Entry, Shallow}
use peerbit.Removal.Covers.{prepare_delete_recursively-AllCovered}
use peerbit.Removal.Prepared.{IsKeyed, AllCovered, hashes, entry_hashes}
use peerbit.Removal.Ends.{AllWithin, Within}
use peerbit.Removal.Shared.{IsShared, prepare_delete_recursively-avoids}
use peerbit.Removal.{
  has_alternative, push_nexts, prepare_delete, prepare_loop, tree_size, stack_size,
  prepare_delete_recursively,
}

abbrev entry : ℕ → List ℕ → Entry ℕ
entry hash next = record { hash = hash; gid = 1; next = next; cut = false; size = 10 }

abbrev shallow : ℕ → List ℕ → Bool → Shallow ℕ
shallow hash next head = record { entry = entry hash next; head = head }

-- The entries 2 and 3 refer to entry 1.
abbrev index : Table ℕ (Shallow ℕ)
index = (1, shallow 1 [] false) ∷ (2, shallow 2 (1 ∷ []) true) ∷ (3, shallow 3 (1 ∷ []) true) ∷ []

abbrev chain : Table ℕ (Shallow ℕ)
chain = (1, shallow 1 [] false) ∷ (2, shallow 2 (1 ∷ []) true) ∷ []

abbrev resolve : ℕ → Option (Entry ℕ)
resolve k = ite (dec 1 k) (some (entry 1 [])) none

program : Unit {0}
unfolding has_alternative push_nexts prepare_delete prepare_loop tree_size stack_size
    prepare_delete_recursively get contains dec
program = tt

-- A stem is deleted with its only branch, but not with two.
deletions :
    (prepare_delete_recursively dec 1 resolve chain (entry 2 (1 ∷ []) ∷ []) false
      ≡ some (shallow 2 (1 ∷ []) true ∷ shallow 1 [] false ∷ []))
    × (prepare_delete_recursively dec 1 resolve index
          (entry 2 (1 ∷ []) ∷ entry 3 (1 ∷ []) ∷ [])
          false
        ≡ some (shallow 3 (1 ∷ []) true ∷ shallow 2 (1 ∷ []) true ∷ []))
unfolding program
deletions = (refl, refl)

resolve_one : (e : Entry ℕ) → resolve 1 ≡ some e → Within dec resolve 0 e.next
unfolding dec
resolve_one e h =
    let same : entry 1 [] ≡ e = cc h in subst (λ (x : Entry ℕ). Within dec resolve 0 x.next) same tt

resolve_hash : (k : ℕ) (e : Entry ℕ) → resolve k ≡ some e → e.hash ≡ k
resolve_hash k e h = elim (dec 1 k) [ yes p ↦ ground arith | no p ↦ ground arith ]

index-IsKeyed : IsKeyed dec resolve index
unfolding get
index-IsKeyed = (
  λ k e h. elim (dec 1 k) [
    | yes p ↦ ground arith
    | no p ↦ elim (dec 2 k) [
      | yes q ↦ ground arith
      | no q ↦ elim (dec 3 k) [ yes r ↦ ground arith | no r ↦ ground arith ]
    ]
  ],
  resolve_hash,
)

within_two : AllWithin dec resolve 1 (reverse (entry 2 (1 ∷ []) ∷ entry 3 (1 ∷ []) ∷ []))
within_two = ((resolve_one, tt), ((resolve_one, tt), tt))

prepare_delete_recursively-AllCovered_example :
    (r : List (Shallow ℕ)) × (prepare_delete_recursively dec 1 resolve index
        (entry 2 (1 ∷ []) ∷ entry 3 (1 ∷ []) ∷ [])
        false
      ≡ some r)
    × AllCovered dec resolve index (3 ∷ 2 ∷ []) r r
prepare_delete_recursively-AllCovered_example =
    prepare_delete_recursively-AllCovered dec resolve index 1
      (entry 2 (1 ∷ []) ∷ entry 3 (1 ∷ []) ∷ []) false within_two index-IsKeyed tt

one-IsShared : IsShared dec resolve index 1
unfolding get contains dec
one-IsShared =
    (2, 3, shallow 2 (1 ∷ []) true, shallow 3 (1 ∷ []) true, refl, refl, refl, refl, λ e. cc e)

one_not_given :
    contains dec 1
      (entry_hashes dec resolve index (reverse (entry 2 (1 ∷ []) ∷ entry 3 (1 ∷ []) ∷ [])))
    ≡ false
unfolding contains dec
one_not_given = refl

prepare_delete_recursively-avoids_example :
    (r : List (Shallow ℕ)) × (prepare_delete_recursively dec 1 resolve index
        (entry 2 (1 ∷ []) ∷ entry 3 (1 ∷ []) ∷ [])
        false
      ≡ some r)
    × (contains dec 1 (hashes dec resolve index r) ≡ false)
prepare_delete_recursively-avoids_example =
    prepare_delete_recursively-avoids dec resolve index 1 (entry 2 (1 ∷ []) ∷ entry 3 (1 ∷ []) ∷ [])
      false 1 within_two index-IsKeyed one-IsShared one_not_given
