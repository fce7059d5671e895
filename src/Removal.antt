-- ===== src/Removal.antt =====
-- packages/log/src/log.ts: the entries that a log deletes together (`prepareDeleteRecursively`), and the
-- heads and tails of a collection of entries. The index is that of EntryIndex; what a hash resolves to
-- is a parameter. The loop over the stack runs on fuel.
pub mod Ends
pub mod Prepared
pub mod Covers
pub mod Shared
mod Tests
use mathlib.Core.List.{reverse}
use peerbit.Base.Table.{Table, get, contains}
use peerbit.Base.{
  ℕ, zero, suc, ◌+◌, Bool, true, false, not, ◌&&◌, ◌||◌, Option, none, some, List, [], ◌∷◌, ◌++◌,
  if◌then◌else◌, ite,
}
use peerbit.EntryIndex.{Entry, Shallow}

module _ {K : Type 0} (dec : Discrete K) where
  -- `hasAlternativeNext`: an entry other than one, and no cut, refers to a hash.
  unfoldable pub has_alternative : K → K → Table K (Shallow K) → Bool
  has_alternative next hash [] = false
  has_alternative next hash ((k, e) ∷ m) =
      let rest = has_alternative next hash m in
      (contains dec next e.entry.next && not e.entry.cut && ite (dec e.entry.hash hash) false true)
      || rest

  -- The loop over the next entries, which go on the stack; its top is the head of the list.
  unfoldable pub push_nexts :
      (K → Option (Entry K)) → Table K (Shallow K) → K → List K → List (Entry K) → List (Entry K)
  push_nexts resolve index hash [] stack = stack
  push_nexts resolve index hash (k ∷ l) stack =
      let found : List (Entry K) = elim (resolve k) [ none ↦ stack | some e ↦ e ∷ stack ] in
      push_nexts resolve index hash l (if has_alternative k hash index then stack else found)

  -- `prepareDelete`, whose entry is deleted if there is one
  unfoldable pub prepare_delete : K → Table K (Shallow K) → List (Shallow K) → List (Shallow K)
  prepare_delete k index to_delete = elim (get dec k index) [
    | none ↦ to_delete
    | some e ↦ to_delete ++ e ∷ []
  ]

  -- The loop of `prepareDeleteRecursively`; `none` is out of fuel.
  unfoldable pub prepare_loop :
      ℕ
      → (K → Option (Entry K))
      → Table K (Shallow K)
      → Bool
      → List (Entry K)
      → List (Shallow K)
      → Option (List (Shallow K))
  prepare_loop zero resolve index skip stack to_delete = none
  prepare_loop (suc fuel) resolve index skip [] to_delete = some to_delete
  prepare_loop (suc fuel) resolve index skip (e ∷ stack) to_delete =
      prepare_loop fuel resolve index false (push_nexts resolve index e.hash e.next stack)
        (if skip then to_delete else prepare_delete e.hash index to_delete)

  -- The entries below a hash, one time for every way to them, down to a depth
  unfoldable pub tree_size : ℕ → (K → Option (Entry K)) → List K → ℕ
  tree_size zero resolve l = 0
  tree_size (suc depth) resolve [] = 0
  tree_size (suc depth) resolve (k ∷ l) =
      let below : ℕ = elim (resolve k) [
        | none ↦ 0
        | some e ↦ suc (tree_size depth resolve e.next)
      ] in
      below + tree_size (suc depth) resolve l

  -- The rounds that a stack takes
  unfoldable pub stack_size : ℕ → (K → Option (Entry K)) → List (Entry K) → ℕ
  stack_size depth resolve [] = 0
  stack_size depth resolve (e ∷ stack) =
      suc (tree_size depth resolve e.next) + stack_size depth resolve stack

  -- `prepareDeleteRecursively`, with fuel for entries whose nexts go down to a depth
  unfoldable pub prepare_delete_recursively :
      ℕ
      → (K → Option (Entry K))
      → Table K (Shallow K)
      → List (Entry K)
      → Bool
      → Option (List (Shallow K))
  prepare_delete_recursively depth resolve index from skip_first =
      let stack = reverse from in
      prepare_loop (suc (stack_size depth resolve stack)) resolve index skip_first stack []
