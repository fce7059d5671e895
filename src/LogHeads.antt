-- ===== src/LogHeads.antt =====
-- packages/log/src/log.ts: which entries of a collection are heads when it is joined (`join`), and the
-- static methods that find the heads and the missing tails of a collection.
pub mod Joined
pub mod Found
mod Tests
use mathlib.Core.List.{reverse}
use peerbit.Base.Table.{Table, get, has, put, contains, include}
use peerbit.Base.{
  Bool, true, false, not, ◌||◌, Option, none, some, List, [], ◌∷◌, ◌++◌, keep, if◌then◌else◌,
}
use peerbit.EntryIndex.{Entry}

module _ {K : Type 0} (dec : Discrete K) where
  -- The loop over the next entries of one that is joined
  unfoldable pub mark_nexts : List K → Table K Bool → Table K Bool
  mark_nexts [] heads = heads
  mark_nexts (k ∷ l) heads = mark_nexts l (put dec k false heads)

  -- The loop of `join` that marks the heads
  unfoldable pub mark_heads : List (Entry K) → Table K Bool → Table K Bool
  mark_heads [] heads = heads
  mark_heads (e ∷ l) heads =
      mark_heads l
        (if has dec e.hash heads then heads else mark_nexts e.next (put dec e.hash true heads))

  -- The `heads` of `join`
  unfoldable pub join_heads : List (Entry K) → Table K Bool
  join_heads entries = mark_heads entries []

  -- `addToResult` of `findHeads`
  unfoldable pub add_nexts : K → List K → Table K K → Table K K
  add_nexts hash [] items = items
  add_nexts hash (k ∷ l) items = add_nexts hash l (put dec k hash items)

  -- `indexReducer` of `findHeads`
  unfoldable pub index_nexts : List (Entry K) → Table K K → Table K K
  index_nexts [] items = items
  index_nexts (e ∷ l) items = index_nexts l (add_nexts e.hash e.next items)

  -- `findHeads`
  unfoldable pub find_heads : List (Entry K) → List (Entry K)
  find_heads entries =
      let items = index_nexts entries [] in keep (λ e. not (has dec e.hash items)) entries

  -- The hashes of `findTailHashes`
  unfoldable pub index_hashes : List (Entry K) → List K → List K
  index_hashes [] hashes = hashes
  index_hashes (e ∷ l) hashes = index_hashes l (include dec e.hash hashes)

  -- `addToResult` of `findTailHashes`, over reversed nexts
  unfoldable pub add_missing : List K → List K → List K → List K
  add_missing hashes [] result = result
  add_missing hashes (k ∷ l) result =
      add_missing hashes l (if contains dec k hashes then result else k ∷ result)

  -- `reduceTailHashes`
  unfoldable pub reduce_tails : List K → List (Entry K) → List K → List K
  reduce_tails hashes [] result = result
  reduce_tails hashes (e ∷ l) result =
      reduce_tails hashes l (add_missing hashes (reverse e.next) result)

  -- The nexts are reversed in place.
  unfoldable pub reverse_nexts : List (Entry K) → List (Entry K)
  reverse_nexts [] = []
  reverse_nexts (e ∷ l) = record e { next = reverse e.next } ∷ reverse_nexts l

  -- `findTailHashes`, with the entries that it leaves behind
  unfoldable pub find_tail_hashes : List (Entry K) → List K × List (Entry K)
  find_tail_hashes entries =
      (reduce_tails (index_hashes entries []) entries [], reverse_nexts entries)
