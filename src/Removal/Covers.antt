-- ===== src/Removal/Covers.antt =====
-- No entry that stays refers to one that is deleted, the given ones aside.
use mathlib.Core.List.{reverse}
use peerbit.Base.Table.{Table, get, contains}
use peerbit.Base.{
  ℕ, zero, suc, ◌≡◌, inl, inr, sym, ap, subst, ◌∙◌, Bool, true, false, Option, some, List, [], ◌∷◌,
  ◌++◌, arith, Bool-cases, Option-cases,
}
use peerbit.EntryIndex.{Entry, Shallow}
use peerbit.EntryIndex.Heads.{refers}
use peerbit.Removal.Prepared.{
  hashes, entry_hashes, IsKeyed, IsCovered, SkipsCut, AllStacked, AllCovered, only_alternative,
  contains-last, hashes-snoc, AllStacked-Grows, next_list, prepare_delete-cases, next_list-Grows,
  next_list-AllCovered,
}
use peerbit.Removal.Ends.{AllWithin, prepare_loop-returns}
use peerbit.Removal.{
  has_alternative, push_nexts, prepare_loop, stack_size, prepare_delete_recursively,
}

module _ {K : Type 0} (dec : Discrete K) (resolve : K → Option (Entry K))
    (index : Table K (Shallow K)) where
  next_list-contains :
      (skip : Bool) (k : K) (p : Entry K) (r : Shallow K) (stack : List (Entry K))
      (td : List (Shallow K))
      → SkipsCut dec resolve index skip (p ∷ stack)
      → get dec p.hash index ≡ some r
      → refers dec r.entry k ≡ true
      → contains dec r.entry.hash
          (hashes dec resolve index (next_list dec resolve index skip p.hash td))
        ≡ true
  next_list-contains true k p r stack td cut at refs =
      let is_cut = cut r at in absurd (ground arith)
  next_list-contains false k p r stack td cut at refs =
      elim (prepare_delete-cases dec resolve index p.hash td) [
        | inl (e, _) ↦ absurd (cc (sym e ∙ at))
        | inr (x, e, grown) ↦
            let here : some x ≡ some r = sym e ∙ at in
            let same : x ≡ r = cc here in
            ap (λ (l : List (Shallow K)). contains dec r.entry.hash (hashes dec resolve index l))
              (grown ∙ ap (λ (y : Shallow K). td ++ y ∷ []) same)
            ∙ ap (contains dec r.entry.hash) (hashes-snoc dec resolve index td r)
            ∙ contains-last dec resolve index r.entry.hash (hashes dec resolve index td)
      ]

  -- An entry that a round puts on the stack is covered by what the round prepares.
  pushed-IsCovered :
      (skip : Bool) (k : K) (p x : Entry K) (stack : List (Entry K)) (td : List (Shallow K))
      → IsKeyed dec resolve index
      → SkipsCut dec resolve index skip (p ∷ stack)
      → has_alternative dec k p.hash index ≡ false
      → resolve k ≡ some x
      → IsCovered dec resolve index (next_list dec resolve index skip p.hash td) x.hash
  pushed-IsCovered skip k p x stack td keyed cut alone found j r there refs =
      let named = keyed.1 k x found in
      let refs' : refers dec r.entry k ≡ true =
        subst (λ (i : K). refers dec r.entry i ≡ true) named refs in
      let same : r.entry.hash ≡ p.hash =
        only_alternative dec resolve index k p.hash j r index alone there refs' in
      let at : get dec p.hash index ≡ some r =
        ap (λ (i : K). get dec i index) (sym same ∙ keyed.0 j r there) ∙ there in
      next_list-contains skip k p r stack td cut at refs'

  push_nexts-AllStacked :
      (roots : List K) (skip : Bool) (p : Entry K) (old : List (Entry K)) (td : List (Shallow K))
      (l : List K) (stack : List (Entry K))
      → IsKeyed dec resolve index
      → SkipsCut dec resolve index skip (p ∷ old)
      → AllStacked dec resolve index roots (next_list dec resolve index skip p.hash td) stack
      → AllStacked dec resolve index roots
          (next_list dec resolve index skip p.hash td)
          (push_nexts dec resolve index p.hash l stack)
  unfolding push_nexts
  push_nexts-AllStacked roots skip p old td [] stack keyed cut all = all
  push_nexts-AllStacked roots skip p old td (k ∷ l) stack keyed cut all =
      elim (Bool-cases (has_alternative dec k p.hash index)) [
        | inl b ↦ rw b (push_nexts-AllStacked roots skip p old td l stack keyed cut all)
        | inr b ↦ elim (Option-cases (resolve k)) [
          | inl e ↦ rw (b, e) (push_nexts-AllStacked roots skip p old td l stack keyed cut all)
          | inr (x, e) ↦
              rw (b, e)
                (push_nexts-AllStacked roots skip p old td l (x ∷ stack) keyed cut
                  (inr (pushed-IsCovered skip k p x old td keyed cut b e), all))
        ]
      ]

  prepare_loop-AllCovered :
      (fuel : ℕ) (roots : List K) (skip : Bool) (stack : List (Entry K)) (td r : List (Shallow K))
      → IsKeyed dec resolve index
      → SkipsCut dec resolve index skip stack
      → AllStacked dec resolve index roots td stack
      → AllCovered dec resolve index roots td td
      → prepare_loop dec fuel resolve index skip stack td ≡ some r
      → AllCovered dec resolve index roots r r
  unfolding prepare_loop
  prepare_loop-AllCovered zero roots skip stack td r keyed cut stacked all e = absurd (cc e)
  prepare_loop-AllCovered (suc fuel) roots skip [] td r keyed cut stacked all e =
      let same : td ≡ r = cc e in
      subst (λ (l : List (Shallow K)). AllCovered dec resolve index roots l l) same all
  prepare_loop-AllCovered (suc fuel) roots skip (p ∷ stack) td r keyed cut (c, stacked) all e =
      let td' = next_list dec resolve index skip p.hash td in
      let stacked' =
        AllStacked-Grows dec resolve index roots td td' stack
          (next_list-Grows dec resolve index skip p.hash td) stacked in
      prepare_loop-AllCovered fuel roots false (push_nexts dec resolve index p.hash p.next stack)
        td' r keyed tt (push_nexts-AllStacked roots skip p stack td p.next stack keyed cut stacked')
        (next_list-AllCovered dec resolve index roots skip p.hash td keyed c all) e

  AllStacked-roots :
      (roots : List K) (td : List (Shallow K)) (l : List (Entry K))
      → ((k : K)
          → contains dec k (entry_hashes dec resolve index l) ≡ true
          → contains dec k roots ≡ true)
      → AllStacked dec resolve index roots td l
  unfolding contains
  AllStacked-roots roots td [] h = tt
  AllStacked-roots roots td (e ∷ l) h =
      (inl (h e.hash (ground arith)), AllStacked-roots roots td l (λ k there. h k (ground arith)))

  -- `prepareDeleteRecursively` returns, for entries whose nexts go down to a depth, and what it prepares
  -- leaves no reference behind: of every entry that is to be deleted, and is not one of the given
  -- ones, each entry of the index that refers to it is to be deleted too, or is a cut. An entry that is
  -- skipped at first has to be a cut.
  pub prepare_delete_recursively-AllCovered :
      (depth : ℕ) (from : List (Entry K)) (skip_first : Bool)
      → AllWithin dec resolve depth (reverse from)
      → IsKeyed dec resolve index
      → SkipsCut dec resolve index skip_first (reverse from)
      → (r : List (Shallow K)) × (prepare_delete_recursively dec depth resolve index from skip_first
          ≡ some r)
        × AllCovered dec resolve index (entry_hashes dec resolve index (reverse from)) r r
  unfolding prepare_delete_recursively
  prepare_delete_recursively-AllCovered depth from skip_first within keyed cut =
      let stack = reverse from in
      let fuel = suc (stack_size dec depth resolve stack) in
      let (r, e) =
        prepare_loop-returns dec resolve depth fuel index skip_first stack [] within
          (omega arith) in
      (
        r,
        e,
        prepare_loop-AllCovered fuel (entry_hashes dec resolve index stack) skip_first stack [] r
            keyed cut (AllStacked-roots (entry_hashes dec resolve index stack) [] stack (λ k h. h))
            tt e,
      )
