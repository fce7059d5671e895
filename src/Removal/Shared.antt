-- ===== src/Removal/Shared.antt =====
-- What several entries refer to is not deleted with them.
use mathlib.Core.List.{reverse}
use peerbit.Base.Table.{Table, get, contains}
use peerbit.Base.{
  ℕ, zero, suc, ◌≡◌, ◌≢◌, inl, inr, refl, sym, ap, ◌∙◌, Bool, true, false, Option, some, List, [],
  ◌∷◌, ◌++◌, arith, Bool-cases, Option-cases,
}
use peerbit.EntryIndex.{Entry, Shallow}
use peerbit.EntryIndex.Heads.{refers}
use peerbit.Removal.Ends.{AllWithin, prepare_loop-returns}
use peerbit.Removal.Prepared.{IsKeyed, hashes, entry_hashes, only_alternative, prepare_delete-cases}
use peerbit.Removal.{
  has_alternative, push_nexts, prepare_delete, prepare_loop, stack_size, prepare_delete_recursively,
}

module _ {K : Type 0} (dec : Discrete K) (resolve : K → Option (Entry K))
    (index : Table K (Shallow K)) where
  -- Two entries with different hashes, and no cuts, refer to a hash.
  abbrev pub IsShared : K → Type 0
  IsShared k =
      (i : K) × (j : K) × (a : Shallow K) × (b : Shallow K) × (get dec i index ≡ some a)
      × (get dec j index ≡ some b)
      × (refers dec a.entry k ≡ true)
      × (refers dec b.entry k ≡ true)
      × (a.entry.hash ≢ b.entry.hash)

  IsShared-has_alternative : (k hash : K) → IsShared k → has_alternative dec k hash index ≡ true
  IsShared-has_alternative k hash (i, j, a, b, at_i, at_j, ra, rb, differ) =
      elim (Bool-cases (has_alternative dec k hash index)) [
        | inl e ↦ e
        | inr e ↦
            let one = only_alternative dec resolve index k hash i a index e at_i ra in
            let other = only_alternative dec resolve index k hash j b index e at_j rb in
            absurd (differ (one ∙ sym other))
      ]

  push_nexts-avoids :
      (k hash : K) (l : List K) (stack : List (Entry K))
      → IsKeyed dec resolve index
      → IsShared k
      → contains dec k (entry_hashes dec resolve index stack) ≡ false
      → contains dec k (entry_hashes dec resolve index (push_nexts dec resolve index hash l stack))
        ≡ false
  unfolding push_nexts contains
  push_nexts-avoids k hash [] stack keyed shared out = out
  push_nexts-avoids k hash (n ∷ l) stack keyed shared out =
      elim (Bool-cases (has_alternative dec n hash index)) [
        | inl b ↦ rw b (push_nexts-avoids k hash l stack keyed shared out)
        | inr b ↦ elim (Option-cases (resolve n)) [
          | inl e ↦ rw (b, e) (push_nexts-avoids k hash l stack keyed shared out)
          | inr (x, e) ↦
              let named = keyed.1 n x e in
              let differ : x.hash ≢ k = λ same.
                let yes_there = IsShared-has_alternative k hash shared in
                cc (
                  sym b
                  ∙ ap (λ (i : K). has_alternative dec i hash index) (sym named ∙ same)
                  ∙ yes_there) in
              rw (b, e) (push_nexts-avoids k hash l (x ∷ stack) keyed shared (ground arith))
        ]
      ]

  hashes-snoc-avoids :
      (k : K) (td : List (Shallow K)) (x : Shallow K)
      → contains dec k (hashes dec resolve index td) ≡ false
      → x.entry.hash ≢ k
      → contains dec k (hashes dec resolve index (td ++ x ∷ [])) ≡ false
  unfolding contains
  hashes-snoc-avoids k [] x out differ = ground arith
  hashes-snoc-avoids k (y ∷ td) x out differ =
      let ih = hashes-snoc-avoids k td x (ground arith) differ in ground arith

  prepare_delete-avoids :
      (k hash : K) (td : List (Shallow K))
      → IsKeyed dec resolve index
      → hash ≢ k
      → contains dec k (hashes dec resolve index td) ≡ false
      → contains dec k (hashes dec resolve index (prepare_delete dec hash index td)) ≡ false
  prepare_delete-avoids k hash td keyed differ out =
      elim (prepare_delete-cases dec resolve index hash td) [
        | inl (_, e) ↦
            ap (λ (l : List (Shallow K)). contains dec k (hashes dec resolve index l)) e ∙ out
        | inr (x, found, e) ↦
            ap (λ (l : List (Shallow K)). contains dec k (hashes dec resolve index l)) e
            ∙ hashes-snoc-avoids k td x out (λ same. differ (sym (keyed.0 hash x found) ∙ same))
      ]

  prepare_loop-avoids :
      (fuel : ℕ) (k : K) (skip : Bool) (stack : List (Entry K)) (td r : List (Shallow K))
      → IsKeyed dec resolve index
      → IsShared k
      → contains dec k (entry_hashes dec resolve index stack) ≡ false
      → contains dec k (hashes dec resolve index td) ≡ false
      → prepare_loop dec fuel resolve index skip stack td ≡ some r
      → contains dec k (hashes dec resolve index r) ≡ false
  unfolding prepare_loop contains
  prepare_loop-avoids zero k skip stack td r keyed shared out clean e = absurd (cc e)
  prepare_loop-avoids (suc fuel) k skip [] td r keyed shared out clean e =
      let same : td ≡ r = cc e in
      ap (λ (l : List (Shallow K)). contains dec k (hashes dec resolve index l)) (sym same) ∙ clean
  prepare_loop-avoids (suc fuel) k true (p ∷ stack) td r keyed shared out clean e =
      prepare_loop-avoids fuel k false (push_nexts dec resolve index p.hash p.next stack) td r keyed
        shared (push_nexts-avoids k p.hash p.next stack keyed shared (ground arith)) clean e
  prepare_loop-avoids (suc fuel) k false (p ∷ stack) td r keyed shared out clean e =
      let differ : p.hash ≢ k = λ same. ground arith in
      prepare_loop-avoids fuel k false (push_nexts dec resolve index p.hash p.next stack)
        (prepare_delete dec p.hash index td) r keyed shared
        (push_nexts-avoids k p.hash p.next stack keyed shared (ground arith))
        (prepare_delete-avoids k p.hash td keyed differ clean) e

  contains-none : (k : K) → contains dec k (hashes dec resolve index []) ≡ false
  unfolding contains
  contains-none k = refl

  -- An entry that is not given itself, and that two entries of the index refer to which are no cuts, is
  -- not deleted, also where both of them are: `prepareDeleteRecursively` returns a list without it.
  pub prepare_delete_recursively-avoids :
      (depth : ℕ) (from : List (Entry K)) (skip_first : Bool) (k : K)
      → AllWithin dec resolve depth (reverse from)
      → IsKeyed dec resolve index
      → IsShared k
      → contains dec k (entry_hashes dec resolve index (reverse from)) ≡ false
      → (r : List (Shallow K)) × (prepare_delete_recursively dec depth resolve index from skip_first
          ≡ some r)
        × (contains dec k (hashes dec resolve index r) ≡ false)
  unfolding prepare_delete_recursively
  prepare_delete_recursively-avoids depth from skip_first k within keyed shared out =
      let stack = reverse from in
      let fuel = suc (stack_size dec depth resolve stack) in
      let (r, e) =
        prepare_loop-returns dec resolve depth fuel index skip_first stack [] within
          (omega arith) in
      (r, e, prepare_loop-avoids fuel k skip_first stack [] r keyed shared out (contains-none k) e)
