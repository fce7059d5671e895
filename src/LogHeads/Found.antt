-- ===== src/LogHeads/Found.antt =====
-- What `findHeads` and `findTailHashes` find.
use mathlib.Core.List.{reverse, reverse-cons}
use peerbit.Base.Keys.{contains-snoc}
use peerbit.Base.Table.{Table, has, put, contains, include, contains-include}
use peerbit.Base.{
  ◌≡◌, inl, inr, refl, ap, ◌∙◌, Bool, true, false, not, ◌&&◌, ◌||◌, List, [], ◌∷◌, keep,
  if◌then◌else◌, ite, if_pos, if_neg, arith, Bool-cases,
}
use peerbit.EntryIndex.{Entry}
use peerbit.LogHeads.Joined.{any_refers, any_hash}
use peerbit.LogHeads.{
  add_nexts, index_nexts, find_heads, index_hashes, add_missing, reduce_tails, find_tail_hashes,
}

module _ {K : Type 0} (dec : Discrete K) where
  has-put :
      (k j : K) (v : K) (m : Table K K)
      → has dec k (put dec j v m) ≡ ite (dec j k) true (has dec k m)
  unfolding has put
  has-put k j v [] = refl
  has-put k j v ((i, w) ∷ m) = elim (dec i j) [
    | yes p ↦ rw (if_pos _ p) (ground (arith, has-put k j v m))
    | no p ↦ rw (if_neg _ p) (ground (arith, has-put k j v m))
  ]

  has-add_nexts :
      (k hash : K) (l : List K) (items : Table K K)
      → has dec k (add_nexts dec hash l items) ≡ (contains dec k l || has dec k items)
  unfolding add_nexts contains
  has-add_nexts k hash [] items = refl
  has-add_nexts k hash (j ∷ l) items =
      let ih = has-add_nexts k hash l (put dec j hash items) in
      let at = has-put k j hash items in ground arith

  has-index_nexts :
      (k : K) (l : List (Entry K)) (items : Table K K)
      → has dec k (index_nexts dec l items) ≡ (any_refers dec k l || has dec k items)
  unfolding index_nexts
  has-index_nexts k [] items = refl
  has-index_nexts k (e ∷ l) items =
      let ih = has-index_nexts k l (add_nexts dec e.hash e.next items) in
      let at = has-add_nexts k e.hash e.next items in ground arith

  keep-cong :
      {A : Type 0} (p q : A → Bool) (l : List A) → ((x : A) → p x ≡ q x) → keep p l ≡ keep q l
  keep-cong p q [] h = refl
  keep-cong p q (x ∷ l) h =
      ap (λ (b : Bool). if b then x ∷ keep p l else keep p l) (h x)
      ∙ ap (λ (r : List _). if q x then x ∷ r else r) (keep-cong p q l h)

  has-nothing : (k : K) → has {V = K} dec k [] ≡ false
  unfolding has
  has-nothing k = refl

  -- `findHeads` keeps, in their order, the entries that no entry of the collection refers to.
  pub find_heads_lem :
      (l : List (Entry K)) → find_heads dec l ≡ keep (λ e. not (any_refers dec e.hash l)) l
  unfolding find_heads
  find_heads_lem l =
      keep-cong (λ (e : Entry K). not (has dec e.hash (index_nexts dec l [])))
        (λ (e : Entry K). not (any_refers dec e.hash l)) l
        (λ e. let h = has-index_nexts e.hash l [] in let n = has-nothing e.hash in ground arith)

  contains-index_hashes :
      (k : K) (l : List (Entry K)) (hashes : List K)
      → contains dec k (index_hashes dec l hashes) ≡ (any_hash dec k l || contains dec k hashes)
  unfolding index_hashes
  contains-index_hashes k [] hashes = refl
  contains-index_hashes k (e ∷ l) hashes =
      let ih = contains-index_hashes k l (include dec e.hash hashes) in
      let at = contains-include dec e.hash k hashes in ground arith

  contains-add_missing :
      (k : K) (hashes l result : List K)
      → contains dec k (add_missing dec hashes l result)
        ≡ (contains dec k l && not (contains dec k hashes) || contains dec k result)
  unfolding add_missing contains
  contains-add_missing k hashes [] result = refl
  contains-add_missing k hashes (j ∷ l) result =
      let ih =
        contains-add_missing k hashes l (if contains dec j hashes then result else j ∷ result) in
      elim (dec j k) [
        | yes same ↦
            let here = ap (λ (i : K). contains dec i hashes) same in
            elim (Bool-cases (contains dec j hashes)) [
              | inl b ↦ ih ∙ rw b (ground arith)
              | inr b ↦ ih ∙ rw b (ground arith)
            ]
        | no other ↦ elim (Bool-cases (contains dec j hashes)) [
          | inl b ↦ ih ∙ rw b (ground arith)
          | inr b ↦ ih ∙ rw b (ground arith)
        ]
      ]

  contains-reverse : (k : K) (l : List K) → contains dec k (reverse l) ≡ contains dec k l
  unfolding contains
  contains-reverse k [] = refl
  contains-reverse k (j ∷ l) =
      ap (contains dec k) (reverse-cons j l)
      ∙ contains-snoc dec j k (reverse l)
      ∙ ap (λ (b : Bool). ite (dec j k) true b) (contains-reverse k l)

  contains-reduce_tails :
      (k : K) (hashes : List K) (l : List (Entry K)) (result : List K)
      → contains dec k (reduce_tails dec hashes l result)
        ≡ (any_refers dec k l && not (contains dec k hashes) || contains dec k result)
  unfolding reduce_tails
  contains-reduce_tails k hashes [] result = refl
  contains-reduce_tails k hashes (e ∷ l) result =
      let ih = contains-reduce_tails k hashes l (add_missing dec hashes (reverse e.next) result) in
      let at = contains-add_missing k hashes (reverse e.next) result in
      let same = contains-reverse k e.next in ground arith

  contains-nothing : (k : K) → contains dec k [] ≡ false
  unfolding contains
  contains-nothing k = refl

  -- `findTailHashes` finds exactly the hashes that some entry of the collection refers to and that no
  -- entry of the collection has.
  pub find_tail_hashes_iff :
      (k : K) (l : List (Entry K))
      → contains dec k (find_tail_hashes dec l).0 ≡ (any_refers dec k l && not (any_hash dec k l))
  unfolding find_tail_hashes
  find_tail_hashes_iff k l =
      let e = contains-reduce_tails k (index_hashes dec l []) l [] in
      let h = contains-index_hashes k l [] in let n = contains-nothing k in ground arith
