-- ===== src/Removal/Ends.antt =====
-- The loop over the stack ends where the entries have a depth, as those that refer to others by their
-- hashes do.
use peerbit.Base.Table.{Table}
use peerbit.Base.{
  ℕ, zero, suc, ◌+◌, ◌≡◌, ◌<◌, ◌≤◌, inl, inr, refl, sym, ap, ◌∙◌, Bool, false, Option, none, some,
  List, [], ◌∷◌, if◌then◌else◌, arith, Bool-cases, Option-cases,
}
use peerbit.EntryIndex.{Entry, Shallow}
use peerbit.Removal.{
  has_alternative, push_nexts, prepare_delete, prepare_loop, tree_size, stack_size,
}

module _ {K : Type 0} (dec : Discrete K) (resolve : K → Option (Entry K)) where
  -- What hashes resolve to goes down to a depth.
  abbrev pub Within : ℕ → List K → Type 0
  Within zero [] = Unit
  Within zero (k ∷ l) = (resolve k ≡ none) × Within zero l
  Within (suc depth) [] = Unit
  Within (suc depth) (k ∷ l) =
      ((e : Entry K) → resolve k ≡ some e → Within depth e.next) × Within (suc depth) l

  abbrev pub AllWithin : ℕ → List (Entry K) → Type 0
  AllWithin depth [] = Unit
  AllWithin depth (e ∷ l) = Within depth e.next × AllWithin depth l

  Within-suc : (depth : ℕ) (l : List K) → Within depth l → Within (suc depth) l
  Within-suc zero [] w = tt
  Within-suc zero (k ∷ l) (none_here, w) =
      ((λ e h. absurd (cc (sym none_here ∙ h))), Within-suc zero l w)
  Within-suc (suc depth) [] w = tt
  Within-suc (suc depth) (k ∷ l) (here, w) =
      ((λ e h. Within-suc depth e.next (here e h)), Within-suc (suc depth) l w)

  tree_size-suc :
      (depth : ℕ) (l : List K)
      → Within depth l
      → tree_size dec (suc depth) resolve l ≡ tree_size dec depth resolve l
  unfolding tree_size
  tree_size-suc zero [] w = refl
  tree_size-suc zero (k ∷ l) (none_here, w) =
      rw (none_here, tree_size) (ground (arith, tree_size-suc zero l w))
  tree_size-suc (suc depth) [] w = refl
  tree_size-suc (suc depth) (k ∷ l) (here, w) = elim (Option-cases (resolve k)) [
    | inl e ↦ rw (e, tree_size) (ap (◌+◌ 0) (tree_size-suc (suc depth) l w))
    | inr (x, e) ↦
        let below = tree_size-suc depth x.next (here x e) in
        let rest = tree_size-suc (suc depth) l w in rw (e, tree_size) (omega arith)
  ]

  -- What is found goes on the stack, and costs what is below it.
  push_one :
      (depth : ℕ) (k : K) (l : List K) (e : Entry K)
      → Within depth (k ∷ l)
      → resolve k ≡ some e
      → Within depth e.next
        × (suc (tree_size dec depth resolve e.next) + tree_size dec depth resolve l
            ≤ tree_size dec depth resolve (k ∷ l))
  unfolding tree_size
  push_one zero k l e (none_here, w) h = absurd (cc (sym none_here ∙ h))
  push_one (suc depth) k l e (here, w) h =
      let same = tree_size-suc depth e.next (here e h) in
      (Within-suc depth e.next (here e h), rw (h, tree_size) (omega arith))

  tree_size-tail :
      (depth : ℕ) (k : K) (l : List K)
      → tree_size dec depth resolve l ≤ tree_size dec depth resolve (k ∷ l)
  unfolding tree_size
  tree_size-tail zero k l = omega arith
  tree_size-tail (suc depth) k l = omega arith

  Within-tail : (depth : ℕ) (k : K) (l : List K) → Within depth (k ∷ l) → Within depth l
  Within-tail zero k l w = w.1
  Within-tail (suc depth) k l w = w.1

  push_nexts-size :
      (depth : ℕ) (index : Table K (Shallow K)) (hash : K) (l : List K) (stack : List (Entry K))
      → Within depth l
      → AllWithin depth stack
      → AllWithin depth (push_nexts dec resolve index hash l stack)
        × (stack_size dec depth resolve (push_nexts dec resolve index hash l stack)
            ≤ tree_size dec depth resolve l + stack_size dec depth resolve stack)
  unfolding push_nexts stack_size
  push_nexts-size depth index hash [] stack w all = (all, omega arith)
  push_nexts-size depth index hash (k ∷ l) stack w all =
      let tail = tree_size-tail depth k l in
      let (all', less) = push_nexts-size depth index hash l stack (Within-tail depth k l w) all in
      elim (Bool-cases (has_alternative dec k hash index)) [
        | inl b ↦ rw b (all', omega arith)
        | inr b ↦ elim (Option-cases (resolve k)) [
          | inl e ↦ rw (b, e) (all', omega arith)
          | inr (x, e) ↦
              let (here, cost) = push_one depth k l x w e in
              let (all1, less1) =
                push_nexts-size depth index hash l (x ∷ stack) (Within-tail depth k l w)
                  (here, all) in
              rw (b, e) (all1, omega arith)
        ]
      ]

  pub prepare_loop-returns :
      (depth fuel : ℕ) (index : Table K (Shallow K)) (skip : Bool) (stack : List (Entry K))
      (to_delete : List (Shallow K))
      → AllWithin depth stack
      → stack_size dec depth resolve stack < fuel
      → (r : List (Shallow K)) × (prepare_loop dec fuel resolve index skip stack to_delete ≡ some r)
  unfolding prepare_loop stack_size
  prepare_loop-returns depth zero index skip stack to_delete all h = absurd (omega arith)
  prepare_loop-returns depth (suc fuel) index skip [] to_delete all h = (to_delete, refl)
  prepare_loop-returns depth (suc fuel) index skip (e ∷ stack) to_delete (w, all) h =
      let (all', less) = push_nexts-size depth index e.hash e.next stack w all in
      prepare_loop-returns depth fuel index false (push_nexts dec resolve index e.hash e.next stack)
        (if skip then to_delete else prepare_delete dec e.hash index to_delete) all' (omega arith)
