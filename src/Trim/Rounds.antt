-- ===== src/Trim/Rounds.antt =====
-- Single rounds of the loop of a trim, and the way back to the tail, which ends it at once.
use peerbit.Base.{
  ℕ, zero, suc, ◌≡◌, ◌<◌, ◌⊎◌, inl, inr, refl, sym, ap, ◌∙◌, true, false, not, ◌&&◌, Option, none,
  some, if◌then◌else◌, if_pos, if_true, if_false, arith, Bool-cases, Option-cases,
}
use peerbit.EntryIndex.{EntryCache}
use peerbit.Trim.{Log, Sweep, Task, same_hash, goes_on, or_else, turn, sweep_step, sweep}
use peerbit.TrimOptions.{Node}

module _ {K : Type 0} (dec : Discrete K) (host : Log K) (marks : EntryCache K) where
  open host use {
    State, get_length, get_oldest, get_after, delete_node, later, later_bound, later_after,
    later_delete,
  }

  same_hash_refl : (n : Option (Node K)) → same_hash dec host marks n n ≡ true
  unfolding same_hash
  same_hash_refl none = refl
  same_hash_refl (some n) = if_pos (dec n.hash n.hash) refl _ _

  -- The loop starts at the tail, unless a cache of the progress keeps it from turning back.
  abbrev pub StartsRight : Task dec host marks → Type 0
  StartsRight task = (task.seeded ≡ true) ⊎ (task.start ≡ task.tail)

  looped-ends :
      (task : Task dec host marks) (w : Sweep dec host marks)
      → task.start ≡ task.tail
      → goes_on dec host marks task (record w { node = task.tail; looped = true }) ≡ false
  unfolding goes_on
  looped-ends task w same = elim (Option-cases task.tail) [
    | inl e ↦ rw (e, goes_on) refl
    | inr (n, e) ↦
        let here : same_hash dec host marks (some n) task.start ≡ true =
          ap (λ (o : Option (Node K)). same_hash dec host marks o task.start) (sym (same ∙ e))
          ∙ same_hash_refl task.start in
        rw (e, goes_on) (ground arith)
  ]

  pub turn-node :
      (task : Task dec host marks) (n : Node K) (w : Sweep dec host marks)
      → w.node ≡ some n
      → turn dec host marks task w ≡ w
  unfolding turn
  turn-node task n w e =
      ap
        (λ (o : Option (Node K)). elim o [
          | some m ↦ w
          | none ↦
              if not w.looped && task.changed && not task.seeded
              then record w { node = task.tail; looped = true }
              else w
        ])
        e

  turn-empty :
      (task : Task dec host marks) (w : Sweep dec host marks)
      → w.node ≡ none
      → turn dec host marks task w ≡ (
          if not w.looped && task.changed && not task.seeded
          then record w { node = task.tail; looped = true }
          else w)
  unfolding turn
  turn-empty task w e =
      ap
        (λ (o : Option (Node K)). elim o [
          | some n ↦ w
          | none ↦
              if not w.looped && task.changed && not task.seeded
              then record w { node = task.tail; looped = true }
              else w
        ])
        e

  pub turn-ends :
      (task : Task dec host marks) (w : Sweep dec host marks)
      → StartsRight task
      → w.looped ≡ false
      → (turn dec host marks task w ≡ w)
        ⊎ (goes_on dec host marks task (turn dec host marks task w) ≡ false)
  turn-ends task w right fresh = elim (Option-cases w.node) [
    | inr (n, e) ↦ inl (turn-node task n w e)
    | inl e ↦ elim (Bool-cases (not w.looped && task.changed && not task.seeded)) [
      | inr stays ↦ inl (turn-empty task w e ∙ if_false _ stays)
      | inl back ↦
          let again = turn-empty task w e ∙ if_true _ back in
          elim right [
            | inl seeded ↦ absurd (ground arith)
            | inr same ↦ inr (ap (goes_on dec host marks task) again ∙ looped-ends task w same)
          ]
    ]
  ]

  pub goes_on-node :
      (task : Task dec host marks) (w : Sweep dec host marks)
      → w.node ≡ none
      → goes_on dec host marks task w ≡ false
  unfolding goes_on
  goes_on-node task w e = rw (e, goes_on) refl

  pub sweep-stops :
      (fuel : ℕ) (task : Task dec host marks) (w : Sweep dec host marks)
      → goes_on dec host marks task w ≡ false
      → sweep dec host marks (suc fuel) task w ≡ some w
  unfolding sweep
  sweep-stops fuel task w e = if_false _ e

  pub sweep-continues :
      (fuel : ℕ) (task : Task dec host marks) (w : Sweep dec host marks)
      → goes_on dec host marks task w ≡ true
      → sweep dec host marks (suc fuel) task w
        ≡ sweep dec host marks fuel task (sweep_step dec host marks task w)
  unfolding sweep
  sweep-continues fuel task w e = if_true _ e

  pub sweep-last :
      (fuel : ℕ) (task : Task dec host marks) (w : Sweep dec host marks)
      → 0 < fuel
      → goes_on dec host marks task w ≡ false
      → sweep dec host marks fuel task w ≡ some w
  sweep-last zero task w h e = absurd (omega arith)
  sweep-last (suc fuel) task w h e = sweep-stops fuel task w e

  pub or_else-none : (b : Option (Node K)) → or_else dec host marks none b ≡ b
  unfolding or_else
  or_else-none b = refl
