-- ===== src/Trim/Ended.antt =====
-- The loop of a trim ends, since every round gets nearer to the newest node.
use peerbit.Base.{
  ℕ, zero, suc, ◌+◌, ◌≡◌, ◌<◌, ◌≤◌, ◌⊎◌, inl, inr, refl, ap, ◌∙◌, Bool, true, false, not, ◌||◌,
  Option, none, some, List, [], if◌then◌else◌, subst, arith, Bool-cases, Option-cases,
}
use peerbit.EntryIndex.{EntryCache}
use peerbit.Trim.Rounds.{
  StartsRight, turn-ends, goes_on-node, sweep-stops, sweep-continues, sweep-last, or_else-none,
}
use peerbit.Trim.{
  Log, Trim, Sweep, Task, goes_on, ask_filter, or_else, visit, turn, sweep_step, sweep, run_sweep,
  remember, finish, seed_of, is_seeded, loosen, reset, first_node, start_task, start_sweep,
  below_from, has_changed, trim_task,
}
use peerbit.TrimOptions.{Node, TrimOptions, same_number}

module _ {K : Type 0} (dec : Discrete K) (host : Log K) (marks : EntryCache K) where
  open host use {
    State, count_entries, get_oldest, get_after, delete_node, later, later_bound, later_after,
    later_delete,
  }

  -- The rounds that are left
  abbrev left : Option (Node K) → State → ℕ
  left none s = 0
  left (some n) s = suc (later n s)

  visit-left :
      (n : Node K) (answer : Bool) (w : Sweep dec host marks)
      → left (visit dec host marks n answer w).node (visit dec host marks n answer w).view
        ≤ later n w.view
  unfolding visit
  visit-left n true w = elim (Option-cases (get_after n w.view)) [
    | inl e ↦ rw e (omega arith)
    | inr (m, e) ↦
        rw e (let a = later_after n m w.view e in let b = later_delete n m w.view in omega arith)
  ]
  visit-left n false w = elim (Option-cases (get_after n w.view)) [
    | inl e ↦ rw e (omega arith)
    | inr (m, e) ↦ rw e (let a = later_after n m w.view e in omega arith)
  ]

  visit-looped :
      (n : Node K) (answer : Bool) (w : Sweep dec host marks)
      → (visit dec host marks n answer w).looped ≡ w.looped
  unfolding visit
  visit-looped n true w = refl
  visit-looped n false w = refl

  ask_filter-view :
      (task : Task dec host marks) (n : Node K) (w : Sweep dec host marks)
      → ((ask_filter dec host marks task n w).0.view ≡ w.view)
        × ((ask_filter dec host marks task n w).0.looped ≡ w.looped)
  unfolding ask_filter
  ask_filter-view task n w = elim (Option-cases task.options.filter) [
    | inl e ↦ rw (e, ask_filter) (refl, refl)
    | inr (f, e) ↦ rw (e, ask_filter) (refl, refl)
  ]

  -- A round ends the loop or leaves fewer rounds.
  sweep_step-left :
      (task : Task dec host marks) (n : Node K) (w : Sweep dec host marks)
      → StartsRight dec host marks task
      → w.looped ≡ false
      → w.node ≡ some n
      → ((w' : Sweep dec host marks) × (sweep_step dec host marks task w ≡ w')
          × (w'.looped ≡ false)
          × (left w'.node w'.view ≤ later n w.view))
        ⊎ (goes_on dec host marks task (sweep_step dec host marks task w) ≡ false)
  unfolding sweep_step
  sweep_step-left task n w right fresh e =
      let (w1, answer) = ask_filter dec host marks task n w in
      let w2 = visit dec host marks n answer w1 in
      let (view, looped) = ask_filter-view task n w in
      let here : sweep_step dec host marks task w ≡ turn dec host marks task w2 =
        ap
          (λ (o : Option (Node K)). elim o [
            | none ↦ w
            | some m ↦ turn dec host marks task (
                visit dec host marks m (ask_filter dec host marks task m w).1
                  (ask_filter dec host marks task m w).0)
          ])
          e in
      let looped' : w2.looped ≡ false = visit-looped n answer w1 ∙ looped ∙ fresh in
      elim (turn-ends dec host marks task w2 right looped') [
        | inl same ↦ inl (
          w2,
          here ∙ same,
          looped',
          subst (λ (s : State). left w2.node w2.view ≤ later n s) view (visit-left n answer w1),
        )
        | inr ends ↦ inr (ap (goes_on dec host marks task) here ∙ ends)
      ]

  -- A sweep that returns
  abbrev pub Returns : Option (Sweep dec host marks) → Type 0
  Returns r = (w : Sweep dec host marks) × (r ≡ some w)

  pub sweep-Returns :
      (fuel : ℕ) (task : Task dec host marks) (w : Sweep dec host marks)
      → StartsRight dec host marks task
      → w.looped ≡ false
      → left w.node w.view < fuel
      → Returns (sweep dec host marks fuel task w)
  sweep-Returns zero task w right fresh h = absurd (omega arith)
  sweep-Returns (suc fuel) task w right fresh h = elim (Option-cases w.node) [
    | inl e ↦ (w, sweep-stops dec host marks fuel task w (goes_on-node dec host marks task w e))
    | inr (n, e) ↦
        let h' : suc (later n w.view) < suc fuel =
          subst (λ (o : Option (Node K)). left o w.view < suc fuel) e h in
        elim (Bool-cases (goes_on dec host marks task w)) [
          | inr ends ↦ (w, sweep-stops dec host marks fuel task w ends)
          | inl on ↦
              let step = sweep-continues dec host marks fuel task w on in
              elim (sweep_step-left task n w right fresh e) [
                | inl (w', same, fresh', less) ↦
                    let (r, e') = sweep-Returns fuel task w' right fresh' (omega arith) in
                    (r, step ∙ ap (sweep dec host marks fuel task) same ∙ e')
                | inr ends ↦ (
                  sweep_step dec host marks task w,
                  step
                      ∙ sweep-last dec host marks fuel task (sweep_step dec host marks task w)
                          (omega arith) ends,
                )
              ]
        ]
  ]

  left-bound : (o : Option (Node K)) (s : State) → left o s < 2 + count_entries s
  left-bound none s = omega arith
  left-bound (some n) s = let b = later_bound n s in omega arith

  pub run_sweep-returns :
      (now : ℕ) (options : TrimOptions K) (seed : Option ℕ) (seeded : Bool)
      (t : Trim dec host marks)
      → (seeded ≡ true) ⊎ (t.last_node ≡ none)
      → (r : Trim dec host marks × List (Node K)) × (run_sweep dec host marks now options seed
            seeded t
          ≡ some r)
  unfolding run_sweep finish
  run_sweep-returns now options seed seeded t right =
      let task = start_task dec host marks now options seeded t in
      let right' : StartsRight dec host marks task = elim right [
        | inl e ↦ inl e
        | inr e ↦ inr (
            ap (λ (o : Option (Node K)). or_else dec host marks o (get_oldest t.log)) e
            ∙ or_else-none dec host marks (get_oldest t.log))
      ] in
      let (w, e) =
        sweep-Returns (2 + count_entries t.log) task (start_sweep dec host marks t) right' refl
          (left-bound (first_node dec host marks t) t.log) in
      (
        (remember dec host marks options seed w, w.removed),
        ap (finish dec host marks options seed) e,
      )

  -- The result of a trim
  abbrev Gives : Option (Trim dec host marks × List (Node K)) → Type 0
  Gives o = (r : Trim dec host marks × List (Node K)) × (o ≡ some r)

  Gives-if :
      (b : Bool) (x y : Option (Trim dec host marks × List (Node K)))
      → Gives x
      → (b ≡ false → Gives y)
      → Gives (if b then x else y)
  Gives-if true x y gx gy = gx
  Gives-if false x y gx gy = gy refl

  -- `trimTask` returns, since the laws of the log let the loop run for no more rounds than there is fuel.
  pub trim_task-returns :
      (now : ℕ) (options : Option (TrimOptions K)) (t : Trim dec host marks)
      → (r : Trim dec host marks × List (Node K)) × (trim_task dec host marks now options t
          ≡ some r)
  unfolding trim_task
  trim_task-returns now none t = ((t, []), refl)
  trim_task-returns now (some options) t =
      let t' = loosen dec host marks options t in
      let seed = seed_of dec host marks options in
      Gives-if (below_from dec host marks options.condition t.log) _ _ ((t, []), refl)
        (λ _.
          Gives-if (not (is_seeded dec host marks seed) || not (same_number seed t'.last_seed)) _ _
            (run_sweep-returns now options seed (is_seeded dec host marks seed)
              (reset dec host marks t') (inr refl))
            (λ known.
              Gives-if (has_changed dec host marks options t') _ _
                (run_sweep-returns now options seed (is_seeded dec host marks seed) t'
                  (inl (ground arith)))
                (λ _. ((t', []), refl))))
