-- ===== src/Trim/Oldest.antt =====
-- A trim without a filter deletes from the oldest entry on.
use mathlib.Core.List.{append-nil, append_assoc}
use peerbit.Base.{
  ℕ, zero, suc, ◌≡◌, ◌≢◌, ◌<◌, ◌⊎◌, inl, inr, refl, sym, ap, subst, ◌∙◌, Bool, true, false, not,
  ◌&&◌, Option, none, some, List, [], ◌∷◌, ◌++◌, length, arith, Bool-cases, Option-cases,
}
use peerbit.EntryIndex.{EntryCache}
use peerbit.Trim.Rounds.{sweep-continues, sweep-last, turn-node, turn-ends, goes_on-node}
use peerbit.Trim.{
  Log, Sweep, Task, is_done, goes_on, ask_filter, visit, with_removed, turn, sweep_step, sweep,
}
use peerbit.TrimOptions.{Node, TrimOptions}

abbrev pub first {ℓ} : {A : Type ℓ} → List A → Option A
first [] = none
first (x ∷ l) = some x

-- What a log promises of its entries in their order, in the states that are good
pub record Order {K : Type 0} (host : Log K) : Type 1 where
  pub entries : host.State → List (Node K)
  pub IsGood : host.State → Type 0
  pub length_entries : (s : host.State) → IsGood s → host.get_length s ≡ length (entries s)
  pub counted_entries : (s : host.State) → IsGood s → host.count_entries s ≡ length (entries s)
  pub oldest_first : (s : host.State) → IsGood s → host.get_oldest s ≡ first (entries s)
  pub after_first :
      (n : Node K) (l : List (Node K)) (s : host.State)
      → IsGood s
      → entries s ≡ n ∷ l
      → host.get_after n s ≡ first l
  pub delete_first :
      (n : Node K) (l : List (Node K)) (s : host.State)
      → IsGood s
      → entries s ≡ n ∷ l
      → IsGood (host.delete_node n s).0
        × (entries (host.delete_node n s).0 ≡ l)
        × ((host.delete_node n s).1 ≡ some n)

module _ {K : Type 0} (dec : Discrete K) (host : Log K) (marks : EntryCache K)
    (order : Order host) where
  open host use {State, get_length, get_oldest, get_after, delete_node}
  open order use {entries, IsGood, length_entries, oldest_first, after_first, delete_first}

  -- Nodes are deleted one after the other, each in a state that is not done.
  abbrev pub Removes : ℕ → TrimOptions K → State → List (Node K) → State → Type 0
  Removes now options s [] s' = s ≡ s'
  Removes now options s (n ∷ l) s' =
      (is_done dec host marks now options.condition s ≡ false)
      × Removes now options (delete_node n s).0 l s'

  -- Nothing is left to be done.
  abbrev pub Finished : ℕ → TrimOptions K → State → Type 0
  Finished now options s =
      (is_done dec host marks now options.condition s ≡ true) ⊎ (entries s ≡ [])

  pub turn-keeps :
      (task : Task dec host marks) (w : Sweep dec host marks)
      → ((turn dec host marks task w).view ≡ w.view)
        × ((turn dec host marks task w).removed ≡ w.removed)
  unfolding turn
  turn-keeps task w = elim (Option-cases w.node) [
    | inr (n, e) ↦ rw (e, turn) (refl, refl)
    | inl e ↦ elim (Bool-cases (not w.looped && task.changed && not task.seeded)) [
      | inl b ↦ rw (e, turn) (rw b (refl, refl))
      | inr b ↦ rw (e, turn) (rw b (refl, refl))
    ]
  ]

  ask_filter-unfiltered :
      (task : Task dec host marks) (n : Node K) (w : Sweep dec host marks)
      → task.options.filter ≡ none
      → ask_filter dec host marks task n w ≡ (w, true)
  unfolding ask_filter
  ask_filter-unfiltered task n w f = rw (f, ask_filter) refl

  pub sweep_step-unfiltered :
      (task : Task dec host marks) (n : Node K) (w : Sweep dec host marks)
      → task.options.filter ≡ none
      → w.node ≡ some n
      → sweep_step dec host marks task w ≡ turn dec host marks task (visit dec host marks n true w)
  unfolding sweep_step
  sweep_step-unfiltered task n w f e =
      let round : Node K → Sweep dec host marks = λ m. turn dec host marks task (
        visit dec host marks m (ask_filter dec host marks task m w).1
          (ask_filter dec host marks task m w).0) in
      ap (λ (o : Option (Node K)). elim o [ none ↦ w | some m ↦ round m ]) e
      ∙ ap
          (λ (r : Sweep dec host marks × Bool).
            turn dec host marks task (visit dec host marks n r.1 r.0))
          (ask_filter-unfiltered task n w f)

  pub goes_on_iff :
      (task : Task dec host marks) (n : Node K) (w : Sweep dec host marks)
      → w.node ≡ some n
      → w.looped ≡ false
      → get_length w.view ≢ 0
      → goes_on dec host marks task w
        ≡ not (is_done dec host marks task.now task.options.condition w.view)
  unfolding goes_on
  goes_on_iff task n w e fresh h = rw (e, goes_on) (ground arith)

  visit-first :
      (n : Node K) (l : List (Node K)) (w : Sweep dec host marks)
      → IsGood w.view
      → entries w.view ≡ n ∷ l
      → ((visit dec host marks n true w).node ≡ first l)
        × ((visit dec host marks n true w).removed ≡ w.removed ++ n ∷ [])
        × ((visit dec host marks n true w).view ≡ (delete_node n w.view).0)
        × ((visit dec host marks n true w).looped ≡ w.looped)
  unfolding visit with_removed
  visit-first n l w good e =
      let (_, _, gone) = delete_first n l w.view good e in
      (
        after_first n l w.view good e,
        ap (λ (o : Option (Node K)). with_removed dec host marks o w.removed) gone,
        refl,
        refl,
      )

  -- Only after the last node the loop may turn, and that ends it.
  turn-first :
      (task : Task dec host marks) (l : List (Node K)) (w : Sweep dec host marks)
      → task.start ≡ task.tail
      → w.looped ≡ false
      → w.node ≡ first l
      → (turn dec host marks task w ≡ w)
        ⊎ ((l ≡ []) × (goes_on dec host marks task (turn dec host marks task w) ≡ false))
  turn-first task [] w right fresh at = elim (turn-ends dec host marks task w (inr right) fresh) [
    | inl same ↦ inl same
    | inr ends ↦ inr (refl, ends)
  ]
  turn-first task (n ∷ l) w right fresh at = inl (turn-node dec host marks task n w at)

  -- What a loop without a filter does from a sweep at the oldest of some nodes
  abbrev pub Sweeps :
      Task dec host marks
      → Sweep dec host marks
      → List (Node K)
      → Option (Sweep dec host marks)
      → Type 0
  Sweeps task w l r =
      (w' : Sweep dec host marks) × (gone : List (Node K)) × (r ≡ some w')
      × (w'.removed ≡ w.removed ++ gone)
      × (l ≡ gone ++ entries w'.view)
      × IsGood w'.view
      × Removes task.now task.options w.view gone w'.view
      × Finished task.now task.options w'.view

  Sweeps-stop :
      (fuel : ℕ) (task : Task dec host marks) (w : Sweep dec host marks)
      → 0 < fuel
      → IsGood w.view
      → goes_on dec host marks task w ≡ false
      → Finished task.now task.options w.view
      → Sweeps task w (entries w.view) (sweep dec host marks fuel task w)
  Sweeps-stop fuel task w h good ends done = (
    w,
    [],
    sweep-last dec host marks fuel task w h ends,
    sym (append-nil w.removed),
    refl,
    good,
    refl,
    done,
  )

  Sweeps-step :
      (task : Task dec host marks) (n : Node K) (l : List (Node K)) (w w1 : Sweep dec host marks)
      (r : Option (Sweep dec host marks))
      → is_done dec host marks task.now task.options.condition w.view ≡ false
      → w1.removed ≡ w.removed ++ n ∷ []
      → w1.view ≡ (delete_node n w.view).0
      → Sweeps task w1 l r
      → Sweeps task w (n ∷ l) r
  Sweeps-step task n l w w1 r busy gone_n seen (w', gone, e, removed, split, good, steps, done) = (
    w',
    n ∷ gone,
    e,
    removed ∙ ap (λ (m : List (Node K)). m ++ gone) gone_n ∙ append_assoc w.removed (n ∷ []) gone,
    ap (◌∷◌ n) split,
    good,
    (busy, subst (λ (s : State). Removes task.now task.options s gone w'.view) seen steps),
    done,
  )

  -- A loop without a filter, from the oldest node on
  pub sweep-Sweeps :
      (fuel : ℕ) (task : Task dec host marks) (l : List (Node K)) (w : Sweep dec host marks)
      → task.options.filter ≡ none
      → task.start ≡ task.tail
      → w.looped ≡ false
      → IsGood w.view
      → entries w.view ≡ l
      → w.node ≡ first l
      → length l < fuel
      → Sweeps task w l (sweep dec host marks fuel task w)
  sweep-Sweeps fuel task [] w f right fresh good e at h =
      subst (λ (m : List (Node K)). Sweeps task w m (sweep dec host marks fuel task w)) e
        (Sweeps-stop fuel task w (omega arith) good (goes_on-node dec host marks task w at) (inr e))
  sweep-Sweeps zero task (n ∷ l) w f right fresh good e at h = absurd (omega arith)
  sweep-Sweeps (suc fuel) task (n ∷ l) w f right fresh good e at h =
      let len : get_length w.view ≡ suc (length l) = length_entries w.view good ∙ ap length e in
      let on_iff = goes_on_iff task n w at fresh (λ z. omega arith) in
      elim (Bool-cases (is_done dec host marks task.now task.options.condition w.view)) [
        | inl done ↦
            subst (λ (m : List (Node K)). Sweeps task w m (sweep dec host marks (suc fuel) task w))
              e (Sweeps-stop (suc fuel) task w (omega arith) good (ground arith) (inl done))
        | inr busy ↦
            let w1 = visit dec host marks n true w in
            let (node1, removed1, view1, looped1) = visit-first n l w good e in
            let (good1, entries1, _) = delete_first n l w.view good e in
            let good1' = subst IsGood (sym view1) good1 in
            let entries1' = ap entries view1 ∙ entries1 in
            let next =
              sweep-continues dec host marks fuel task w (ground arith)
              ∙ ap (sweep dec host marks fuel task) (sweep_step-unfiltered task n w f at) in
            subst (Sweeps task w (n ∷ l)) (sym next)
              (elim (turn-first task l w1 right (looped1 ∙ fresh) node1) [
                | inl same ↦
                    subst
                      (λ (v : Sweep dec host marks).
                        Sweeps task w (n ∷ l) (sweep dec host marks fuel task v))
                      (sym same)
                      (Sweeps-step task n l w w1 (sweep dec host marks fuel task w1) busy removed1
                        view1
                        (sweep-Sweeps fuel task l w1 f right (looped1 ∙ fresh) good1' entries1'
                          node1 (omega arith)))
                | inr (last, ends) ↦
                    let w2 = turn dec host marks task w1 in
                    let (view2, removed2) = turn-keeps task w1 in
                    let entries2 = ap entries view2 ∙ entries1' in
                    Sweeps-step task n l w w2 (sweep dec host marks fuel task w2) busy
                      (removed2 ∙ removed1) (view2 ∙ view1)
                      (subst
                        (λ (m : List (Node K)).
                          Sweeps task w2 m (sweep dec host marks fuel task w2))
                        entries2
                        (Sweeps-stop fuel task w2 (omega arith) (subst IsGood (sym view2) good1')
                          ends (inr (entries2 ∙ last))))
              ])
      ]
