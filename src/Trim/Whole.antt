-- ===== src/Trim/Whole.antt =====
-- Whole trims without a filter, and what is left after one to a length.
use peerbit.Base.{
  ℕ, min, ◌+◌, ◌≡◌, ◌≤◌, ◌⊎◌, inl, inr, refl, sym, ap, subst, ◌∙◌, Bool, true, false, not, ◌||◌,
  Option, none, some, List, [], ◌∷◌, ◌++◌, length, length-append, leb→le, ltb, if◌then◌else◌,
  if_true, if_false, arith, Bool-cases, Option-cases,
}
use peerbit.EntryIndex.{EntryCache}
use peerbit.Trim.Oldest.{Order, Removes, Finished, sweep-Sweeps}
use peerbit.Trim.Rounds.{or_else-none}
use peerbit.Trim.{
  Log, Trim, is_done, or_else, run_sweep, remember, finish, seed_of, is_seeded, loosen, reset,
  first_node, start_task, start_sweep, below_from, trim_task,
}
use peerbit.TrimOptions.{
  Node, Filter, TrimOptions, to_length, from_or_to, trim_options_stricter, same_number,
}

module _ {K : Type 0} (dec : Discrete K) (host : Log K) (marks : EntryCache K)
    (order : Order host) where
  open host use {State, get_length, get_oldest, delete_node}
  open order use {entries, IsGood, length_entries, oldest_first, delete_first}

  pub loosen-log :
      (options : TrimOptions K) (t : Trim dec host marks)
      → (loosen dec host marks options t).log ≡ t.log
  unfolding loosen
  loosen-log options t = elim (Option-cases t.last_options) [
    | inl e ↦ rw (e, loosen) refl
    | inr (o, e) ↦ elim (Bool-cases (trim_options_stricter o options)) [
      | inl b ↦ rw (e, loosen) (rw b refl)
      | inr b ↦ rw (e, loosen) (rw b refl)
    ]
  ]

  seed_of-unfiltered :
      (options : TrimOptions K)
      → options.filter ≡ none
      → (seed_of dec host marks options ≡ none)
        × (is_seeded dec host marks (seed_of dec host marks options) ≡ false)
  unfolding seed_of is_seeded
  seed_of-unfiltered options f = rw (f, seed_of) (refl, refl)

  pub trim_task-unfiltered :
      (now : ℕ) (options : TrimOptions K) (t : Trim dec host marks)
      → options.filter ≡ none
      → below_from dec host marks options.condition t.log ≡ false
      → trim_task dec host marks now (some options) t
        ≡ run_sweep dec host marks now options none false
            (reset dec host marks (loosen dec host marks options t))
  unfolding trim_task
  trim_task-unfiltered now options t f enough =
      let (seed, unseeded) = seed_of-unfiltered options f in
      if_false _ enough
      ∙ if_true
          {b = not (is_seeded dec host marks (seed_of dec host marks options))
            || not (
                same_number (seed_of dec host marks options)
                  (loosen dec host marks options t).last_seed)}
          _ (ground arith)
      ∙ ap
          (λ (o : Option ℕ).
            run_sweep dec host marks now options o
              (is_seeded dec host marks (seed_of dec host marks options))
              (reset dec host marks (loosen dec host marks options t)))
          seed
      ∙ ap
          (λ (b : Bool).
            run_sweep dec host marks now options none b
              (reset dec host marks (loosen dec host marks options t)))
          unseeded

  -- A loop without a filter over the whole log
  run_sweep-Removes :
      (now : ℕ) (options : TrimOptions K) (t : Trim dec host marks)
      → options.filter ≡ none
      → IsGood t.log
      → t.last_node ≡ none
      → (t' : Trim dec host marks) × (gone : List (Node K)) × (run_sweep dec host marks now options
            none false t
          ≡ some (t', gone))
        × (entries t.log ≡ gone ++ entries t'.log)
        × IsGood t'.log
        × Removes dec host marks order now options t.log gone t'.log
        × Finished dec host marks order now options t'.log
  unfolding run_sweep finish remember
  run_sweep-Removes now options t f good fresh =
      let at : first_node dec host marks t ≡ get_oldest t.log =
        ap (λ (o : Option (Node K)). or_else dec host marks o (get_oldest t.log)) fresh
        ∙ or_else-none dec host marks (get_oldest t.log) in
      let len = order.counted_entries t.log good in
      let (w, gone, e, removed, split, good', steps, done) =
        sweep-Sweeps dec host marks order (2 + host.count_entries t.log)
          (start_task dec host marks now options false t) (entries t.log)
          (start_sweep dec host marks t) f at refl good refl (at ∙ oldest_first t.log good)
          (omega arith) in
      (
        remember dec host marks options none w,
        gone,
        ap (finish dec host marks options none) e
            ∙ ap (λ (l : List (Node K)). some (remember dec host marks options none w, l)) removed,
        split,
        good',
        steps,
        done,
      )

  -- A trim without a filter of a log that keeps the laws of `Log` (fewer entries come after the
  -- node that `getAfter` gives than after the one it is asked about, a deletion of a node adds none
  -- to those after another one, and returns the entry of that node, if any) and has an order
  -- (`Order`), in a good state of that order that is not below the `from` of the options: in a good
  -- state the length that is reported, and the number of entries that the index has, is that of the
  -- entries in order, the oldest node is the first entry, the node that `getAfter` gives for the
  -- first entry is the second one, and a deletion of the first entry returns it and leaves the
  -- others, in a good state again (as in a list whose wall times increase strictly and whose hashes
  -- differ, but not where wall times are equal). The trim deletes entries from the first one on,
  -- each of them in a state that is not done, and returns them; at the end it is done or no entry
  -- is left, and the state is good.
  pub trim_task-Removes :
      (now : ℕ) (options : TrimOptions K) (t : Trim dec host marks)
      → options.filter ≡ none
      → IsGood t.log
      → below_from dec host marks options.condition t.log ≡ false
      → (t' : Trim dec host marks) × (gone : List (Node K)) × (trim_task dec host marks now
            (some options)
            t
          ≡ some (t', gone))
        × (entries t.log ≡ gone ++ entries t'.log)
        × IsGood t'.log
        × Removes dec host marks order now options t.log gone t'.log
        × Finished dec host marks order now options t'.log
  trim_task-Removes now options t f good enough =
      let t1 = reset dec host marks (loosen dec host marks options t) in
      let same = loosen-log options t in
      let (t', gone, e, split, good', steps, done) =
        run_sweep-Removes now options t1 f (subst IsGood (sym same) good) refl in
      (
        t',
        gone,
        trim_task-unfiltered now options t f enough ∙ e,
        ap entries (sym same) ∙ split,
        good',
        subst (λ (s : State). Removes dec host marks order now options s gone t'.log) same steps,
        done,
      )

  -- The last deletion left as many entries as the trim aims at, if not more.
  Removes-length :
      (now to : ℕ) (from : Option ℕ) (f : Option (Filter K)) (gone : List (Node K)) (s s' : State)
      → IsGood s
      → entries s ≡ gone ++ entries s'
      → Removes dec host marks order now
          (record { condition = to_length to from; filter = f })
          s
          gone
          s'
      → (gone ≡ []) ⊎ (to ≤ length (entries s'))
  unfolding is_done
  Removes-length now to from f [] s s' good e r = inl refl
  Removes-length now to from f (n ∷ []) s s' good e (busy, r) =
      let len = length_entries s good ∙ ap length e in inr (ground arith)
  Removes-length now to from f (n ∷ m ∷ gone) s s' good e (busy, r) =
      let (good1, entries1, _) = delete_first n (m ∷ gone ++ entries s') s good e in
      elim (Removes-length now to from f (m ∷ gone) (delete_node n s).0 s' good1 entries1 r) [
        | inl none_gone ↦ absurd (ground arith)
        | inr h ↦ inr h
      ]

  left_over :
      (n m gone to limit : ℕ)
      → ltb n limit ≡ false
      → n ≡ gone + m
      → (gone ≡ 0) ⊎ (to ≤ m)
      → (m ≤ to) ⊎ (m ≡ 0)
      → m ≡ (if ltb n limit then n else min n to)
  left_over n m gone to limit h e least most =
      let same : m ≡ min n to = ground arith in same ∙ sym (if_false n h)

  Finished-length :
      (now to : ℕ) (from : Option ℕ) (f : Option (Filter K)) (s : State)
      → Finished dec host marks order now (record { condition = to_length to from; filter = f }) s
      → (get_length s ≤ to) ⊎ (entries s ≡ [])
  unfolding is_done
  Finished-length now to from f s (inl done) = inl (leb→le (get_length s) to done)
  Finished-length now to from f s (inr e) = inr e

  below_from-length :
      (to : ℕ) (from : Option ℕ) (s : State)
      → ltb (get_length s) (from_or_to from to) ≡ below_from dec host marks (to_length to from) s
  unfolding below_from
  below_from-length to from s = refl

  trim_task-small :
      (now : ℕ) (options : TrimOptions K) (t : Trim dec host marks)
      → below_from dec host marks options.condition t.log ≡ true
      → trim_task dec host marks now (some options) t ≡ some (t, [])
  unfolding trim_task
  trim_task-small now options t small = if_true _ small

  -- `trim` to a length, without a filter, of a log that keeps the laws of `Log` (fewer entries come
  -- after the node that `getAfter` gives than after the one it is asked about, a deletion of a node
  -- adds none to those after another one, and returns the entry of that node, if any) and has an
  -- order (`Order`), in a good state of that order: in a good state the length that is reported,
  -- and the number of entries that the index has, is that of the entries in order, the oldest node
  -- is the first entry, the node that `getAfter` gives for the first entry is the second one, and a
  -- deletion of the first entry returns it and leaves the others, in a good state again (as in a
  -- list whose wall times increase strictly and whose hashes differ, but not where wall times are
  -- equal). The trim deletes entries from the first one on and returns them, so that `to` entries
  -- are left if there were more; a log shorter than `from` (or `to`, if `from` is not given) is
  -- left as it is.
  pub trim_task-length :
      (now to : ℕ) (from : Option ℕ) (t : Trim dec host marks)
      → IsGood t.log
      → (t' : Trim dec host marks) × (gone : List (Node K)) × (trim_task dec host marks now
            (some (record { condition = to_length to from; filter = none }))
            t
          ≡ some (t', gone))
        × (entries t.log ≡ gone ++ entries t'.log)
        × (length (entries t'.log) ≡ (
            if ltb (length (entries t.log)) (from_or_to from to)
            then length (entries t.log)
            else min (length (entries t.log)) to))
  trim_task-length now to from t good =
      let options : TrimOptions K = record { condition = to_length to from; filter = none } in
      let len = length_entries t.log good in
      elim (Bool-cases (below_from dec host marks (to_length to from) t.log)) [
        | inl small ↦
            let size = below_from-length to from t.log ∙ small in
            (t, [], trim_task-small now options t small, refl, ground arith)
        | inr enough ↦
            let (t', gone, e, split, good', steps, done) =
              trim_task-Removes now options t refl good enough in
            let size = below_from-length to from t.log ∙ enough in
            let len' = length_entries t'.log good' in
            let least = Removes-length now to from none gone t.log t'.log good split steps in
            let most = Finished-length now to from none t'.log done in
            let all = ap length split ∙ length-append gone (entries t'.log) in
            let least' : (length gone ≡ 0) ⊎ (to ≤ length (entries t'.log)) = elim least [
              | inl g ↦ inl (ap length g)
              | inr h ↦ inr h
            ] in
            let most' : (length (entries t'.log) ≤ to) ⊎ (length (entries t'.log) ≡ 0) = elim most [
              | inl h ↦ inl (omega arith)
              | inr g ↦ inr (ap length g)
            ] in
            let size' = ap (λ (n : ℕ). ltb n (from_or_to from to)) (sym len) ∙ size in
            (
              t',
              gone,
              e,
              split,
              left_over (length (entries t.log)) (length (entries t'.log)) (length gone) to
                  (from_or_to from to) size' all least' most',
            )
      ]
