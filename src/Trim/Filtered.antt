-- ===== src/Trim/Filtered.antt =====
-- What a filter lets a trim delete.
use peerbit.Base.Table.{Table, get, put, get-put}
use peerbit.Base.{
  ℕ, zero, suc, ◌+◌, ◌≡◌, inl, inr, refl, sym, ap, subst, ◌∙◌, Bool, true, false, not, ◌&&◌, ◌||◌,
  Option, none, some, List, [], ◌∷◌, ◌++◌, if◌then◌else◌, if_true, if_false, arith, Bool-cases,
  Option-cases,
}
use peerbit.EntryIndex.{EntryCache}
use peerbit.Trim.Ended.{trim_task-returns}
use peerbit.Trim.{
  Log, Trim, Sweep, Task, goes_on, ask_filter, visit, with_removed, turn, sweep_step, sweep,
  remember, finish, start_task, start_sweep, run_sweep, below_from, seed_of, is_seeded, loosen,
  reset, has_changed, trim_task,
}
use peerbit.TrimOptions.{Node, Filter, TrimOptions, same_number}

module _ {K : Type 0} (dec : Discrete K) (host : Log K) (marks : EntryCache K)
    (allowed : K → Bool) where
  open host use {State, count_entries, delete_node, deleted_node}

  -- Every node of a list may go.
  abbrev pub AllAllowed : List (Node K) → Type 0
  AllAllowed [] = Unit
  AllAllowed (n ∷ l) = (allowed n.gid ≡ true) × AllAllowed l

  AllAllowed-snoc :
      (n : Node K) (l : List (Node K))
      → allowed n.gid ≡ true
      → AllAllowed l
      → AllAllowed (l ++ n ∷ [])
  AllAllowed-snoc n [] a all = (a, tt)
  AllAllowed-snoc n (m ∷ l) a (b, all) = (b, AllAllowed-snoc n l a all)

  -- The filter of a task answers by the gid alone.
  abbrev pub Answers : TrimOptions K → Type 0
  Answers options =
      (f : Filter K) × (options.filter ≡ some f) × ((n : Node K) → f.can_trim n ≡ allowed n.gid)

  -- The answers that are kept are right, and what is gone was let go.
  abbrev IsAllowed : Sweep dec host marks → Type 0
  IsAllowed w =
      ((k : K) (b : Bool) → get dec k w.by_gid ≡ some b → b ≡ allowed k) × AllAllowed w.removed

  answer_lem :
      (o : Option Bool) (fresh right : Bool)
      → ((b : Bool) → o ≡ some b → b ≡ right)
      → fresh ≡ right
      → elim o [ none ↦ fresh | some b ↦ b ] ≡ right
  answer_lem none fresh right known e = e
  answer_lem (some b) fresh right known e = known b refl

  put-known :
      (k : K) (answer : Bool) (m : Table K Bool)
      → answer ≡ allowed k
      → ((j : K) (b : Bool) → get dec j m ≡ some b → b ≡ allowed j)
      → (j : K) (b : Bool) → get dec j (put dec k answer m) ≡ some b
      → b ≡ allowed j
  put-known k answer m a known j b h =
      let e = get-put dec k j answer m in
      elim (dec k j) [
        | yes same ↦
            let here : some answer ≡ some b = ground arith in
            let right = a ∙ ap allowed same in ground arith
        | no other ↦ known j b (ground arith)
      ]

  ask_filter-IsAllowed :
      (task : Task dec host marks) (n : Node K) (w : Sweep dec host marks)
      → Answers task.options
      → IsAllowed w
      → IsAllowed (ask_filter dec host marks task n w).0
        × ((ask_filter dec host marks task n w).1 ≡ allowed n.gid)
  unfolding ask_filter
  ask_filter-IsAllowed task n w (f, e, right) (known, all) =
      let answer : Bool = elim (get dec n.gid w.by_gid) [ none ↦ f.can_trim n | some b ↦ b ] in
      let a : answer ≡ allowed n.gid =
        answer_lem (get dec n.gid w.by_gid) (f.can_trim n) (allowed n.gid) (known n.gid)
          (right n) in
      rw (e, ask_filter) ((put-known n.gid answer w.by_gid a known, all), a)

  visit-IsAllowed :
      (n : Node K) (answer : Bool) (w : Sweep dec host marks)
      → answer ≡ allowed n.gid
      → IsAllowed w
      → IsAllowed (visit dec host marks n answer w)
  unfolding visit with_removed
  visit-IsAllowed n true w a (known, all) = elim (Option-cases ((delete_node n w.view).1)) [
    | inl e ↦ rw e (known, all)
    | inr (m, e) ↦ rw e (
      known,
      AllAllowed-snoc m w.removed
          (ap (λ (x : Node K). allowed x.gid) (deleted_node n m w.view e) ∙ sym a) all,
    )
  ]
  visit-IsAllowed n false w a (known, all) = (known, all)

  turn-IsAllowed :
      (task : Task dec host marks) (w : Sweep dec host marks)
      → IsAllowed w
      → IsAllowed (turn dec host marks task w)
  unfolding turn
  turn-IsAllowed task w allowed_w = elim (Option-cases w.node) [
    | inr (n, e) ↦ rw (e, turn) allowed_w
    | inl e ↦ elim (Bool-cases (not w.looped && task.changed && not task.seeded)) [
      | inl b ↦ rw (e, turn) (rw b allowed_w)
      | inr b ↦ rw (e, turn) (rw b allowed_w)
    ]
  ]

  sweep_step-IsAllowed :
      (task : Task dec host marks) (w : Sweep dec host marks)
      → Answers task.options
      → IsAllowed w
      → IsAllowed (sweep_step dec host marks task w)
  unfolding sweep_step
  sweep_step-IsAllowed task w answers allowed_w = elim (Option-cases w.node) [
    | inl e ↦ rw (e, sweep_step) allowed_w
    | inr (n, e) ↦
        let (allowed1, a) = ask_filter-IsAllowed task n w answers allowed_w in
        let (w1, answer) = ask_filter dec host marks task n w in
        rw (e, sweep_step)
          (turn-IsAllowed task (visit dec host marks n answer w1)
            (visit-IsAllowed n answer w1 a allowed1))
  ]

  sweep-IsAllowed :
      (fuel : ℕ) (task : Task dec host marks) (w w' : Sweep dec host marks)
      → Answers task.options
      → IsAllowed w
      → sweep dec host marks fuel task w ≡ some w'
      → AllAllowed w'.removed
  unfolding sweep
  sweep-IsAllowed zero task w w' answers allowed_w e = absurd (cc e)
  sweep-IsAllowed (suc fuel) task w w' answers allowed_w e =
      elim (Bool-cases (goes_on dec host marks task w)) [
        | inl on ↦
            sweep-IsAllowed fuel task (sweep_step dec host marks task w) w' answers
              (sweep_step-IsAllowed task w answers allowed_w) (sym (if_true _ on) ∙ e)
        | inr ends ↦
            let same : some w ≡ some w' = sym (if_false _ ends) ∙ e in
            let same' : w ≡ w' = cc same in
            subst (λ (v : Sweep dec host marks). AllAllowed v.removed) same' (allowed_w.1)
      ]

  get-nothing : (k : K) (b : Bool) → get dec k [] ≡ some b → b ≡ allowed k
  unfolding get
  get-nothing k b h = absurd (cc h)

  some-injective : {A : Type 0} {a b : A} → some a ≡ some b → a ≡ b
  some-injective h = cc h

  -- A result deletes nothing but what may go.
  abbrev Allows : Option (Trim dec host marks × List (Node K)) → Type 0
  Allows o = (r : Trim dec host marks × List (Node K)) → o ≡ some r → AllAllowed r.1

  Allows-if :
      (b : Bool) (x y : Option (Trim dec host marks × List (Node K)))
      → Allows x
      → Allows y
      → Allows (if b then x else y)
  Allows-if true x y ax ay = ax
  Allows-if false x y ax ay = ay

  Allows-nothing : (t : Trim dec host marks) → Allows (some (t, []))
  Allows-nothing t r e =
      let same : (t, []) ≡ r = cc e in
      subst (λ (v : Trim dec host marks × List (Node K)). AllAllowed v.1) same tt

  run_sweep-Allows :
      (now : ℕ) (options : TrimOptions K) (seed : Option ℕ) (seeded : Bool)
      (t : Trim dec host marks)
      → Answers options
      → Allows (run_sweep dec host marks now options seed seeded t)
  unfolding run_sweep finish
  run_sweep-Allows now options seed seeded t answers r e =
      let task = start_task dec host marks now options seeded t in
      let start = start_sweep dec host marks t in
      elim (Option-cases (sweep dec host marks (2 + count_entries t.log) task start)) [
        | inl out ↦ absurd (cc (sym (ap (finish dec host marks options seed) out) ∙ e))
        | inr (w, found) ↦
            let all =
              sweep-IsAllowed (2 + count_entries t.log) task start w answers
                ((λ k b h. get-nothing k b h), tt) found in
            let same : (remember dec host marks options seed w, w.removed) ≡ r =
              some-injective (sym (ap (finish dec host marks options seed) found) ∙ e) in
            subst (λ (v : Trim dec host marks × List (Node K)). AllAllowed v.1) same all
      ]

  trim_task-Allows :
      (now : ℕ) (options : TrimOptions K) (t : Trim dec host marks)
      → Answers options
      → Allows (trim_task dec host marks now (some options) t)
  unfolding trim_task
  trim_task-Allows now options t answers =
      let t' = loosen dec host marks options t in
      let seed = seed_of dec host marks options in
      let seeded = is_seeded dec host marks seed in
      Allows-if (below_from dec host marks options.condition t.log) _ _ (Allows-nothing t) (
        Allows-if (not seeded || not (same_number seed t'.last_seed)) _ _
          (run_sweep-Allows now options seed seeded (reset dec host marks t') answers)
          (Allows-if (has_changed dec host marks options t') _ _
            (run_sweep-Allows now options seed seeded t' answers) (Allows-nothing t')))

  -- A trim with a filter that answers by the gid of a node, of a log that keeps the laws of `Log`
  -- (fewer entries come after the node that `getAfter` gives than after the one it is asked about,
  -- a deletion of a node adds none to those after another one, and returns the entry of that node,
  -- if any): it returns, and every node that it deleted and returned has a gid that the filter lets
  -- go.
  pub trim_task-AllAllowed :
      (now : ℕ) (options : TrimOptions K) (t : Trim dec host marks)
      → Answers options
      → (t' : Trim dec host marks) × (gone : List (Node K)) × (trim_task dec host marks now
            (some options)
            t
          ≡ some (t', gone))
        × AllAllowed gone
  trim_task-AllAllowed now options t answers =
      let ((t', gone), e) = trim_task-returns dec host marks now (some options) t in
      (t', gone, e, trim_task-Allows now options t answers (t', gone) e)
