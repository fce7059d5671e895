-- ===== src/Trim/Ties.antt =====
-- Trims of a log whose entries have one wall time, which the query for the next node passes over.
use peerbit.Base.{
  ℕ, suc, ◌+◌, ◌≡◌, ◌≢◌, ◌<◌, ◌≤◌, inl, inr, refl, ap, ◌∙◌, true, false, not, Option, none, some,
  List, [], ◌∷◌, ◌++◌, length, if_neg, if_true, if_false, arith,
}
use peerbit.EntryIndex.{EntryCache}
use peerbit.Trim.Rounds.{sweep-continues, sweep-last, turn-ends, goes_on-node, or_else-none}
use peerbit.Trim.Oldest.{sweep_step-unfiltered, goes_on_iff, turn-keeps, first}
use peerbit.Trim.Sorted.{is_after, is_after_iff, find, remove_hash, has_hash, list_log}
use peerbit.Trim.Times.{list_order, remove_hash-head, has_hash-head, find-head}
use peerbit.Trim.Whole.{loosen-log, trim_task-unfiltered}
use peerbit.Trim.{
  Trim, Sweep, Task, is_done, below_from, visit, with_removed, or_else, turn, goes_on, sweep,
  remember, finish, first_node, start_task, start_sweep, run_sweep, loosen, reset, trim_task,
}
use peerbit.TrimOptions.{Node, to_length, TrimOptions, from_or_to}

module _ (dec : Discrete (List ℕ)) (marks : EntryCache (List ℕ)) where
  -- The nodes of a list have the wall time of one, and other hashes.
  abbrev pub AllTied : Node (List ℕ) → List (Node (List ℕ)) → Type 0
  AllTied n [] = Unit
  AllTied n (m ∷ l) =
      (m.timestamp.wall_time ≡ n.timestamp.wall_time) × (m.hash ≢ n.hash) × AllTied n l

  find-AllTied :
      (n : Node (List ℕ)) (l : List (Node (List ℕ))) → AllTied n l → find (is_after n) l ≡ none
  unfolding find
  find-AllTied n [] all = refl
  find-AllTied n (m ∷ l) (same, _, all) =
      if_false _ (is_after_iff n m ∙ ground arith) ∙ find-AllTied n l all

  remove_hash-AllTied :
      (n : Node (List ℕ)) (l : List (Node (List ℕ))) → AllTied n l → remove_hash dec n.hash l ≡ l
  unfolding remove_hash
  remove_hash-AllTied n [] all = refl
  remove_hash-AllTied n (m ∷ l) (_, other, all) =
      if_neg (dec m.hash n.hash) other _ _ ∙ ap (◌∷◌ m) (remove_hash-AllTied n l all)

  visit-AllTied :
      (n : Node (List ℕ)) (l : List (Node (List ℕ))) (w : Sweep dec (list_log dec) marks)
      → AllTied n l
      → w.view ≡ n ∷ l
      → w.removed ≡ []
      → ((visit dec (list_log dec) marks n true w).node ≡ none)
        × ((visit dec (list_log dec) marks n true w).removed ≡ n ∷ [])
        × ((visit dec (list_log dec) marks n true w).view ≡ l)
        × ((visit dec (list_log dec) marks n true w).looped ≡ w.looped)
  unfolding visit with_removed
  visit-AllTied n l w tied e fresh =
      let there : has_hash dec n.hash w.view ≡ true =
        ap (has_hash dec n.hash) e ∙ has_hash-head dec n l in
      (
        ap (find (is_after n)) e ∙ find-head dec n l ∙ find-AllTied n l tied,
        ap (λ (o : Option (Node (List ℕ))). with_removed dec (list_log dec) marks o w.removed)
              (if_true none there)
            ∙ ap (λ (m : List (Node (List ℕ))). m ++ n ∷ []) fresh,
        ap (remove_hash dec n.hash) e ∙ remove_hash-head dec n l ∙ remove_hash-AllTied n l tied,
        refl,
      )

  is_done-length :
      (now to : ℕ) (from : Option ℕ) (s : List (Node (List ℕ)))
      → to < length s
      → is_done dec (list_log dec) marks now (to_length to from) s ≡ false
  unfolding is_done
  is_done-length now to from s h = ground arith

  below_from-length :
      (now to : ℕ) (from : Option ℕ) (s : List (Node (List ℕ)))
      → from_or_to from to ≤ length s
      → below_from dec (list_log dec) marks (to_length to from) s ≡ false
  unfolding below_from
  below_from-length now to from s h = ground arith

  -- The loop ends after its first round.
  sweep-AllTied :
      (fuel : ℕ) (task : Task dec (list_log dec) marks) (n : Node (List ℕ))
      (l : List (Node (List ℕ))) (w : Sweep dec (list_log dec) marks)
      → AllTied n l
      → task.options.filter ≡ none
      → task.start ≡ task.tail
      → is_done dec (list_log dec) marks task.now task.options.condition w.view ≡ false
      → w.node ≡ some n
      → w.looped ≡ false
      → w.view ≡ n ∷ l
      → w.removed ≡ []
      → (w' : Sweep dec (list_log dec) marks) × (sweep dec
            (list_log dec)
            marks
            (suc (suc fuel))
            task
            w
          ≡ some w')
        × (w'.removed ≡ n ∷ [])
        × (w'.view ≡ l)
  sweep-AllTied fuel task n l w tied f right busy at fresh e none_yet =
      let w1 = visit dec (list_log dec) marks n true w in
      let w2 = turn dec (list_log dec) marks task w1 in
      let (node1, removed1, view1, looped1) = visit-AllTied n l w tied e none_yet in
      let (view2, removed2) = turn-keeps dec (list_log dec) marks (list_order dec) task w1 in
      let on =
        goes_on_iff dec (list_log dec) marks (list_order dec) task n w at fresh
          (λ z. let len = ap length e in omega arith) in
      let ends : goes_on dec (list_log dec) marks task w2 ≡ false =
        elim (turn-ends dec (list_log dec) marks task w1 (inr right) (looped1 ∙ fresh)) [
          | inl same ↦
              ap (goes_on dec (list_log dec) marks task) same
              ∙ goes_on-node dec (list_log dec) marks task w1 node1
          | inr over ↦ over
        ] in
      (
        w2,
        sweep-continues dec (list_log dec) marks (suc fuel) task w (on ∙ ap not busy)
            ∙ ap (sweep dec (list_log dec) marks (suc fuel) task)
                (sweep_step-unfiltered dec (list_log dec) marks (list_order dec) task n w f at)
            ∙ sweep-last dec (list_log dec) marks (suc fuel) task w2 (omega arith) ends,
        removed2 ∙ removed1,
        view2 ∙ view1,
      )

  run_sweep-AllTied :
      (now : ℕ) (options : TrimOptions (List ℕ)) (n : Node (List ℕ)) (l : List (Node (List ℕ)))
      (t : Trim dec (list_log dec) marks)
      → AllTied n l
      → options.filter ≡ none
      → is_done dec (list_log dec) marks now options.condition t.log ≡ false
      → t.last_node ≡ none
      → t.log ≡ n ∷ l
      → (t' : Trim dec (list_log dec) marks) × (run_sweep dec
            (list_log dec)
            marks
            now
            options
            none
            false
            t
          ≡ some (t', n ∷ []))
        × (t'.log ≡ l)
  unfolding run_sweep finish remember
  run_sweep-AllTied now options n l t tied f busy fresh e =
      let at : first_node dec (list_log dec) marks t ≡ first t.log =
        ap (λ (o : Option (Node (List ℕ))). or_else dec (list_log dec) marks o (first t.log)) fresh
        ∙ or_else-none dec (list_log dec) marks (first t.log) in
      let task = start_task dec (list_log dec) marks now options false t in
      let (w, e', removed, view) =
        sweep-AllTied (length t.log) task n l (start_sweep dec (list_log dec) marks t) tied f at
          busy (at ∙ ap first e) refl e refl in
      let fuel : 2 + length t.log ≡ suc (suc (length t.log)) = omega arith in
      (
        remember dec (list_log dec) marks options none w,
        ap
              (λ (k : ℕ).
                finish dec (list_log dec) marks options none
                  (sweep dec (list_log dec) marks k task (start_sweep dec (list_log dec) marks t)))
              fuel
            ∙ ap (finish dec (list_log dec) marks options none) e'
            ∙ ap
                (λ (r : List (Node (List ℕ))).
                  some (remember dec (list_log dec) marks options none w, r))
                removed,
        view,
      )

  -- A trim to a length, without a filter, of a log whose entries all have one wall time, asked as
  -- `LastWriteWins` asks: it deletes the first entry only, however many more are to go.
  pub trim_task-AllTied :
      (now to : ℕ) (from : Option ℕ) (n : Node (List ℕ)) (l : List (Node (List ℕ)))
      (t : Trim dec (list_log dec) marks)
      → AllTied n l
      → t.log ≡ n ∷ l
      → to ≤ length l
      → from_or_to from to ≤ suc (length l)
      → (t' : Trim dec (list_log dec) marks) × (trim_task dec
            (list_log dec)
            marks
            now
            (some (record { condition = to_length to from; filter = none }))
            t
          ≡ some (t', n ∷ []))
        × (t'.log ≡ l)
  trim_task-AllTied now to from n l t tied e h h' =
      let options : TrimOptions (List ℕ) = record {
        condition = to_length to from;
        filter = none;
      } in
      let t1 = reset dec (list_log dec) marks (loosen dec (list_log dec) marks options t) in
      let same = loosen-log dec (list_log dec) marks (list_order dec) options t ∙ e in
      let busy = is_done-length now to from t1.log (let len = ap length same in omega arith) in
      let (t', done, left) = run_sweep-AllTied now options n l t1 tied refl busy refl same in
      (
        t',
        trim_task-unfiltered dec (list_log dec) marks (list_order dec) now options t refl
              (below_from-length now to from t.log (let len = ap length e in omega arith))
            ∙ done,
        left,
      )
