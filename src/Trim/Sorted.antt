-- ===== src/Trim/Sorted.antt =====
-- The log of a trim as a list of nodes in the order of `LastWriteWins` (packages/log/src/log-sorting.ts),
-- asked as packages/log/src/entry-index.ts asks its index: for the first node after another one.
use peerbit.Base.{
  ℕ, suc, ◌+◌, ◌≡◌, ◌<◌, ◌≤◌, refl, sym, ◌∙◌, Bool, true, false, Option, none, some, List, [], ◌∷◌,
  length, if◌then◌else◌, if_true, if_false, ite, if_pos, if_neg, arith, Bool-cases, ltb, inl, inr,
}
use peerbit.Sorting
use peerbit.Sorting.{answers, value_before, field, last_write_wins}
use peerbit.Trim.{Log}
use peerbit.TrimOptions.{Node}
use peerbit.Trim.Oldest.{first}

-- `SortableEntry` of a node
abbrev sortable : Node (List ℕ) → Sorting.Entry
sortable n = record { timestamp = n.timestamp; gid = n.gid; hash = n.hash }

unfoldable pub is_after : Node (List ℕ) → Node (List ℕ) → Bool
is_after n m = answers (last_write_wins.after (sortable n)) (sortable m)

unfoldable pub is_before : Node (List ℕ) → Node (List ℕ) → Bool
is_before n m = answers (last_write_wins.before (sortable n)) (sortable m)

pub is_after_iff :
    (n m : Node (List ℕ)) → is_after n m ≡ ltb n.timestamp.wall_time m.timestamp.wall_time
unfolding is_after answers last_write_wins value_before field
is_after_iff n m = refl

module _ {A : Type 0} where
  unfoldable pub find : (A → Bool) → List A → Option A
  find p [] = none
  find p (x ∷ l) = let rest = find p l in if p x then some x else rest

  unfoldable pub find_last : (A → Bool) → List A → Option A
  find_last p [] = none
  find_last p (x ∷ l) = elim (find_last p l) [
    | some y ↦ some y
    | none ↦ if p x then some x else none
  ]

  unfoldable pub count : (A → Bool) → List A → ℕ
  count p [] = 0
  count p (x ∷ l) = let rest = count p l in if p x then suc rest else rest

  pub count-le : (p : A → Bool) (l : List A) → count p l ≤ length l
  unfolding count
  count-le p [] = omega arith
  count-le p (x ∷ l) = ground (arith, count-le p l)

  count_mono :
      (p q : A → Bool) (l : List A) → ((x : A) → p x ≡ true → q x ≡ true) → count p l ≤ count q l
  unfolding count
  count_mono p q [] h = omega arith
  count_mono p q (x ∷ l) h = let less = h x in ground (arith, count_mono p q l h)

  count-find :
      (p q : A → Bool) (m : A) (l : List A)
      → ((x : A) → p x ≡ true → q x ≡ true)
      → p m ≡ false
      → find q l ≡ some m
      → count p l < count q l
  unfolding count find
  count-find p q m [] h out found = absurd (cc found)
  count-find p q m (x ∷ l) h out found =
      let more = count_mono p q l h in
      let less = h x in
      elim (Bool-cases (q x)) [
        | inl here ↦
            let same : some x ≡ some m = sym (if_true _ here) ∙ found in
            let out' : p x ≡ false = ground arith in ground arith
        | inr here ↦
            let found' = sym (if_false _ here) ∙ found in
            let ih = count-find p q m l h out found' in ground arith
      ]

  find-holds : (p : A → Bool) (m : A) (l : List A) → find p l ≡ some m → p m ≡ true
  unfolding find
  find-holds p m [] found = absurd (cc found)
  find-holds p m (x ∷ l) found = elim (Bool-cases (p x)) [
    | inl here ↦ let same : some x ≡ some m = sym (if_true _ here) ∙ found in ground arith
    | inr here ↦ find-holds p m l (sym (if_false _ here) ∙ found)
  ]

module _ (dec : Discrete (List ℕ)) where
  unfoldable pub remove_hash : List ℕ → List (Node (List ℕ)) → List (Node (List ℕ))
  remove_hash k [] = []
  remove_hash k (n ∷ l) = let rest = remove_hash k l in ite (dec n.hash k) rest (n ∷ rest)

  unfoldable pub has_hash : List ℕ → List (Node (List ℕ)) → Bool
  has_hash k [] = false
  has_hash k (n ∷ l) = let rest = has_hash k l in ite (dec n.hash k) true rest

  unfoldable pub sum_nodes : List (Node (List ℕ)) → ℕ
  sum_nodes [] = 0
  sum_nodes (n ∷ l) = n.size + sum_nodes l

  pub count-remove_hash :
      (p : Node (List ℕ) → Bool) (k : List ℕ) (l : List (Node (List ℕ)))
      → count p (remove_hash k l) ≤ count p l
  unfolding count remove_hash
  count-remove_hash p k [] = omega arith
  count-remove_hash p k (n ∷ l) = elim (dec n.hash k) [
    | yes e ↦ rw (if_pos _ e) (ground (arith, count-remove_hash p k l))
    | no e ↦ rw (if_neg _ e) (ground (arith, count-remove_hash p k l))
  ]

  pub later_after_lem :
      (n m : Node (List ℕ)) (s : List (Node (List ℕ)))
      → find (is_after n) s ≡ some m
      → count (is_after m) s < count (is_after n) s
  later_after_lem n m s found =
      let after = sym (is_after_iff n m) ∙ find-holds (is_after n) m s found in
      count-find (is_after m) (is_after n) m s
        (λ x h. let h' = sym (is_after_iff m x) ∙ h in is_after_iff n x ∙ ground arith)
        (is_after_iff m m ∙ ground arith) found

  pub deleted_node_lem :
      (n m : Node (List ℕ)) (s : List (Node (List ℕ)))
      → (if has_hash n.hash s then some n else none) ≡ some m
      → m ≡ n
  deleted_node_lem n m s e = elim (Bool-cases (has_hash n.hash s)) [
    | inl there ↦ let same : some n ≡ some m = sym (if_true _ there) ∙ e in ground arith
    | inr absent ↦ absurd (cc (sym (if_false (some n) absent) ∙ e))
  ]

  -- A list that reports some number as its length, which may differ from that of the list: the count of
  -- packages/log/src/entry-index.ts is kept apart from its index.
  abbrev pub reporting_log : (List (Node (List ℕ)) → ℕ) → Log (List ℕ)
  reporting_log reported = record {
    State = List (Node (List ℕ));
    get_length = reported;
    count_entries = length;
    memory_usage = sum_nodes;
    get_oldest = first;
    get_newest = find_last (λ n. true);
    get_after = λ n s. find (is_after n) s;
    get_before = λ n s. find_last (is_before n) s;
    delete_node = λ n s. (remove_hash n.hash s, if has_hash n.hash s then some n else none);
    later = λ n s. count (is_after n) s;
    later_bound = λ n s. count-le (is_after n) s;
    later_after = later_after_lem;
    deleted_node = deleted_node_lem;
    later_delete = λ n m s. count-remove_hash (is_after m) n.hash s;
  }

  abbrev pub list_log : Log (List ℕ)
  list_log = reporting_log length
