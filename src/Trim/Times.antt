-- ===== src/Trim/Times.antt =====
-- Trims of a log by the times of its entries: where times increase the list keeps the order that a trim
-- relies on, where they are equal it does not.
use peerbit.Base.{
  ℕ, ◌≡◌, ◌≢◌, ◌<◌, refl, sym, ap, subst, ◌∙◌, true, none, some, List, [], ◌∷◌, if◌then◌else◌,
  if_true, if_false, if_pos, if_neg, arith,
}
use peerbit.TrimOptions.{Node}
use peerbit.Trim.Oldest.{Order, first}
use peerbit.Trim.Sorted.{is_after, is_after_iff, find, remove_hash, has_hash, list_log}

module _ (dec : Discrete (List ℕ)) where
  -- Every node of a list is later than one, with another hash.
  abbrev pub AllLater : Node (List ℕ) → List (Node (List ℕ)) → Type 0
  AllLater n [] = Unit
  AllLater n (m ∷ l) =
      (n.timestamp.wall_time < m.timestamp.wall_time) × (m.hash ≢ n.hash) × AllLater n l

  -- The wall times increase, and the hashes differ.
  abbrev pub Increasing : List (Node (List ℕ)) → Type 0
  Increasing [] = Unit
  Increasing (n ∷ l) = AllLater n l × Increasing l

  find-AllLater :
      (n : Node (List ℕ)) (l : List (Node (List ℕ))) → AllLater n l → find (is_after n) l ≡ first l
  unfolding find
  find-AllLater n [] all = refl
  find-AllLater n (m ∷ l) (later, _, all) = if_true _ (is_after_iff n m ∙ ground arith)

  pub find-head :
      (n : Node (List ℕ)) (l : List (Node (List ℕ)))
      → find (is_after n) (n ∷ l) ≡ find (is_after n) l
  unfolding find
  find-head n l = if_false _ (is_after_iff n n ∙ ground arith)

  remove_hash-AllLater :
      (n : Node (List ℕ)) (l : List (Node (List ℕ))) → AllLater n l → remove_hash dec n.hash l ≡ l
  unfolding remove_hash
  remove_hash-AllLater n [] all = refl
  remove_hash-AllLater n (m ∷ l) (_, other, all) =
      if_neg (dec m.hash n.hash) other _ _ ∙ ap (◌∷◌ m) (remove_hash-AllLater n l all)

  pub remove_hash-head :
      (n : Node (List ℕ)) (l : List (Node (List ℕ)))
      → remove_hash dec n.hash (n ∷ l) ≡ remove_hash dec n.hash l
  unfolding remove_hash
  remove_hash-head n l = if_pos (dec n.hash n.hash) refl _ _

  pub has_hash-head :
      (n : Node (List ℕ)) (l : List (Node (List ℕ))) → has_hash dec n.hash (n ∷ l) ≡ true
  unfolding has_hash
  has_hash-head n l = if_pos (dec n.hash n.hash) refl _ _

  pub after_first_lem :
      (n : Node (List ℕ)) (l s : List (Node (List ℕ)))
      → Increasing s
      → s ≡ n ∷ l
      → find (is_after n) s ≡ first l
  after_first_lem n l s good e =
      let (all, _) = subst Increasing e good in
      ap (find (is_after n)) e ∙ find-head n l ∙ find-AllLater n l all

  pub delete_first_lem :
      (n : Node (List ℕ)) (l s : List (Node (List ℕ)))
      → Increasing s
      → s ≡ n ∷ l
      → Increasing (remove_hash dec n.hash s)
        × (remove_hash dec n.hash s ≡ l)
        × ((if has_hash dec n.hash s then some n else none) ≡ some n)
  delete_first_lem n l s good e =
      let (all, good') = subst Increasing e good in
      let gone =
        ap (remove_hash dec n.hash) e ∙ remove_hash-head n l ∙ remove_hash-AllLater n l all in
      (
        subst Increasing (sym gone) good',
        gone,
        if_true none (ap (has_hash dec n.hash) e ∙ has_hash-head n l),
      )

  abbrev pub list_order : Order (list_log dec)
  list_order = record {
    entries = λ s. s;
    IsGood = Increasing;
    length_entries = λ s good. refl;
    counted_entries = λ s good. refl;
    oldest_first = λ s good. refl;
    after_first = after_first_lem;
    delete_first = delete_first_lem;
  }
