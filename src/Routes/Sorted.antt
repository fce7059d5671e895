-- ===== src/Routes/Sorted.antt =====
-- The lists of relays stay sorted by distance, which `getFanout` relies on, and within their limit.
use peerbit.Base.{
  ℕ, zero, suc, ◌≤◌, ◌≡◌, ◌⊎◌, inl, inr, refl, sym, ap, subst, ◌∙◌, Bool, true, false, ◌&&◌, none,
  some, List, [], ◌∷◌, ◌++◌, leb, if◌then◌else◌, if_neg, length, take, length-take-le, arith,
  Bool-cases, ℕ_discrete,
}
use peerbit.Routes.{Relay, expires, comes_first, insert_route, sort_routes}
use peerbit.Routes.Add.{
  refreshed, longer, absent, expire_list, cons_match, match_relay, same_distance, merge_relay,
}

-- No element of the list is below `d`.
abbrev pub AllAbove : ℕ → List ℕ → Type 0
AllAbove d [] = Unit
AllAbove d (e ∷ l) = (d ≤ e) × AllAbove d l

abbrev pub Ascending : List ℕ → Type 0
Ascending [] = Unit
Ascending (d ∷ l) = AllAbove d l × Ascending l

abbrev pub distances : {K : Type 0} → List (Relay K) → List ℕ
distances [] = []
distances (r ∷ l) = r.distance ∷ distances l

AllAbove-mono : (d e : ℕ) (l : List ℕ) → d ≤ e → AllAbove e l → AllAbove d l
AllAbove-mono d e [] le a = tt
AllAbove-mono d e (x ∷ l) le (le', a) = (omega arith, AllAbove-mono d e l le a)

module _ {K : Type 0} where
  AllAbove-insert :
      (d : ℕ) (r : Relay K) (l : List (Relay K))
      → d ≤ r.distance
      → AllAbove d (distances l)
      → AllAbove d (distances (insert_route r l))
  unfolding insert_route
  AllAbove-insert d r [] le a = (le, tt)
  AllAbove-insert d r (s ∷ l) le (le', a) = elim (Bool-cases (comes_first r s)) [
    | inl e ↦ rw (e, insert_route) (le, (le', a))
    | inr e ↦ rw (e, insert_route) (le', AllAbove-insert d r l le a)
  ]

  comes_first-le : (a b : Relay K) → comes_first a b ≡ true → a.distance ≤ b.distance
  unfolding comes_first
  comes_first-le a b e = ground arith

  comes_after-le : (a b : Relay K) → comes_first a b ≡ false → b.distance ≤ a.distance
  unfolding comes_first
  comes_after-le a b e = ground arith

  insert_route-Ascending :
      (r : Relay K) (l : List (Relay K))
      → Ascending (distances l)
      → Ascending (distances (insert_route r l))
  unfolding insert_route
  insert_route-Ascending r [] a = (tt, tt)
  insert_route-Ascending r (s ∷ l) (b, a) = elim (Bool-cases (comes_first r s)) [
    | inl e ↦
        let le = comes_first-le r s e in
        rw (e, insert_route) ((le, AllAbove-mono r.distance s.distance (distances l) le b), (b, a))
    | inr e ↦
        rw (e, insert_route)
          (AllAbove-insert s.distance r l (comes_after-le r s e) b, insert_route-Ascending r l a)
  ]

  pub sort_routes-Ascending : (l : List (Relay K)) → Ascending (distances (sort_routes l))
  unfolding sort_routes
  sort_routes-Ascending [] = tt
  sort_routes-Ascending (r ∷ l) = insert_route-Ascending r (sort_routes l) (sort_routes-Ascending l)

  AllAbove-take :
      (d n : ℕ) (l : List (Relay K)) → AllAbove d (distances l) → AllAbove d (distances (take n l))
  AllAbove-take d zero l a = tt
  AllAbove-take d (suc n) [] a = tt
  AllAbove-take d (suc n) (r ∷ l) (le, a) = (le, AllAbove-take d n l a)

  take-Ascending :
      (n : ℕ) (l : List (Relay K)) → Ascending (distances l) → Ascending (distances (take n l))
  take-Ascending zero l a = tt
  take-Ascending (suc n) [] a = tt
  take-Ascending (suc n) (r ∷ l) (b, a) = (AllAbove-take r.distance n l b, take-Ascending n l a)

  pub distances-expire_list :
      (at : ℕ) (l : List (Relay K)) → distances (expire_list at l) ≡ distances l
  unfolding expire_list
  distances-expire_list at [] = refl
  distances-expire_list at (r ∷ l) = elim (Bool-cases (expires r)) [
    | inl e ↦ rw (e, expire_list) (ap (◌∷◌ r.distance) (distances-expire_list at l))
    | inr e ↦ rw (e, expire_list) (ap (◌∷◌ r.distance) (distances-expire_list at l))
  ]

  length-distances : (l : List (Relay K)) → length (distances l) ≡ length l
  length-distances [] = refl
  length-distances (r ∷ l) = ap suc (length-distances l)

  pub length-expire_list : (at : ℕ) (l : List (Relay K)) → length (expire_list at l) ≡ length l
  length-expire_list at l =
      sym (length-distances (expire_list at l))
      ∙ ap length (distances-expire_list at l)
      ∙ length-distances l

module _ {K : Type 0} (dec : Discrete K) where
  -- What the loop over the relays can find.
  abbrev Matches : Bool → Relay K → List (Relay K) → Type 0
  Matches is_new r l =
      ((l' : List (Relay K)) × (match_relay dec is_new r l ≡ refreshed l')
        × ((same_distance dec r l ≡ false) ⊎ (distances l' ≡ distances l)))
      ⊎ ((match_relay dec is_new r l ≡ longer l) ⊎ (match_relay dec is_new r l ≡ absent l))

  match_relay-cases : (is_new : Bool) (r : Relay K) (l : List (Relay K)) → Matches is_new r l
  unfolding match_relay same_distance cons_match
  match_relay-cases is_new r [] = inr (inr refl)
  match_relay-cases is_new r (s ∷ l) = elim (dec s.hash r.hash) [
    | yes p ↦ elim (Bool-cases (is_new && leb r.distance s.distance)) [
      | inl e ↦ elim (ℕ_discrete r.distance s.distance) [
        | yes same ↦ inl (
          record s {
            distance = r.distance;
            session = r.session;
            updated_at = r.updated_at;
            expire_at = none;
          }
              ∷ l,
          ground arith,
          inr (ap (λ (d : ℕ). d ∷ distances l) same),
        )
        | no nearer ↦ inl (
          record s {
            distance = r.distance;
            session = r.session;
            updated_at = r.updated_at;
            expire_at = none;
          }
              ∷ l,
          ground arith,
          inl (ground arith),
        )
      ]
      | inr e ↦ inr (inl (ground arith))
    ]
    | no p ↦ elim (match_relay-cases is_new r l) [
      | inl (l', e, inl d) ↦ inl (s ∷ l', rw (if_neg _ p, e) refl, inl (ground arith))
      | inl (l', e, inr d) ↦ inl (s ∷ l', rw (if_neg _ p, e) refl, inr (ap (◌∷◌ s.distance) d))
      | inr (inl e) ↦ inr (inl (rw (if_neg _ p, e) refl))
      | inr (inr e) ↦ inr (inr (rw (if_neg _ p, e) refl))
    ]
  ]

  -- A list that is sorted and not longer than the limit.
  abbrev pub InOrder : ℕ → List (Relay K) → Type 0
  InOrder limit l = Ascending (distances l) × (length l ≤ limit)

  sorted-InOrder : (limit : ℕ) (l : List (Relay K)) → InOrder limit (take limit (sort_routes l))
  sorted-InOrder limit l = (
    take-Ascending limit (sort_routes l) (sort_routes-Ascending l),
    length-take-le limit (sort_routes l),
  )

  kept-InOrder :
      (limit : ℕ) (l l' : List (Relay K))
      → distances l' ≡ distances l
      → Ascending (distances l)
      → InOrder limit (take limit l')
  kept-InOrder limit l l' e a =
      (take-Ascending limit l' (subst Ascending (sym e) a), length-take-le limit l')

  -- The merge of news into a list leaves it sorted and within the limit.
  pub merge_relay-InOrder :
      (limit : ℕ) (is_new is_old : Bool) (expiry : ℕ) (r : Relay K) (l : List (Relay K))
      → InOrder limit l
      → InOrder limit (merge_relay dec limit is_new is_old expiry r l)
  unfolding merge_relay
  merge_relay-InOrder limit is_new is_old expiry r l (a, le) = elim (match_relay-cases is_new r l) [
    | inl (l', e, inl d) ↦ rw (e, d, merge_relay) (sorted-InOrder limit l')
    | inl (l', e, inr d) ↦ elim (Bool-cases (same_distance dec r l)) [
      | inl same ↦ rw (e, same, merge_relay) (kept-InOrder limit l l' d a)
      | inr other ↦ rw (e, other, merge_relay) (sorted-InOrder limit l')
    ]
    | inr (inl e) ↦ elim (Bool-cases is_new) [
      | inl new ↦ rw (e, merge_relay) (rw new (sorted-InOrder limit (l ++ r ∷ [])))
      | inr old ↦ rw (e, merge_relay) (rw old (a, le))
    ]
    | inr (inr e) ↦
        rw (e, merge_relay)
          (sorted-InOrder limit
            (l ++ record r { expire_at = if is_old then some expiry else none } ∷ []))
  ]
