-- ===== src/Routes/Prunable.antt =====
-- Neighbours that can be pruned (`getPrunable`).
use peerbit.Base.Keys.{Distinct}
use peerbit.Base.Table.{Table, get, contains}
use peerbit.Base.{
  ℕ, ◌≡◌, ◌≢◌, inl, inr, refl, sym, ap, subst, ◌∙◌, Bool, true, false, not, Option, none, some,
  List, [], ◌∷◌, get_elem?, keep, arith, Bool-cases, Option-cases, if◌then◌else◌,
}
use peerbit.Routes.{Relay, Route, Routes, find_neighbor}
use peerbit.Routes.Reach.{sole_way, is_needed, get_prunable}

abbrev pub hashes : {K : Type 0} → List (Relay K) → List K
hashes [] = []
hashes (r ∷ l) = r.hash ∷ hashes l

module _ {K : Type 0} (dec : Discrete K) where
  -- Some relay of the list is another node than the candidate.
  abbrev pub Another : K → List (Relay K) → Type 0
  Another candidate l = (j : ℕ) × (r : Relay K) × (get_elem? l j ≡ some r) × (r.hash ≢ candidate)

  Another-of_two :
      (c : K) (r q : Relay K) (l : List (Relay K))
      → Distinct dec (hashes (r ∷ q ∷ l))
      → Another c (r ∷ q ∷ l)
  unfolding contains
  Another-of_two c r q l (once, _) = elim (dec r.hash c) [
    | no other ↦ (0, r, refl, other)
    | yes same ↦ (1, q, refl, λ same'. absurd (ground arith))
  ]

  not_sole_way :
      (c target : K) (l : List (Relay K))
      → sole_way dec c target l ≡ false
      → target ≢ c
      → l ≢ []
      → Distinct dec (hashes l)
      → Another c l
  unfolding sole_way
  not_sole_way c target [] h ne listed d = absurd (listed refl)
  not_sole_way c target (r ∷ []) h ne listed d = elim (dec r.hash c) [
    | yes same ↦ absurd (ground arith)
    | no other ↦ (0, r, refl, other)
  ]
  not_sole_way c target (r ∷ q ∷ l) h ne listed d = Another-of_two c r q l d

  not_needed :
      (c target : K) (route : Route K) (m : Table K (Route K))
      → is_needed dec c m ≡ false
      → get dec target m ≡ some route
      → sole_way dec c target route.list ≡ false
  unfolding is_needed get
  not_needed c target route [] h found = cc found
  not_needed c target route ((to, other) ∷ m) h found = elim (dec to target) [
    | yes same ↦
        let here : other ≡ route = ground arith in
        let free : sole_way dec c to other.list ≡ false = ground arith in
        ap (λ (k : K). sole_way dec c k route.list) (sym same)
        ∙ ap (λ (r : Route K). sole_way dec c to r.list) (sym here)
        ∙ free
    | no other_key ↦ not_needed c target route m (ground arith) (ground arith)
  ]

  contains-keep :
      (p : K → Bool) (c : K) (l : List K) → contains dec c (keep p l) ≡ true → p c ≡ true
  unfolding contains
  contains-keep p c [] h = cc h
  contains-keep p c (k ∷ l) h = elim (Bool-cases (p k)) [
    | inl e ↦
        let kept : contains dec c (k ∷ keep p l) ≡ true =
          subst (λ (b : Bool). contains dec c (if b then k ∷ keep p l else keep p l) ≡ true) e h in
        elim (dec k c) [
          | yes same ↦ sym (ap p same) ∙ e
          | no other ↦ contains-keep p c l (ground arith)
        ]
    | inr e ↦
        contains-keep p c l
          (subst (λ (b : Bool). contains dec c (if b then k ∷ keep p l else keep p l) ≡ true) e h)
  ]

  -- Of a neighbour that `getPrunable` names, and any other target that this node has a route to, with at
  -- least one relay and no relay node twice: one of the relays is another node than the neighbour.
  pub get_prunable-Another :
      (s : Routes K) (neighbours : List K) (c target : K) (route : Route K)
      → contains dec c (get_prunable dec s neighbours) ≡ true
      → find_neighbor dec s s.me target ≡ some route
      → target ≢ c
      → route.list ≢ []
      → Distinct dec (hashes route.list)
      → Another c route.list
  unfolding get_prunable find_neighbor
  get_prunable-Another s neighbours c target route named found ne listed d =
      elim (Option-cases (get dec s.me s.routes)) [
        | inl e ↦ absurd (
            cc (
              ap
                (λ (o : Option (Table K (Route K))). elim o as (λ _. Option (Route K)) [
                  | none ↦ none
                  | some m ↦ get dec target m
                ])
                e))
        | inr (m, e) ↦
            let kept =
              subst
                (λ (o : Option (Table K (Route K))).
                  contains dec c (elim o as (λ _. List K) [
                    | none ↦ []
                    | some m ↦ keep (λ k. not (is_needed dec k m)) neighbours
                  ])
                  ≡ true)
                e named in
            let there =
              subst
                (λ (o : Option (Table K (Route K))).
                  elim o as (λ _. Option (Route K)) [ none ↦ none | some m ↦ get dec target m ]
                  ≡ some route)
                e found in
            let free = contains-keep (λ k. not (is_needed dec k m)) c neighbours kept in
            not_sole_way c target route.list (not_needed c target route m (ground arith) there) ne
              listed d
      ]
