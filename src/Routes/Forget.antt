-- ===== src/Routes/Forget.antt =====
-- What `remove` leaves of a node.
use peerbit.Base.Table.{Table, delete, has, get-delete}
use peerbit.Base.{◌≡◌, refl, sym, ap, ◌∙◌, false, none, List, [], ◌∷◌, if_pos, if_neg, arith}
use peerbit.Routes.{Relay, Route, Routes}
use peerbit.Routes.Reach.{
  has_target, goes_through, any_through, dependent_of, get_dependent, get_session,
}
use peerbit.Routes.Remove.{without, drop_neighbour, drop_target, remove}

module _ {K : Type 0} (dec : Discrete K) where
  goes_through-without : (t : K) (l : List (Relay K)) → goes_through dec t (without dec t l) ≡ false
  unfolding goes_through without
  goes_through-without t [] = refl
  goes_through-without t (r ∷ l) = elim (dec r.hash t) [
    | yes p ↦ rw (if_pos _ p) (goes_through-without t l)
    | no p ↦ rw (if_neg _ p) (ground (arith, goes_through-without t l))
  ]

  any_through-drop :
      (t : K) (m : Table K (Route K)) → any_through dec t (drop_neighbour dec t m) ≡ false
  unfolding any_through drop_neighbour
  any_through-drop t [] = refl
  any_through-drop t ((to, route) ∷ m) =
      go (without dec t route.list) refl (goes_through-without t route.list) (any_through-drop t m)
    where
      go :
          (l : List (Relay K))
          → without dec t route.list ≡ l
          → goes_through dec t (without dec t route.list) ≡ false
          → any_through dec t (drop_neighbour dec t m) ≡ false
          → any_through dec t (drop_neighbour dec t ((to, route) ∷ m)) ≡ false
      go [] e h ih = rw (e, drop_neighbour) ih
      go (r ∷ l) e h ih =
          let g = sym (ap (goes_through dec t) e) ∙ h in rw (e, drop_neighbour) (ground arith)

  has-delete : (t : K) (m : Table K (Route K)) → has dec t (delete dec t m) ≡ false
  unfolding has delete
  has-delete t [] = refl
  has-delete t ((to, route) ∷ m) = elim (dec to t) [
    | yes p ↦ rw (if_pos _ p) (has-delete t m)
    | no p ↦ rw (if_neg _ p) (ground (arith, has-delete t m))
  ]

  has-drop_neighbour :
      (t k : K) (m : Table K (Route K))
      → has dec k m ≡ false
      → has dec k (drop_neighbour dec t m) ≡ false
  unfolding has drop_neighbour
  has-drop_neighbour t k [] h = refl
  has-drop_neighbour t k ((to, route) ∷ m) h =
      go (without dec t route.list) refl (has-drop_neighbour t k m (ground arith))
    where
      go :
          (l : List (Relay K))
          → without dec t route.list ≡ l
          → has dec k (drop_neighbour dec t m) ≡ false
          → has dec k (drop_neighbour dec t ((to, route) ∷ m)) ≡ false
      go [] e ih = rw (e, drop_neighbour) ih
      go (r ∷ l) e ih = rw (e, drop_neighbour) (ground arith)

  -- Of each map that is left, neither a target nor a relay is the node.
  abbrev pub Forgets : K → Table K (Table K (Route K)) → Type 0
  Forgets t [] = Unit
  Forgets t ((from, m) ∷ routes) =
      (has dec t m ≡ false) × (any_through dec t m ≡ false) × Forgets t routes

  drop_target-Forgets :
      (t : K) (routes : Table K (Table K (Route K))) → Forgets t (drop_target dec t routes)
  unfolding drop_target
  drop_target-Forgets t [] = tt
  drop_target-Forgets t ((from, m) ∷ routes) =
      go (drop_neighbour dec t (delete dec t m)) refl (drop_target-Forgets t routes)
    where
      go :
          (l : Table K (Route K))
          → drop_neighbour dec t (delete dec t m) ≡ l
          → Forgets t (drop_target dec t routes)
          → Forgets t (drop_target dec t ((from, m) ∷ routes))
      go [] e ih = rw (e, drop_target) ih
      go (r ∷ l) e ih =
          rw (e, drop_target)
            (
              ap (has dec t) (sym e) ∙ has-drop_neighbour t t (delete dec t m) (has-delete t m),
              ap (any_through dec t) (sym e) ∙ any_through-drop t (delete dec t m),
              ih,
            )

  Forgets-has_target :
      (t : K) (routes : Table K (Table K (Route K)))
      → Forgets t routes
      → has_target dec t routes ≡ false
  unfolding has_target
  Forgets-has_target t [] f = refl
  Forgets-has_target t ((from, m) ∷ routes) (h, _, f) =
      ground (arith, Forgets-has_target t routes f)

  Forgets-dependent :
      (me t : K) (routes : Table K (Table K (Route K)))
      → Forgets t routes
      → dependent_of dec me t routes ≡ []
  unfolding dependent_of
  Forgets-dependent me t [] f = refl
  Forgets-dependent me t ((from, m) ∷ routes) (h, g, f) = elim (dec from me) [
    | yes p ↦ rw (if_pos _ p) (Forgets-dependent me t routes f)
    | no p ↦ rw (if_neg _ p, h, g) (Forgets-dependent me t routes f)
  ]

  -- After `remove` of a node, no routes have it as their target, no other node depends on it, and its
  -- session is forgotten.
  pub remove-forgets :
      (t : K) (s : Routes K)
      → (has_target dec t (remove dec t s).0.routes ≡ false)
        × (get_dependent dec t (remove dec t s).0 ≡ [])
        × (get_session dec (remove dec t s).0 t ≡ none)
  unfolding remove get_dependent get_session
  remove-forgets t s =
      let f = drop_target-Forgets t (delete dec t s.routes) in
      (
        Forgets-has_target t (drop_target dec t (delete dec t s.routes)) f,
        Forgets-dependent s.me t (drop_target dec t (delete dec t s.routes)) f,
        get-delete dec t t s.remote_info ∙ if_pos (dec t t) refl _ _,
      )
