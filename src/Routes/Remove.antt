-- ===== src/Routes/Remove.antt =====
-- `Routes.remove` and `Routes.removeNeighbour`.
use peerbit.Base.Table.{Table, get, delete, include}
use peerbit.Base.{true, false, not, none, some, List, [], ◌∷◌, ite, keep}
use peerbit.Routes.{Relay, Route, Routes}
use peerbit.Routes.Reach.{is_reachable, max_route_distance}

module _ {K : Type 0} (dec : Discrete K) where
  -- The list without the relays by a neighbour.
  unfoldable pub without : K → List (Relay K) → List (Relay K)
  without neighbour l = keep (λ r. ite (dec r.hash neighbour) false true) l

  -- The loop over the targets: a route without relays is deleted.
  unfoldable pub drop_neighbour : K → Table K (Route K) → Table K (Route K)
  drop_neighbour neighbour [] = []
  drop_neighbour neighbour ((to, route) ∷ m) =
      let rest = drop_neighbour neighbour m in
      elim (without neighbour route.list) [
        | [] ↦ rest
        | r ∷ l ↦ (to, record route { list = r ∷ l }) ∷ rest
      ]

  -- The targets whose routes are deleted.
  unfoldable pub lost_targets : K → Table K (Route K) → List K
  lost_targets neighbour [] = []
  lost_targets neighbour ((to, route) ∷ m) =
      let rest = lost_targets neighbour m in
      elim (without neighbour route.list) [ [] ↦ to ∷ rest | r ∷ l ↦ rest ]

  -- The loop of `remove` over the maps.
  unfoldable pub drop_target : K → Table K (Table K (Route K)) → Table K (Table K (Route K))
  drop_target target [] = []
  drop_target target ((from, m) ∷ routes) =
      let rest = drop_target target routes in
      elim (drop_neighbour target (delete dec target m)) [
        | [] ↦ rest
        | e ∷ l ↦ (from, e ∷ l) ∷ rest
      ]

  -- The targets that `remove` may make unreachable.
  unfoldable pub maybe_unreachable : K → Routes K → List K
  maybe_unreachable target s = elim (get dec s.me (delete dec target s.routes)) [
    | none ↦ []
    | some m ↦
        let lost = lost_targets target (delete dec target m) in
        elim (get dec target m) [ none ↦ lost | some _ ↦ include dec target lost ]
  ]

  -- `remove`, with the targets that are unreachable after it
  unfoldable pub remove : K → Routes K → Routes K × List K
  remove target s =
      let s' : Routes K = record s {
        routes = drop_target target (delete dec target s.routes);
        remote_info = delete dec target s.remote_info;
      } in
      (
        s',
        keep (λ t. not (is_reachable dec s' s.me t max_route_distance))
            (maybe_unreachable target s),
      )

  drop_everywhere : K → Table K (Table K (Route K)) → Table K (Table K (Route K))
  drop_everywhere neighbour [] = []
  drop_everywhere neighbour ((from, m) ∷ routes) =
      (from, drop_neighbour neighbour m) ∷ drop_everywhere neighbour routes

  -- `removeNeighbour`
  unfoldable pub remove_neighbour : K → Routes K → Routes K
  unfolding drop_everywhere
  remove_neighbour neighbour s = record s {
    routes = drop_everywhere neighbour (delete dec neighbour s.routes);
  }
