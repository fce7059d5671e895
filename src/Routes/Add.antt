-- ===== src/Routes/Add.antt =====
-- `Routes.add`: a route that is new, or news of one.
use peerbit.Base.Table.{Table, get}
use peerbit.Base.{
  ℕ, ◌+◌, Bool, true, false, not, ◌&&◌, ◌||◌, none, some, List, [], ◌∷◌, ◌++◌, ltb, leb, ◌==◌,
  if◌then◌else◌, ite, take, max,
}
use peerbit.Routes.{
  Relay, Route, Routes, expires, sort_routes, find_neighbor, touch, request_cleanup,
  prune_from_maps, prune_targets,
}

pub data Change : Type 0 where
  new updated restart : Change

-- What the loop over the list finds: the relay, refreshed in place, one that is not refreshed, or none.
pub data Match (K : Type 0) : Type 0 where
  refreshed longer absent : List (Relay K) → Match K

-- The previous routes are marked as old.
unfoldable pub expire_list : {K : Type 0} → ℕ → List (Relay K) → List (Relay K)
expire_list at [] = []
expire_list at (r ∷ l) =
    (if expires r then r else record r { expire_at = some at }) ∷ expire_list at l

unfoldable pub has_fresh : {K : Type 0} → List (Relay K) → Bool
has_fresh [] = false
has_fresh (r ∷ l) = not (expires r) || has_fresh l

-- `prev.remoteSession || -1`
unfoldable pub or_closed : ℕ → ℕ
or_closed session = if session == 1 then 0 else session

unfoldable pub cons_match : {K : Type 0} → Relay K → Match K → Match K
cons_match r (refreshed l) = refreshed (r ∷ l)
cons_match r (longer l) = longer (r ∷ l)
cons_match r (absent l) = absent (r ∷ l)

module _ {K : Type 0} (dec : Discrete K) where
  -- The loop over the list, up to the first relay by the neighbour.
  unfoldable pub match_relay : Bool → Relay K → List (Relay K) → Match K
  match_relay is_new r [] = absent []
  match_relay is_new r (s ∷ l) =
      let rest = match_relay is_new r l in
      ite (dec s.hash r.hash)
        (if is_new && leb r.distance s.distance
          then refreshed (
              record s {
                distance = r.distance;
                session = r.session;
                updated_at = r.updated_at;
                expire_at = none;
              }
              ∷ l)
          else longer (s ∷ l))
        (cons_match s rest)

  -- The first relay by the neighbour is at the same distance; the code then leaves out the sorting.
  unfoldable pub same_distance : Relay K → List (Relay K) → Bool
  same_distance r [] = false
  same_distance r (s ∷ l) = ite (dec s.hash r.hash) (r.distance == s.distance) (same_distance r l)

  -- The list with the news `r`: a relay that is refreshed needs no new one; any other is pushed,
  -- unless it is there and the session is not new.
  unfoldable pub merge_relay : ℕ → Bool → Bool → ℕ → Relay K → List (Relay K) → List (Relay K)
  merge_relay limit is_new is_old expiry r l = elim (match_relay is_new r l) [
    | refreshed l' ↦ take limit (if same_distance r l then l' else sort_routes l')
    | longer l' ↦ if is_new then take limit (sort_routes (l' ++ r ∷ [])) else l'
    | absent l' ↦
        take limit
          (sort_routes (l' ++ record r { expire_at = if is_old then some expiry else none } ∷ []))
  ]

  -- What `add` returns
  unfoldable pub change_of : Bool → Match K → Change
  change_of new_remote (refreshed l) = if new_remote then restart else updated
  change_of new_remote (longer l) = if new_remote then restart else updated
  change_of new_remote (absent l) = new

  -- The route of a target with the news `r`, that of the previous route first.
  unfoldable pub update_route : Routes K → ℕ → Bool → Bool → ℕ → Relay K → Route K → Route K
  update_route s now is_new is_old remote r prev = record {
    remote_session = remote;
    session = max r.session prev.session;
    list =
        merge_relay s.max_relays is_new is_old (now + s.retention) r
          (if is_new then expire_list (now + s.retention) prev.list else prev.list);
  }

  -- The request of a cleanup
  unfoldable pub request : Bool → Bool → ℕ → K → K → List (Relay K) → Routes K → Routes K
  request is_new is_old distance from target l s =
      if (if is_new then not (distance == 0) && has_fresh l else is_old)
      then request_cleanup dec from target s
      else s

  -- The maps with the new route, which is the last one used.
  unfoldable pub store : K → K → Route K → Routes K → Routes K
  store from target route s =
      let m : Table K (Route K) = elim (get dec from s.routes) [ none ↦ [] | some m ↦ m ] in
      prune_from_maps dec (record s {
        routes = touch dec from (prune_targets s.max_targets (touch dec target route m)) s.routes;
      })

  -- The distance to a neighbour of this node is that of a direct link.
  unfoldable pub link_distance : Routes K → K → K → K → ℕ → ℕ
  link_distance s from neighbour target distance =
      ite (dec neighbour target) (ite (dec from s.me) 0 distance) distance

  -- `add` where the target has the route `prev`
  unfoldable pub add_known : ℕ → K → K → ℕ → Relay K → Route K → Routes K → Routes K × Change
  add_known now from target remote r prev s =
      let is_new = ltb prev.session r.session in
      let is_old = ltb r.session prev.session in
      let l = if is_new then expire_list (now + s.retention) prev.list else prev.list in
      let route =
        update_route s now is_new is_old (max remote (or_closed prev.remote_session)) r prev in
      (
        store from target route (request is_new is_old r.distance from target prev.list s),
        change_of (ltb (or_closed prev.remote_session) remote) (match_relay is_new r l),
      )

  -- `add` where the target has no route
  unfoldable pub add_unknown : ℕ → K → K → ℕ → Relay K → Routes K → Routes K × Change
  add_unknown now from target remote r s =
      let prev : Route K = record { remote_session = remote; session = r.session; list = [] } in
      (store from target (update_route s now true false remote r prev) s, new)

  -- `add`
  unfoldable pub add : ℕ → K → K → K → ℕ → ℕ → ℕ → Routes K → Routes K × Change
  add now from neighbour target distance session remote s =
      let r : Relay K = record {
        session = session;
        hash = neighbour;
        updated_at = now;
        expire_at = none;
        distance = link_distance s from neighbour target distance;
      } in
      elim (find_neighbor dec s from target) [
        | none ↦ add_unknown now from target remote r s
        | some route ↦ add_known now from target remote r route s
      ]
