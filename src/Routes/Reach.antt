-- ===== src/Routes/Reach.antt =====
-- What the routing table answers (`isReachable`, `hasTarget`, `isUpToDate`, `getDependent`,
-- `countAll`, `getRouteHints`) and the sessions of remote nodes (`updateSession`, `getSession`).
use peerbit.Base.Table.{Table, get, put, delete, has}
use peerbit.Base.{
  ℕ, ◌+◌, ◌-◌, ◌^◌, Bool, true, false, not, ◌||◌, Option, none, some, List, [], ◌∷◌, ltb, leb, ◌==◌,
  if◌then◌else◌, ite, length, keep,
}
use peerbit.Routes.{Relay, Route, Routes, find_neighbor, is_live}
use peerbit.Routes.Add.{or_closed}

-- `Number.MAX_SAFE_INTEGER`, plus one as every distance
unfoldable pub max_safe_distance : ℕ
max_safe_distance = 2 ^ 53

-- `MAX_ROUTE_DISTANCE`
unfoldable pub max_route_distance : ℕ
max_route_distance = max_safe_distance - 1

-- `routeInfo?.list[0]?.distance ?? Number.MAX_SAFE_INTEGER`
unfoldable pub best_distance : {K : Type 0} → List (Relay K) → ℕ
best_distance [] = max_safe_distance
best_distance (r ∷ l) = r.distance

module _ {K : Type 0} (dec : Discrete K) where
  -- `isReachable`
  unfoldable pub is_reachable : Routes K → K → K → ℕ → Bool
  is_reachable s from target limit = elim (find_neighbor dec s from target) [
    | none ↦ false
    | some route ↦ elim (get dec target s.remote_info) [
      | none ↦ false
      | some session ↦
          if ltb route.remote_session session then false else leb (best_distance route.list) limit
    ]
  ]

  -- `isUpToDate`
  unfoldable pub is_up_to_date : Routes K → K → Route K → Bool
  is_up_to_date s target route = elim (get dec target s.remote_info) [
    | none ↦ false
    | some session ↦ leb session route.remote_session
  ]

  -- `hasTarget`
  unfoldable pub has_target : K → Table K (Table K (Route K)) → Bool
  has_target target [] = false
  has_target target ((from, m) ∷ routes) = has dec target m || has_target target routes

  -- `getSession`
  unfoldable pub get_session : Routes K → K → Option ℕ
  get_session s remote = get dec remote s.remote_info

  -- `updateSession` with a session, for a remote whose session is known or not
  unfoldable pub renew : Option ℕ → K → ℕ → Routes K → Routes K × Bool
  renew none remote session s =
      (record s { remote_info = put dec remote session s.remote_info }, true)
  renew (some known) remote session s =
      let s' : Routes K = record s { remote_info = put dec remote session s.remote_info } in
      if known == 0
      then (s, false)
      else if session == 0
      then (s', false)
      else if ltb (or_closed known) session
      then (s', true)
      else (s, false)

  -- `updateSession`
  unfoldable pub update_session : K → Option ℕ → Routes K → Routes K × Bool
  update_session remote none s = (record s { remote_info = delete dec remote s.remote_info }, false)
  update_session remote (some session) s = renew (get dec remote s.remote_info) remote session s

  -- Some relay of the list is the peer.
  unfoldable pub goes_through : K → List (Relay K) → Bool
  goes_through peer [] = false
  goes_through peer (r ∷ l) = ite (dec r.hash peer) true (goes_through peer l)

  unfoldable pub any_through : K → Table K (Route K) → Bool
  any_through peer [] = false
  any_through peer ((to, route) ∷ m) = goes_through peer route.list || any_through peer m

  -- The loop of `getDependent`
  unfoldable pub dependent_of : K → K → Table K (Table K (Route K)) → List K
  dependent_of me peer [] = []
  dependent_of me peer ((from, m) ∷ routes) =
      let rest = dependent_of me peer routes in
      ite (dec from me) rest (if has dec peer m || any_through peer m then from ∷ rest else rest)

  -- `getDependent`
  unfoldable pub get_dependent : K → Routes K → List K
  get_dependent peer s = dependent_of s.me peer s.routes

  unfoldable pub count_map : Table K (Route K) → ℕ
  count_map [] = 0
  count_map ((to, route) ∷ m) = length route.list + count_map m

  unfoldable pub count_maps : Table K (Table K (Route K)) → ℕ
  count_maps [] = 0
  count_maps ((from, m) ∷ routes) = count_map m + count_maps routes

  -- `countAll`
  unfoldable pub count_all : Routes K → ℕ
  count_all s = count_maps s.routes

  -- `getRouteHints`: the live relays, whose fields the hints copy.
  unfoldable pub get_route_hints : ℕ → Routes K → K → K → List (Relay K)
  get_route_hints now s from target = elim (find_neighbor dec s from target) [
    | none ↦ []
    | some route ↦ keep (is_live now) route.list
  ]

  -- The only way to a target other than the candidate is through the candidate.
  unfoldable pub sole_way : K → K → List (Relay K) → Bool
  sole_way candidate target (r ∷ []) =
      ite (dec target candidate) false (ite (dec r.hash candidate) true false)
  sole_way candidate target [] = false
  sole_way candidate target (r ∷ q ∷ l) = false

  -- The loop over the targets
  unfoldable pub is_needed : K → Table K (Route K) → Bool
  is_needed candidate [] = false
  is_needed candidate ((target, route) ∷ m) =
      sole_way candidate target route.list || is_needed candidate m

  -- `getPrunable`
  unfoldable pub get_prunable : Routes K → List K → List K
  get_prunable s neighbours = elim (get dec s.me s.routes) [
    | none ↦ []
    | some m ↦ keep (λ candidate. not (is_needed candidate m)) neighbours
  ]
