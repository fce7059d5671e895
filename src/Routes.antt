-- ===== src/Routes.antt =====
-- packages/transport/stream/src/routes.ts: the routing table of a node, from a sender to a target by
-- the neighbours that lead there.
-- The keys are the hashes of public keys, none of which is the empty string. A distance and a session
-- of a remote node are written plus one, so that -1, which stands for a direct link and for a closed
-- session, is 0. Times are positive and one call reads the clock once; the limits are at least 1, as
-- the constructor makes them. The timer of the cleanup is a flag, and its handler an operation.
pub mod Add
pub mod Remove
pub mod Forget
pub mod Reach
pub mod Fanout
pub mod Sorted
pub mod Kept
pub mod Evict
pub mod Sessions
pub mod Prunable
pub mod Deliver
mod Tests
use peerbit.Base.Table.{Table, get, put, delete, include}
use peerbit.Base.{
  ℕ, zero, suc, ◌+◌, ◌*◌, ◌-◌, Bool, true, false, not, ◌&&◌, ◌||◌, Option, none, some, List, [],
  ◌∷◌, ◌++◌, ltb, leb, ◌==◌, if◌then◌else◌, ite, length, take, keep,
}

-- `RelayInfo`
pub record Relay (K : Type 0) : Type 0 where
  pub session : ℕ
  pub hash : K
  pub updated_at : ℕ
  pub expire_at : Option ℕ
  pub distance : ℕ

-- `RouteInfo`
pub record Route (K : Type 0) : Type 0 where
  pub remote_session : ℕ
  pub session : ℕ
  pub list : List (Relay K)

-- The state of `Routes`
pub record Routes (K : Type 0) : Type 0 where
  pub me : K
  pub routes : Table K (Table K (Route K))
  pub remote_info : Table K ℕ
  pub pending : Table K (List K)
  pub timer : Bool
  pub aborted : Bool
  pub retention : ℕ
  pub max_from : ℕ
  pub max_targets : ℕ
  pub max_relays : ℕ

abbrev pub expires : {K : Type 0} → Relay K → Bool
expires r = elim r.expire_at [ none ↦ false | some t ↦ true ]

-- The order of `sortRoutes`: not positive, by distance and then those that do not expire first.
unfoldable pub comes_first : {K : Type 0} → Relay K → Relay K → Bool
comes_first a b =
    if a.distance == b.distance
    then not (expires a && not (expires b))
    else ltb a.distance b.distance

unfoldable pub insert_route : {K : Type 0} → Relay K → List (Relay K) → List (Relay K)
insert_route r [] = r ∷ []
insert_route r (s ∷ l) = if comes_first r s then r ∷ s ∷ l else s ∷ insert_route r l

-- `sortRoutes`, which is stable
unfoldable pub sort_routes : {K : Type 0} → List (Relay K) → List (Relay K)
sort_routes [] = []
sort_routes (r ∷ l) = insert_route r (sort_routes l)

-- A relay that has not expired.
unfoldable pub is_live : {K : Type 0} → ℕ → Relay K → Bool
is_live now r = elim r.expire_at [ none ↦ true | some t ↦ leb now t ]

-- `pruneTargets`: the oldest targets go.
unfoldable pub prune_targets {ℓ κ} : {K : Type κ} {V : Type ℓ} → ℕ → Table K V → Table K V
prune_targets limit [] = []
prune_targets limit (e ∷ m) =
    let rest = prune_targets limit m in if leb (length (e ∷ m)) limit then e ∷ m else rest

module _ {K : Type 0} (dec : Discrete K) where
  -- Deletes a key and sets it again, so that it comes last.
  abbrev pub touch {ℓ} : {V : Type ℓ} → K → V → Table K V → Table K V
  touch k v m = put dec k v (delete dec k m)

  abbrev pub route_map : Routes K → K → Option (Table K (Route K))
  route_map s from = get dec from s.routes

  -- `findNeighbor`
  unfoldable pub find_neighbor : Routes K → K → K → Option (Route K)
  find_neighbor s from target = elim (get dec from s.routes) [
    | none ↦ none
    | some m ↦ get dec target m
  ]

  -- `clear`
  unfoldable pub clear : Routes K → Routes K
  clear s = record s { routes = []; pending = []; timer = false }

  -- `requestCleanup`
  unfoldable pub request_cleanup : K → K → Routes K → Routes K
  request_cleanup from to s = if s.aborted then s else record s {
    pending = elim (get dec from s.pending) [
      | none ↦ put dec from (to ∷ []) s.pending
      | some targets ↦ put dec from (include dec to targets) s.pending
    ];
    timer = true;
  }

  -- The loop of `pruneFromMaps`, on fuel: the oldest map goes, but that of `me` is moved to the end.
  unfoldable pub prune_from {ℓ} : {V : Type ℓ} → ℕ → K → ℕ → Table K V → Table K V
  prune_from zero me limit m = m
  prune_from (suc fuel) me limit [] = []
  prune_from (suc fuel) me limit ((k, v) ∷ m) =
      let next = prune_from fuel me limit (ite (dec k me) (m ++ (k, v) ∷ []) m) in
      if leb (length ((k, v) ∷ m)) limit then (k, v) ∷ m else next

  -- `pruneFromMaps`, where two rounds for each map are enough
  unfoldable pub prune_from_maps : Routes K → Routes K
  prune_from_maps s = record s {
    routes = prune_from (2 * length s.routes) s.me s.max_from s.routes;
  }

  -- A map without targets is deleted.
  unfoldable pub set_or_delete :
      K → Table K (Route K) → Table K (Table K (Route K)) → Table K (Table K (Route K))
  set_or_delete from [] routes = delete dec from routes
  set_or_delete from (e ∷ m) routes = put dec from (e ∷ m) routes

  -- `cleanup`
  unfoldable pub cleanup : ℕ → K → K → Routes K → Routes K
  cleanup now from to s = elim (get dec from s.routes) [
    | none ↦ s
    | some m ↦ elim (get dec to m) [
      | none ↦ s
      | some route ↦ elim (take s.max_relays (keep (is_live now) route.list)) [
        | [] ↦ record s { routes = set_or_delete from (delete dec to m) s.routes }
        | r ∷ l ↦ record s {
          routes = put dec from (put dec to (record route { list = r ∷ l }) m) s.routes;
        }
      ]
    ]
  ]

  cleanup_targets : ℕ → K → List K → Routes K → Routes K
  cleanup_targets now from [] s = s
  cleanup_targets now from (to ∷ l) s = cleanup_targets now from l (cleanup now from to s)

  cleanup_all : ℕ → Table K (List K) → Routes K → Routes K
  cleanup_all now [] s = s
  cleanup_all now ((from, tos) ∷ l) s = cleanup_all now l (cleanup_targets now from tos s)

  -- The handler of the timer
  unfoldable pub run_cleanup : ℕ → Routes K → Routes K
  unfolding cleanup_targets cleanup_all
  run_cleanup now s = cleanup_all now s.pending (record s { pending = []; timer = false })
