-- ===== src/Routes/Fanout.antt =====
-- `Routes.getFanout`: the neighbours through which a message goes to its targets.
use peerbit.Base.Table.{Table, get, put}
use peerbit.Base.{
  ℕ, ◌+◌, Bool, true, false, not, ◌&&◌, ◌||◌, Option, none, some, List, [], ◌∷◌, ltb, leb, ◌==◌,
  if◌then◌else◌, ite,
}
use peerbit.Routes.{Relay, Route, Routes, expires, find_neighbor}

-- The variables of the loop over the relays: `foundClosest`, `added`, `foundPathForDistance` (`none`
-- is its -2) and the map that is built, with the timestamp of each target.
pub record Fan (K : Type 0) : Type 0 where
  pub closest : Bool
  pub added : ℕ
  pub found_path : Option ℕ
  pub fanout : Table K (Table K ℕ)

unfoldable pub is_same : Option ℕ → ℕ → Bool
is_same none distance = false
is_same (some found) distance = found == distance

-- The end of a round, where the relay has been added: whether the loop goes on.
unfoldable pub count_relay : {K : Type 0} → ℕ → ℕ → Relay K → Fan K → Bool × Fan K
count_relay redundancy session r f =
    let near = leb r.distance 1 && leb r.session session in
    let f' : Fan _ = record f { closest = f.closest || near } in
    if near && r.distance == 0
    then (false, f')
    else if expires r
    then (true, f')
    else (ltb (f.added + 1) redundancy, record f' { added = f.added + 1 })

module _ {K : Type 0} (dec : Discrete K) where
  -- A target is added to the messages through a neighbour.
  unfoldable pub add_fanout : K → K → ℕ → Table K (Table K ℕ) → Table K (Table K ℕ)
  add_fanout hash to session fanout = elim (get dec hash fanout) [
    | none ↦ put dec hash ((to, session) ∷ []) fanout
    | some targets ↦ put dec hash (put dec to session targets) fanout
  ]

  -- One round of the loop over the relays.
  unfoldable pub fan_relay : Bool → ℕ → ℕ → K → Relay K → Fan K → Bool × Fan K
  fan_relay relaying redundancy session to r f =
      if expires r && not relaying && is_same f.found_path r.distance
      then (true, f)
      else (let f' : Fan K = record f {
        found_path = if expires r then f.found_path else some r.distance;
      } in
          if leb (redundancy + 1) r.distance
          then (false, f')
          else count_relay redundancy session r
              (record f' { fanout = add_fanout r.hash to r.session f.fanout }))

  -- The loop over the relays
  unfoldable pub fan_list : Bool → ℕ → ℕ → K → List (Relay K) → Fan K → Fan K
  fan_list relaying redundancy session to [] f = f
  fan_list relaying redundancy session to (r ∷ l) f =
      let round = fan_relay relaying redundancy session to r f in
      let rest = fan_list relaying redundancy session to l round.1 in
      if round.0 then rest else round.1

  -- A target with a route: `none` if this node has no shortest path to it.
  unfoldable pub fan_route :
      Bool → ℕ → K → Route K → Table K (Table K ℕ) → Option (Table K (Table K ℕ))
  fan_route relaying redundancy to route fanout =
      let f =
        fan_list relaying redundancy route.session to route.list
          (record { closest = false; added = 0; found_path = none; fanout = fanout }) in
      if not f.closest && not relaying then none else some f.fanout

  -- A target: none is needed for this node and for the sender, and `none` is to send to all.
  unfoldable pub fan_target :
      Routes K → K → ℕ → K → Table K (Table K ℕ) → Option (Table K (Table K ℕ))
  fan_target s from redundancy to fanout = ite (dec to s.me) (some fanout) (
      ite (dec from to) (some fanout) (elim (find_neighbor dec s from to) [
        | none ↦ none
        | some route ↦ fan_route (ite (dec from s.me) false true) redundancy to route fanout
      ]))

  -- The loop over the targets
  unfoldable pub fan_targets :
      Routes K → K → ℕ → List K → Table K (Table K ℕ) → Option (Table K (Table K ℕ))
  fan_targets s from redundancy [] fanout = some fanout
  fan_targets s from redundancy (to ∷ tos) fanout = elim (fan_target s from redundancy to fanout) [
    | none ↦ none
    | some f ↦ fan_targets s from redundancy tos f
  ]

  -- `getFanout`
  unfoldable pub get_fanout : Routes K → K → List K → ℕ → Option (Table K (Table K ℕ))
  get_fanout s from [] redundancy = none
  get_fanout s from (to ∷ tos) redundancy = fan_targets s from redundancy (to ∷ tos) []
