-- ===== src/Routes/Tests.antt =====
-- The routing table on concrete nodes, and the theorems at inputs that meet their hypotheses.
use peerbit.Base.Keys.{Distinct}
use peerbit.Base.Table.{Table, keys, get, put, delete, has, contains, include}
use peerbit.Base.{
  ℕ, min, not, ◌&&◌, ltb, ◌==◌, ◌≡◌, refl, true, false, none, some, List, [], ◌∷◌, ◌++◌, length,
  arith, ℕ_discrete as dec,
}
use peerbit.Routes.Add.{
  new, expire_list, has_fresh, or_closed, cons_match, match_relay, same_distance, merge_relay,
  change_of, update_route, request, store, link_distance, add_known, add_unknown, add,
}
use peerbit.Routes.Deliver.{Delivers, get_fanout-Delivers}
use peerbit.Routes.Evict.{prune_from_maps-keeps_me}
use peerbit.Routes.Fanout.{
  is_same, add_fanout, count_relay, fan_relay, fan_list, fan_route, fan_target, fan_targets,
  get_fanout,
}
use peerbit.Routes.Forget.{remove-forgets}
use peerbit.Routes.Kept.{IsOrdered, add-IsOrdered}
use peerbit.Routes.Prunable.{Another, get_prunable-Another}
use peerbit.Routes.Reach.{
  max_safe_distance, max_route_distance, best_distance, is_reachable, has_target, get_session,
  renew, update_session, goes_through, any_through, dependent_of, get_dependent, sole_way,
  is_needed, get_prunable,
}
use peerbit.Routes.Remove.{
  without, drop_neighbour, lost_targets, drop_target, maybe_unreachable, remove, remove_neighbour,
}
use peerbit.Routes.Sessions.{joined, update_session_lem}
use peerbit.Routes.{
  Relay, Route, Routes, comes_first, insert_route, sort_routes, find_neighbor, request_cleanup,
  prune_from, prune_from_maps, prune_targets,
}

program : Unit {0}
unfolding expire_list has_fresh or_closed cons_match match_relay same_distance merge_relay change_of
    update_route request store link_distance add_known add_unknown add is_same add_fanout
    count_relay fan_relay fan_list fan_route fan_target fan_targets get_fanout max_safe_distance
    max_route_distance best_distance is_reachable has_target get_session renew update_session
    goes_through any_through dependent_of get_dependent sole_way is_needed get_prunable without
    drop_neighbour lost_targets drop_target maybe_unreachable remove remove_neighbour comes_first
    insert_route sort_routes find_neighbor request_cleanup prune_from prune_from_maps prune_targets
    get put delete has contains include dec
program = tt

abbrev relay : ℕ → ℕ → Relay ℕ
relay hash distance = record {
  session = 4;
  hash = hash;
  updated_at = 50;
  expire_at = none;
  distance = distance;
}

abbrev route : List (Relay ℕ) → Route ℕ
route l = record { remote_session = 6; session = 4; list = l }

-- Node 1, which reaches 2 directly and 3 through 2, and relays from 9 to 3 through 2.
abbrev table : Routes ℕ
table = record {
  me = 1;
  routes =
      (1, (2, route (relay 2 0 ∷ [])) ∷ (3, route (relay 2 1 ∷ relay 5 2 ∷ [])) ∷ [])
      ∷ (9, (3, route (relay 2 2 ∷ [])) ∷ [])
      ∷ [];
  remote_info = (2, 6) ∷ (3, 6) ∷ [];
  pending = [];
  timer = false;
  aborted = false;
  retention = 100;
  max_from = 1;
  max_targets = 10;
  max_relays = 3;
}

-- A second neighbour to node 3, which is farther, and a message to both nodes.
calls :
    ((add dec 60 1 4 3 3 4 6 (record table { max_from = 2 })).1 ≡ new)
    × (is_reachable dec table 1 3 max_route_distance ≡ true)
    × (get_fanout dec table 1 (2 ∷ 3 ∷ []) 1 ≡ some ((2, (2, 4) ∷ (3, 4) ∷ []) ∷ []))
    × (get_dependent dec 2 table ≡ 9 ∷ [])
    × (get_prunable dec table (2 ∷ 5 ∷ []) ≡ 2 ∷ 5 ∷ [])
    × ((remove dec 2 table).1 ≡ 2 ∷ [])
unfolding program
calls = (refl, refl, refl, refl, refl, refl)

add-IsOrdered_example : IsOrdered dec (add dec 60 1 4 3 3 5 6 table).0
add-IsOrdered_example = add-IsOrdered dec 60 1 4 3 3 5 6 table (
  (((tt, tt), omega arith), ((((omega arith, tt), (tt, tt)), omega arith), tt)),
  (((((tt, tt), omega arith), tt)), tt),
)

distinct : Distinct dec (keys table.routes)
unfolding contains dec
distinct = (refl, (refl, tt))

prune_from_maps-keeps_me_example :
    (length (prune_from_maps dec table).routes ≡ min (length table.routes) 1)
    × (get dec 1 (prune_from_maps dec table).routes ≡ get dec 1 table.routes)
prune_from_maps-keeps_me_example = prune_from_maps-keeps_me dec table (omega arith) distinct

delivered : get_fanout dec table 1 (2 ∷ 3 ∷ []) 1 ≡ some ((2, (2, 4) ∷ (3, 4) ∷ []) ∷ [])
unfolding program
delivered = refl

get_fanout-Delivers_example : Delivers dec 3 ((2, (2, 4) ∷ (3, 4) ∷ []) ∷ [])
get_fanout-Delivers_example =
    get_fanout-Delivers dec table 1 (2 ∷ 3 ∷ []) ((2, (2, 4) ∷ (3, 4) ∷ []) ∷ []) 1 3 delivered refl
      (omega arith)

remove-forgets_example :
    (has_target dec 2 (remove dec 2 table).0.routes ≡ false)
    × (get_dependent dec 2 (remove dec 2 table).0 ≡ [])
    × (get_session dec (remove dec 2 table).0 2 ≡ none)
remove-forgets_example = remove-forgets dec 2 table

known : get_session dec table 2 ≡ some 6
unfolding program
known = refl

update_session_lem_example :
    (get_session dec (update_session dec 2 (some 8) table).0 2 ≡ some (joined dec 6 8))
    × ((update_session dec 2 (some 8) table).1
        ≡ (not (6 == 0) && not (8 == 0) && ltb (or_closed 6) 8))
update_session_lem_example = update_session_lem dec table 2 6 8 known

named : contains dec 5 (get_prunable dec table (2 ∷ 5 ∷ [])) ≡ true
unfolding program
named = refl

there : find_neighbor dec table 1 3 ≡ some (route (relay 2 1 ∷ relay 5 2 ∷ []))
unfolding program
there = refl

two_nodes : Distinct dec (2 ∷ 5 ∷ [])
unfolding contains dec
two_nodes = (refl, (refl, tt))

get_prunable-Another_example : Another dec 5 (relay 2 1 ∷ relay 5 2 ∷ [])
get_prunable-Another_example =
    get_prunable-Another dec table (2 ∷ 5 ∷ []) 5 3 (route (relay 2 1 ∷ relay 5 2 ∷ [])) named there
      (omega arith) (λ e. cc e) two_nodes

-- Node 1, which reaches 7 through 2 only, and 3 through 2 or 5.
abbrev others : Table ℕ (Route ℕ)
others = (3, route (relay 2 1 ∷ relay 5 2 ∷ [])) ∷ []

abbrev only_way : Routes ℕ
only_way = record table { routes = (1, (7, route (relay 2 3 ∷ [])) ∷ others) ∷ [] }

-- News in session 5 of a longer way to 7 by 2
abbrev longer_way : Relay ℕ
longer_way = record (relay 2 5) { session = 5 }

abbrev repeated : Routes ℕ
repeated = record table {
  routes =
      (
        1,
        others
            ++ (7, update_route dec only_way 60 true false 6 longer_way (route (relay 2 3 ∷ [])))
              ∷ [],
      )
      ∷ [];
}

-- The same news as `add` takes it, with the cleanup that it asks for still to come
by_add :
    (get_prunable dec only_way (2 ∷ []) ≡ [])
    × (get_prunable dec (add dec 60 1 2 7 5 5 6 only_way).0 (2 ∷ []) ≡ 2 ∷ [])
unfolding program
by_add = (refl, refl)
