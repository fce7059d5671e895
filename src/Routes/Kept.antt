-- ===== src/Routes/Kept.antt =====
-- `add` keeps every list of relays sorted and within its limit.
use peerbit.Base.Table.{Table, get, delete}
use peerbit.Base.Values.{AllValues, AllValues-get, AllValues-put, AllValues-delete, AllValues-snoc}
use peerbit.Base.{
  ℕ, zero, suc, ◌+◌, ◌*◌, max, ◌≤◌, ◌≡◌, inl, inr, refl, sym, subst, Bool, true, false, not, ◌&&◌,
  none, some, List, [], ◌∷◌, ◌++◌, ltb, leb, ◌==◌, if◌then◌else◌, if_pos, if_neg, length, arith,
  Bool-cases, Option-cases,
}
use peerbit.Routes.{
  Relay, Route, Routes, find_neighbor, touch, request_cleanup, prune_from, prune_from_maps,
  prune_targets,
}
use peerbit.Routes.Add.{
  expire_list, has_fresh, or_closed, update_route, request, store, link_distance, add_known,
  add_unknown, add,
}
use peerbit.Routes.Sorted.{
  InOrder, merge_relay-InOrder, distances-expire_list, length-expire_list, Ascending,
}

module _ {K V : Type 0} (dec : Discrete K) (P : V → Type 0) where
  AllValues-prune_targets :
      (limit : ℕ) (m : Table K V) → AllValues dec P m → AllValues dec P (prune_targets limit m)
  unfolding prune_targets
  AllValues-prune_targets limit [] a = tt
  AllValues-prune_targets limit ((k, v) ∷ m) (p, a) =
      elim (Bool-cases (leb (suc (length m)) limit)) [
        | inl e ↦ rw (e, prune_targets) (p, a)
        | inr e ↦ rw (e, prune_targets) (AllValues-prune_targets limit m a)
      ]

  AllValues-prune_from :
      (fuel : ℕ) (me : K) (limit : ℕ) (m : Table K V)
      → AllValues dec P m
      → AllValues dec P (prune_from dec fuel me limit m)
  unfolding prune_from
  AllValues-prune_from zero me limit m a = a
  AllValues-prune_from (suc fuel) me limit [] a = tt
  AllValues-prune_from (suc fuel) me limit ((k, v) ∷ m) (p, a) =
      elim (Bool-cases (leb (suc (length m)) limit)) [
        | inl e ↦ rw (e, prune_from) (p, a)
        | inr e ↦ elim (dec k me) [
          | yes same ↦
              rw (e, prune_from)
                (rw (if_pos _ same) (
                  AllValues-prune_from fuel me limit (m ++ (k, v) ∷ [])
                    (AllValues-snoc dec P k v m a p)))
          | no other ↦
              rw (e, prune_from) (rw (if_neg _ other) (AllValues-prune_from fuel me limit m a))
        ]
      ]

module _ {K : Type 0} (dec : Discrete K) where
  abbrev GoodRoute : ℕ → Route K → Type 0
  GoodRoute limit route = InOrder dec limit route.list

  abbrev GoodMap : ℕ → Table K (Route K) → Type 0
  GoodMap limit m = AllValues dec (GoodRoute limit) m

  -- Every list of relays is sorted by distance and no longer than the limit.
  abbrev pub IsOrdered : Routes K → Type 0
  IsOrdered s = AllValues dec (GoodMap s.max_relays) s.routes

  request_cleanup-IsOrdered :
      (from target : K) (s : Routes K)
      → IsOrdered s
      → IsOrdered (request_cleanup dec from target s)
        × ((request_cleanup dec from target s).max_relays ≡ s.max_relays)
  unfolding request_cleanup
  request_cleanup-IsOrdered from target s o = elim (Bool-cases s.aborted) [
    | inl e ↦ rw (e, request_cleanup) (o, refl)
    | inr e ↦ rw (e, request_cleanup) (o, refl)
  ]

  request-IsOrdered :
      (is_new is_old : Bool) (d : ℕ) (from target : K) (l : List (Relay K)) (s : Routes K)
      → IsOrdered s
      → IsOrdered (request dec is_new is_old d from target l s)
        × ((request dec is_new is_old d from target l s).max_relays ≡ s.max_relays)
  unfolding request
  request-IsOrdered is_new is_old d from target l s o =
      elim (Bool-cases (if is_new then not (d == 0) && has_fresh l else is_old)) [
        | inl e ↦ rw (e, request) (request_cleanup-IsOrdered from target s o)
        | inr e ↦ rw (e, request) (o, refl)
      ]

  prune_from_maps-IsOrdered : (s : Routes K) → IsOrdered s → IsOrdered (prune_from_maps dec s)
  unfolding prune_from_maps
  prune_from_maps-IsOrdered s o =
      AllValues-prune_from dec (GoodMap s.max_relays) (2 * length s.routes) s.me s.max_from s.routes
        o

  stored-GoodMap :
      (s : Routes K) (target : K) (route : Route K) (m : Table K (Route K))
      → GoodRoute s.max_relays route
      → GoodMap s.max_relays m
      → GoodMap s.max_relays (prune_targets s.max_targets (touch dec target route m))
  stored-GoodMap s target route m g o =
      AllValues-prune_targets dec (GoodRoute s.max_relays) s.max_targets (touch dec target route m)
        (AllValues-put dec (GoodRoute s.max_relays) target route (delete dec target m) g
          (AllValues-delete dec (GoodRoute s.max_relays) target m o))

  store_map-IsOrdered :
      (from target : K) (route : Route K) (s : Routes K) (m : Table K (Route K))
      → GoodRoute s.max_relays route
      → GoodMap s.max_relays m
      → IsOrdered s
      → IsOrdered (record s {
        routes = touch dec from (prune_targets s.max_targets (touch dec target route m)) s.routes;
      })
  store_map-IsOrdered from target route s m g o all =
      AllValues-put dec (GoodMap s.max_relays) from
        (prune_targets s.max_targets (touch dec target route m)) (delete dec from s.routes)
        (stored-GoodMap s target route m g o)
        (AllValues-delete dec (GoodMap s.max_relays) from s.routes all)

  store-IsOrdered :
      (from target : K) (route : Route K) (s : Routes K)
      → GoodRoute s.max_relays route
      → IsOrdered s
      → IsOrdered (store dec from target route s)
  unfolding store
  store-IsOrdered from target route s g o = elim (Option-cases (get dec from s.routes)) [
    | inl e ↦
        rw (e, store)
          (prune_from_maps-IsOrdered _ (store_map-IsOrdered from target route s [] g tt o))
    | inr (m, e) ↦
        rw (e, store)
          (prune_from_maps-IsOrdered _ (
            store_map-IsOrdered from target route s m g
              (AllValues-get dec (GoodMap s.max_relays) from m s.routes o e) o))
  ]

  update_route-GoodRoute :
      (s : Routes K) (now : ℕ) (is_new is_old : Bool) (remote : ℕ) (r : Relay K) (prev : Route K)
      → GoodRoute s.max_relays prev
      → GoodRoute s.max_relays (update_route dec s now is_new is_old remote r prev)
  unfolding update_route
  update_route-GoodRoute s now true is_old remote r prev (a, le) =
      merge_relay-InOrder dec s.max_relays true is_old (now + s.retention) r
        (expire_list (now + s.retention) prev.list)
        (
          subst Ascending (sym (distances-expire_list (now + s.retention) prev.list)) a,
          subst (λ (n : ℕ). n ≤ s.max_relays)
              (sym (length-expire_list (now + s.retention) prev.list)) le,
        )
  update_route-GoodRoute s now false is_old remote r prev g =
      merge_relay-InOrder dec s.max_relays false is_old (now + s.retention) r prev.list g

  add_known-IsOrdered :
      (now : ℕ) (from target : K) (remote : ℕ) (r : Relay K) (prev : Route K) (s : Routes K)
      → GoodRoute s.max_relays prev
      → IsOrdered s
      → IsOrdered (add_known dec now from target remote r prev s).0
  unfolding add_known
  add_known-IsOrdered now from target remote r prev s g o =
      let is_new = ltb prev.session r.session in
      let is_old = ltb r.session prev.session in
      let (o', same) = request-IsOrdered is_new is_old r.distance from target prev.list s o in
      let route =
        update_route dec s now is_new is_old (max remote (or_closed prev.remote_session)) r prev in
      store-IsOrdered from target route
        (request dec is_new is_old r.distance from target prev.list s)
        (subst (λ (n : ℕ). GoodRoute n route) (sym same)
          (update_route-GoodRoute s now is_new is_old (max remote (or_closed prev.remote_session)) r
            prev g))
        o'

  find_neighbor-GoodRoute :
      (s : Routes K) (from target : K) (route : Route K)
      → IsOrdered s
      → find_neighbor dec s from target ≡ some route
      → GoodRoute s.max_relays route
  unfolding find_neighbor
  find_neighbor-GoodRoute s from target route o e = elim (Option-cases (get dec from s.routes)) [
    | inl nothing ↦ absurd (ground arith)
    | inr (m, found) ↦
        AllValues-get dec (GoodRoute s.max_relays) target route m
          (AllValues-get dec (GoodMap s.max_relays) from m s.routes o found) (ground arith)
  ]

  -- `add` keeps the invariant that every list of relays, for any sender and target, is sorted by
  -- distance and no longer than the limit of relays, whatever the route, its session and its distance.
  pub add-IsOrdered :
      (now : ℕ) (from neighbour target : K) (distance session remote : ℕ) (s : Routes K)
      → IsOrdered s
      → IsOrdered (add dec now from neighbour target distance session remote s).0
  unfolding add add_unknown
  add-IsOrdered now from neighbour target distance session remote s o =
      let d = link_distance dec s from neighbour target distance in
      let r : Relay K = record {
        session = session;
        hash = neighbour;
        updated_at = now;
        expire_at = none;
        distance = d;
      } in
      let prev : Route K = record { remote_session = remote; session = session; list = [] } in
      elim (Option-cases (find_neighbor dec s from target)) [
        | inl e ↦
            rw (e, add)
              (store-IsOrdered from target (update_route dec s now true false remote r prev) s
                (update_route-GoodRoute s now true false remote r prev (tt, omega arith)) o)
        | inr (route, e) ↦
            rw (e, add)
              (add_known-IsOrdered now from target remote r route s
                (find_neighbor-GoodRoute s from target route o e) o)
      ]
