-- ===== src/Seek.antt =====
-- packages/transport/stream/src/core/seek-routing.ts: which data messages a node ignores, relays and
-- acknowledges, and the route that an acknowledgement teaches.
mod Tests
use peerbit.Base.{
  ℕ, ◌≡◌, ◌≢◌, ◌⊎◌, ◌↔◌, inl, inr, sym, subst, Bool, true, false, ◌&&◌, Option, none, some, List,
  [], ◌∷◌, ltb, leb, if◌then◌else◌, ite, arith, Bool-cases,
}

-- `SeekRoutingMode`
pub data Mode : Type 0 where
  seek : ℕ → Mode
  non_seek : Mode

-- `shouldIgnoreDataMessage`
unfoldable pub should_ignore : Bool → ℕ → Mode → Bool
should_ignore true seen_before mode = true
should_ignore false seen_before (seek redundancy) = leb redundancy seen_before
should_ignore false seen_before non_seek = ltb 0 seen_before

-- `shouldAcknowledgeDataMessage`
unfoldable pub should_acknowledge : Bool → ℕ → ℕ → Bool
should_acknowledge is_recipient seen_before redundancy = is_recipient && ltb seen_before redundancy

-- `c` stands in the list.
abbrev pub Mem : {T : Type 0} → T → List T → Type 0
Mem c [] = ⊥
Mem c (d ∷ l) = (c ≡ d) ⊎ Mem c l

module _ {T Key : Type 0} (dec : Discrete Key) (get_id : T → Key) (has_signed : Key → Bool) where
  -- `selectSeekRelayTargets`
  unfoldable pub select_relays : Key → List T → List T
  select_relays inbound [] = []
  select_relays inbound (c ∷ l) =
      let rest = select_relays inbound l in
      ite (dec (get_id c) inbound) rest (if has_signed (get_id c) then rest else c ∷ rest)

-- `SeekAckRouteUpdate`
pub record RouteUpdate (Key : Type 0) : Type 0 where
  pub from : Key
  pub neighbour : Key
  pub target : Key
  pub distance : ℕ

-- `computeSeekAckRouteUpdate`
unfoldable pub route_update : {Key : Type 0} → Key → Option Key → Key → Key → ℕ → RouteUpdate Key
route_update current upstream downstream target distance = record {
  from = elim upstream [ none ↦ current | some id ↦ id ];
  neighbour = downstream;
  target = target;
  distance = distance;
}

module _ {T Key : Type 0} (dec : Discrete Key) (get_id : T → Key) (has_signed : Key → Bool) where
  -- Exactly the candidates that are to get the message.
  abbrev pub IsRelay : Key → T → Type 0
  IsRelay inbound c = (get_id c ≢ inbound) × (has_signed (get_id c) ≡ false)

  -- One candidate, with the rest of the selection.
  select-cases :
      (inbound : Key) (c : T) (l : List T)
      → (IsRelay inbound c
          × (select_relays dec get_id has_signed inbound (c ∷ l)
              ≡ c ∷ select_relays dec get_id has_signed inbound l))
        ⊎ ((¬ IsRelay inbound c)
            × (select_relays dec get_id has_signed inbound (c ∷ l)
                ≡ select_relays dec get_id has_signed inbound l))
  unfolding select_relays
  select-cases inbound c l = elim (dec (get_id c) inbound) [
    | yes same ↦ inr (λ r. r.0 same, ground arith)
    | no other ↦ elim (Bool-cases (has_signed (get_id c))) [
      | inl e ↦ inr (λ r. cc (r.1), ground arith)
      | inr e ↦ inl ((other, e), ground arith)
    ]
  ]

  select_relays-from :
      (inbound : Key) (c : T) (l : List T)
      → Mem c (select_relays dec get_id has_signed inbound l)
      → Mem c l × IsRelay inbound c
  unfolding select_relays
  select_relays-from inbound c [] h = absurd h
  select_relays-from inbound c (d ∷ l) h = elim (select-cases inbound d l) [
    | inl (r, e) ↦ elim (subst (Mem c) e h) [
      | inl same ↦ (inl same, subst (IsRelay inbound) (sym same) r)
      | inr later ↦ let (m, r') = select_relays-from inbound c l later in (inr m, r')
    ]
    | inr (r, e) ↦ let (m, r') = select_relays-from inbound c l (subst (Mem c) e h) in (inr m, r')
  ]

  select_relays-all :
      (inbound : Key) (c : T) (l : List T)
      → Mem c l
      → IsRelay inbound c
      → Mem c (select_relays dec get_id has_signed inbound l)
  select_relays-all inbound c [] h r = absurd h
  select_relays-all inbound c (d ∷ l) (inl same) r = elim (select-cases inbound d l) [
    | inl (_, e) ↦ subst (Mem c) (sym e) (inl same)
    | inr (not_relay, e) ↦ absurd (not_relay (subst (IsRelay inbound) same r))
  ]
  select_relays-all inbound c (d ∷ l) (inr later) r = elim (select-cases inbound d l) [
    | inl (_, e) ↦ subst (Mem c) (sym e) (inr (select_relays-all inbound c l later r))
    | inr (_, e) ↦ subst (Mem c) (sym e) (select_relays-all inbound c l later r)
  ]

  -- The relay targets are exactly the candidates that are neither the node that the message came from
  -- nor have signed it.
  pub select_relays_iff :
      (inbound : Key) (c : T) (l : List T)
      → Mem c (select_relays dec get_id has_signed inbound l) ↔ (Mem c l × IsRelay inbound c)
  select_relays_iff inbound c l =
      (select_relays-from inbound c l, λ h. select_relays-all inbound c l h.0 h.1)
