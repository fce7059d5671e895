-- ===== src/Routes/Deliver.antt =====
-- The messages of `getFanout` reach every target.
use peerbit.Base.Table.{Table, get, put, get-put}
use peerbit.Base.{
  ℕ, zero, suc, ◌+◌, ◌≡◌, ◌≢◌, ◌⊎◌, inl, inr, refl, sym, ap, subst, ◌∙◌, Bool, false, not, ◌&&◌,
  Option, none, some, List, [], ◌∷◌, leb, ◌==◌, if◌then◌else◌, if_pos, if_neg, get_elem?, arith,
  Bool-cases, Option-cases,
}
use peerbit.Routes.{Relay, Route, Routes, expires, find_neighbor}
use peerbit.Routes.Fanout.{
  Fan, is_same, add_fanout, count_relay, fan_relay, fan_list, fan_route, fan_target, fan_targets,
  get_fanout,
}

module _ {K : Type 0} (dec : Discrete K) where
  -- Some neighbour gets the message for the target.
  abbrev pub Delivers : K → Table K (Table K ℕ) → Type 0
  Delivers to fanout =
      (hash : K) × (targets : Table K ℕ) × (at : ℕ) × (get dec hash fanout ≡ some targets)
      × (get dec to targets ≡ some at)

  add_fanout-adds :
      (hash to : K) (at : ℕ) (fanout : Table K (Table K ℕ))
      → Delivers to (add_fanout dec hash to at fanout)
  unfolding add_fanout put
  add_fanout-adds hash to at fanout = elim (Option-cases (get dec hash fanout)) [
    | inl e ↦
        rw (e, add_fanout)
          (
            hash,
            (to, at) ∷ [],
            at,
            get-put dec hash hash ((to, at) ∷ []) fanout ∙ if_pos (dec hash hash) refl _ _,
            get-put dec to to at [] ∙ if_pos (dec to to) refl _ _,
          )
    | inr (targets, e) ↦
        rw (e, add_fanout)
          (
            hash,
            put dec to at targets,
            at,
            get-put dec hash hash (put dec to at targets) fanout ∙ if_pos (dec hash hash) refl _ _,
            get-put dec to to at targets ∙ if_pos (dec to to) refl _ _,
          )
  ]

  put-get :
      (to to' : K) (at at' : ℕ) (targets : Table K ℕ)
      → get dec to targets ≡ some at
      → (at'' : ℕ) × (get dec to (put dec to' at' targets) ≡ some at'')
  put-get to to' at at' targets h = elim (dec to' to) [
    | yes same ↦ (at', get-put dec to' to at' targets ∙ if_pos (dec to' to) same _ _)
    | no other ↦ (at, get-put dec to' to at' targets ∙ if_neg (dec to' to) other _ _ ∙ h)
  ]

  add_fanout-Delivers :
      (hash to' : K) (at : ℕ) (to : K) (fanout : Table K (Table K ℕ))
      → Delivers to fanout
      → Delivers to (add_fanout dec hash to' at fanout)
  unfolding add_fanout
  add_fanout-Delivers hash to' at to fanout (h, targets, at', found, there) =
      elim (Option-cases (get dec hash fanout)) [
        | inl e ↦
            let other : hash ≢ h = λ same. cc (ap (λ (k : K). get dec k fanout) same) in
            rw (e, add_fanout)
              (
                h,
                targets,
                at',
                get-put dec hash h ((to', at) ∷ []) fanout ∙ if_neg (dec hash h) other _ _ ∙ found,
                there,
              )
        | inr (old, e) ↦ elim (dec hash h) [
          | no other ↦
              rw (e, add_fanout)
                (
                  h,
                  targets,
                  at',
                  get-put dec hash h (put dec to' at old) fanout
                      ∙ if_neg (dec hash h) other _ _
                      ∙ found,
                  there,
                )
          | yes same ↦
              let there' : get dec to old ≡ some at' = cc (ap (λ (k : K). get dec k fanout) same) in
              let (at'', there'') = put-get to to' at' at old there' in
              rw (e, add_fanout)
                (
                  h,
                  put dec to' at old,
                  at'',
                  get-put dec hash h (put dec to' at old) fanout ∙ if_pos (dec hash h) same _ _,
                  there'',
                )
        ]
      ]

  -- A round of the loop: what is delivered stays, and the closest is found only by a delivery.
  abbrev Round : K → Fan K → Fan K → Type 0
  Round to f f' =
      ((t : K) → Delivers t f.fanout → Delivers t f'.fanout)
      × ((f'.closest ≡ f.closest) ⊎ Delivers to f'.fanout)

  count_relay-fanout :
      (redundancy session : ℕ) (r : Relay K) (f : Fan K)
      → (count_relay redundancy session r f).1.fanout ≡ f.fanout
  unfolding count_relay
  count_relay-fanout redundancy session r f =
      elim (Bool-cases (leb r.distance 1 && leb r.session session && r.distance == 0)) [
        | inl e ↦ rw (e, count_relay) refl
        | inr e ↦ elim (Bool-cases (expires r)) [
          | inl e' ↦ rw (e, e', count_relay) refl
          | inr e' ↦ rw (e, e', count_relay) refl
        ]
      ]

  Round-trans : (to : K) (f g h : Fan K) → Round to f g → Round to g h → Round to f h
  Round-trans to f g h (stays, found) (stays', inr there) = (λ t d. stays' t (stays t d), inr there)
  Round-trans to f g h (stays, inr there) (stays', inl same) =
      (λ t d. stays' t (stays t d), inr (stays' to there))
  Round-trans to f g h (stays, inl same) (stays', inl same') =
      (λ t d. stays' t (stays t d), inl (same' ∙ same))

  delivered-Round :
      (redundancy session : ℕ) (to : K) (r : Relay K) (path : Option ℕ) (f : Fan K)
      → Round to f
          (count_relay redundancy session r (record f {
            found_path = path;
            fanout = add_fanout dec r.hash to r.session f.fanout;
          })).1
  delivered-Round redundancy session to r path f =
      let same =
        count_relay-fanout redundancy session r
          (record f { found_path = path; fanout = add_fanout dec r.hash to r.session f.fanout }) in
      (
        λ t d. subst (Delivers t) (sym same) (add_fanout-Delivers r.hash to r.session t f.fanout d),
        inr (subst (Delivers to) (sym same) (add_fanout-adds r.hash to r.session f.fanout)),
      )

  fan_relay-Round :
      (relaying : Bool) (redundancy session : ℕ) (to : K) (r : Relay K) (f : Fan K)
      → Round to f (fan_relay dec relaying redundancy session to r f).1
  unfolding fan_relay
  fan_relay-Round relaying redundancy session to r f =
      elim (Bool-cases (expires r && not relaying && is_same f.found_path r.distance)) [
        | inl e ↦ rw (e, fan_relay) (λ t d. d, inl refl)
        | inr e ↦ elim (Bool-cases (leb (redundancy + 1) r.distance)) [
          | inl e' ↦ rw (e, e', fan_relay) (λ t d. d, inl refl)
          | inr e' ↦
              rw (e, e', fan_relay)
                (delivered-Round redundancy session to r
                  (if expires r then f.found_path else some r.distance) f)
        ]
      ]

  fan_list-Round :
      (relaying : Bool) (redundancy session : ℕ) (to : K) (l : List (Relay K)) (f : Fan K)
      → Round to f (fan_list dec relaying redundancy session to l f)
  unfolding fan_list
  fan_list-Round relaying redundancy session to [] f = (λ t d. d, inl refl)
  fan_list-Round relaying redundancy session to (r ∷ l) f =
      let g = (fan_relay dec relaying redundancy session to r f).1 in
      let one = fan_relay-Round relaying redundancy session to r f in
      elim (Bool-cases (fan_relay dec relaying redundancy session to r f).0) [
        | inl e ↦
            rw (e, fan_list)
              (Round-trans to f g (fan_list dec relaying redundancy session to l g) one
                (fan_list-Round relaying redundancy session to l g))
        | inr e ↦ rw (e, fan_list) one
      ]

  fan_route-Delivers :
      (redundancy : ℕ) (to : K) (route : Route K) (fanout fanout' : Table K (Table K ℕ))
      → fan_route dec false redundancy to route fanout ≡ some fanout'
      → ((t : K) → Delivers t fanout → Delivers t fanout') × Delivers to fanout'
  unfolding fan_route
  fan_route-Delivers redundancy to route fanout fanout' h =
      let f : Fan K = record { closest = false; added = 0; found_path = none; fanout = fanout } in
      let g = fan_list dec false redundancy route.session to route.list f in
      let (stays, found) = fan_list-Round false redundancy route.session to route.list f in
      elim (Bool-cases g.closest) [
        | inr e ↦ absurd (ground arith)
        | inl e ↦
            let same : g.fanout ≡ fanout' = ground arith in
            elim found [
              | inl never ↦ cc never
              | inr there ↦
                  (λ t d. subst (Delivers t) same (stays t d), subst (Delivers to) same there)
            ]
      ]

  fan_target-cases :
      (s : Routes K) (redundancy : ℕ) (to : K) (fanout next : Table K (Table K ℕ))
      → fan_target dec s s.me redundancy to fanout ≡ some next
      → ((to ≡ s.me) × (fanout ≡ next))
        ⊎ ((route : Route K) × (fan_route dec false redundancy to route fanout ≡ some next))
  unfolding fan_target
  fan_target-cases s redundancy to fanout next h = elim (dec to s.me) [
    | yes me ↦ inl (me, ground arith)
    | no other ↦ elim (Option-cases (find_neighbor dec s s.me to)) [
      | inl e ↦ absurd (ground arith)
      | inr (route, e) ↦ inr (route, ground arith)
    ]
  ]

  fan_target-Delivers :
      (s : Routes K) (redundancy : ℕ) (to : K) (fanout next : Table K (Table K ℕ))
      → fan_target dec s s.me redundancy to fanout ≡ some next
      → ((t : K) → Delivers t fanout → Delivers t next) × ((to ≡ s.me) ⊎ Delivers to next)
  fan_target-Delivers s redundancy to fanout next h =
      elim (fan_target-cases s redundancy to fanout next h) [
        | inl (me, same) ↦ (λ t d. subst (Delivers t) same d, inl me)
        | inr (route, e) ↦
            let (stays, there) = fan_route-Delivers redundancy to route fanout next e in
            (stays, inr there)
      ]

  fan_targets-cases :
      (s : Routes K) (redundancy : ℕ) (to : K) (tos : List K) (fanout fan : Table K (Table K ℕ))
      → fan_targets dec s s.me redundancy (to ∷ tos) fanout ≡ some fan
      → (next : Table K (Table K ℕ)) × (fan_target dec s s.me redundancy to fanout ≡ some next)
        × (fan_targets dec s s.me redundancy tos next ≡ some fan)
  unfolding fan_targets
  fan_targets-cases s redundancy to tos fanout fan h =
      elim (Option-cases (fan_target dec s s.me redundancy to fanout)) [
        | inl e ↦ absurd (ground arith)
        | inr (next, e) ↦ (next, e, ground arith)
      ]

  fan_targets-stay :
      (s : Routes K) (redundancy : ℕ) (tos : List K) (fanout fan : Table K (Table K ℕ)) (t : K)
      → fan_targets dec s s.me redundancy tos fanout ≡ some fan
      → Delivers t fanout
      → Delivers t fan
  unfolding fan_targets
  fan_targets-stay s redundancy [] fanout fan t h d = subst (Delivers t) (ground arith) d
  fan_targets-stay s redundancy (to ∷ tos) fanout fan t h d =
      let (next, e, h') = fan_targets-cases s redundancy to tos fanout fan h in
      let (stays, _) = fan_target-Delivers s redundancy to fanout next e in
      fan_targets-stay s redundancy tos next fan t h' (stays t d)

  fan_targets-Delivers :
      (s : Routes K) (redundancy : ℕ) (tos : List K) (fanout fan : Table K (Table K ℕ)) (i : ℕ)
      (t : K)
      → fan_targets dec s s.me redundancy tos fanout ≡ some fan
      → get_elem? tos i ≡ some t
      → t ≢ s.me
      → Delivers t fan
  fan_targets-Delivers s redundancy [] fanout fan i t h at ne = cc at
  fan_targets-Delivers s redundancy (to ∷ tos) fanout fan zero t h at ne =
      let (next, e, h') = fan_targets-cases s redundancy to tos fanout fan h in
      let (_, found) = fan_target-Delivers s redundancy to fanout next e in
      let same : to ≡ t = ground arith in
      elim found [
        | inl me ↦ absurd (ne (sym same ∙ me))
        | inr there ↦
            fan_targets-stay s redundancy tos next fan t h'
              (subst (λ (k : K). Delivers k next) same there)
      ]
  fan_targets-Delivers s redundancy (to ∷ tos) fanout fan (suc i) t h at ne =
      let (next, e, h') = fan_targets-cases s redundancy to tos fanout fan h in
      fan_targets-Delivers s redundancy tos next fan i t h' at ne

  -- Where `getFanout`, for messages from this node, gives a result, each of the targets other than
  -- this node is delivered to through some neighbour of the result.
  pub get_fanout-Delivers :
      (s : Routes K) (redundancy : ℕ) (tos : List K) (fan : Table K (Table K ℕ)) (i : ℕ) (t : K)
      → get_fanout dec s s.me tos redundancy ≡ some fan
      → get_elem? tos i ≡ some t
      → t ≢ s.me
      → Delivers t fan
  unfolding get_fanout
  get_fanout-Delivers s redundancy [] fan i t h at ne = cc at
  get_fanout-Delivers s redundancy (to ∷ tos) fan i t h at ne =
      fan_targets-Delivers s redundancy (to ∷ tos) [] fan i t h at ne
