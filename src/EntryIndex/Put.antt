-- ===== src/EntryIndex/Put.antt =====
-- `put` keeps the index of entries sound.
use peerbit.Base.Keys.{
  Distinct, Distinct-snoc, put-absent, keys-snoc, contains-snoc, get-present, has-keys,
}
use peerbit.Base.Table.{Table, keys, get, has, put, contains, get-put}
use peerbit.Base.{
  ℕ, suc, ◌≡◌, inl, inr, refl, sym, ap, subst, ◌∙◌, Bool, true, false, not, ◌&&◌, ◌||◌, none, some,
  List, [], ◌∷◌, ◌++◌, if◌then◌else◌, if_pos, length, length-append, arith, Bool-cases,
  Option-cases,
}
use peerbit.EntryIndex.{
  Entry, Shallow, EntryCache, EntryIndex, has_entry, holds, update_next_heads, shadowed_gids,
  register, put_entry,
}
use peerbit.EntryIndex.Heads.{
  referenced, HeadsMatch, From, lower, lower-From, referenced-lower, referenced-put,
}
use peerbit.EntryIndex.Settled.{
  settled, keys-lower, update-lower, shadowed_gids-settled, write_entry-settled,
}

module _ {K : Type 0} (dec : Discrete K) (cached : EntryCache K) where
  open cached use {Store, read, add, read_add}

  -- Every entry that the cache gives is in the table.
  abbrev pub IsCached : Store → Table K (Shallow K) → Type 0
  IsCached c m = (k : K) → read k c ≡ some true → contains dec k (keys m) ≡ true

  -- No write is deferred, no hash stands twice, the length counts the entries, the heads are exactly
  -- the entries that no other entry refers to, and the cache gives entries of the index only.
  abbrev pub IsSound : EntryIndex dec cached → Type 0
  IsSound s =
      (s.pending ≡ [])
      × Distinct dec (keys s.index)
      × (s.length ≡ length (keys s.index))
      × HeadsMatch dec s.index
      × IsCached s.cache s.index

  pub absent_key :
      (k : K) (m : Table K (Shallow K)) → get dec k m ≡ none → contains dec k (keys m) ≡ false
  absent_key k m h = elim (Bool-cases (contains dec k (keys m))) [
    | inl e ↦ let (v, found) = get-present dec k m e in cc found
    | inr e ↦ e
  ]

  keys-put_new :
      (k : K) (e : Shallow K) (m : Table K (Shallow K))
      → get dec k m ≡ none
      → keys (put dec k e m) ≡ keys m ++ k ∷ []
  keys-put_new k e m h = ap keys (put-absent dec k e m (absent_key k m h)) ∙ keys-snoc dec k e m

  lowered-From :
      (cut : Bool) (j : K) (l : List K) (m : Table K (Shallow K)) (e' : Shallow K)
      → get dec j (if cut then m else lower dec l m) ≡ some e'
      → From dec j m (λ head. if not cut && contains dec j l then false else head) e'
  lowered-From true j l m e' h = (e', h, refl)
  lowered-From false j l m e' h = lower-From dec j l m e' h

  referenced-lowered :
      (cut : Bool) (j : K) (l : List K) (m : Table K (Shallow K))
      → referenced dec j (if cut then m else lower dec l m) ≡ referenced dec j m
  referenced-lowered true j l m = refl
  referenced-lowered false j l m = referenced-lower dec j l m

  -- The table after a put
  abbrev pub with_entry : Entry K → Bool → Table K (Shallow K) → Table K (Shallow K)
  with_entry x is_head m =
      if x.cut
      then put dec x.hash (record { entry = x; head = is_head }) m
      else lower dec x.next (put dec x.hash (record { entry = x; head = is_head }) m)

  put-HeadsMatch :
      (x : Entry K) (is_head : Bool) (m : Table K (Shallow K))
      → get dec x.hash m ≡ none
      → is_head ≡ not (referenced dec x.hash m)
      → HeadsMatch dec m
      → HeadsMatch dec (with_entry x is_head m)
  put-HeadsMatch x is_head m absent head_iff match j e' h =
      let e0 : Shallow K = record { entry = x; head = is_head } in
      let (e, h1, mark) = lowered-From x.cut j x.next (put dec x.hash e0 m) e' h in
      let same = referenced-lowered x.cut j x.next (put dec x.hash e0 m) in
      let refs = referenced-put dec j x.hash e0 m absent in
      let at = get-put dec x.hash j e0 m in
      elim (dec x.hash j) [
        | yes here ↦
            let e_new : e0 ≡ e = ground arith in
            let is_head' : e.head ≡ is_head = ap (λ (y : Shallow K). y.head) (sym e_new) in
            let head_iff' = head_iff ∙ ap (λ (k : K). not (referenced dec k m)) here in ground arith
        | no other ↦
            let old : get dec j m ≡ some e = ground arith in
            let head_old = match j e old in ground arith
      ]

  nothing : (k : K) → contains dec k (keys {V = Shallow K} []) ≡ false
  unfolding contains
  nothing k = refl

  IsCached-put :
      (k : K) (m m' : Table K (Shallow K)) (c : Store)
      → keys m' ≡ keys m ++ k ∷ []
      → IsCached c m
      → IsCached (add k true c) m'
  IsCached-put k m m' c h sub j r =
      let e' = ap (contains dec j) h ∙ contains-snoc dec k j (keys m) in
      elim (read_add k j true true c r) [
        | inl (same, _) ↦ e' ∙ if_pos (dec k j) same _ _
        | inr old ↦ let there = sub j old in ground arith
      ]

  keys-lowered :
      (cut : Bool) (l : List K) (m : Table K (Shallow K))
      → keys (if cut then m else lower dec l m) ≡ keys m
  keys-lowered true l m = refl
  keys-lowered false l m = keys-lower dec l m

  keys-with_entry :
      (x : Entry K) (is_head : Bool) (m : Table K (Shallow K))
      → get dec x.hash m ≡ none
      → keys (with_entry x is_head m) ≡ keys m ++ x.hash ∷ []
  keys-with_entry x is_head m h =
      let e0 : Shallow K = record { entry = x; head = is_head } in
      keys-lowered x.cut x.next (put dec x.hash e0 m) ∙ keys-put_new x.hash e0 m h

  -- A put into a settled state
  put_entry-settled :
      (x : Entry K) (unique is_head watched : Bool) (m : Table K (Shallow K)) (t : Bool) (n : ℕ)
      (c : Store) (b : List K)
      → (t' : Bool) × ((put_entry dec cached x unique is_head false watched
            (settled dec cached m t n c b)).0
          ≡ settled dec cached
              (with_entry x is_head m)
              t'
              (if unique || not (has_entry dec cached x.hash (settled dec cached m t n c b))
                then suc n
                else n)
              (add x.hash true c)
              b)
  unfolding put_entry register
  put_entry-settled x unique is_head watched m t n c b =
      let n' =
        if unique || not (has_entry dec cached x.hash (settled dec cached m t n c b))
        then suc n
        else n in
      let e0 : Shallow K = record { entry = x; head = is_head } in
      let m' = put dec x.hash e0 m in
      let c' = add x.hash true c in
      let (t', e) = write_entry-settled dec cached x is_head m t n' c' b in
      (
        t',
        ap
              (λ (s : EntryIndex dec cached).
                update_next_heads dec cached x false (shadowed_gids dec cached x watched s).0)
              e
            ∙ ap (update_next_heads dec cached x false)
                (shadowed_gids-settled dec cached x watched m' t' n' c' b)
            ∙ update-lower dec cached x m' t' n' c' b,
      )

  not_holds :
      (k : K) (m : Table K (Shallow K)) (c : Store)
      → contains dec k (keys m) ≡ false
      → IsCached c m
      → holds dec cached k c ≡ false
  unfolding holds
  not_holds k m c absent sub = elim (Option-cases (read k c)) [
    | inl e ↦ rw (e, holds) refl
    | inr (true, e) ↦ absurd (cc (sub k e))
    | inr (false, e) ↦ rw (e, holds) refl
  ]

  not_held :
      (k : K) (m : Table K (Shallow K)) (t : Bool) (n : ℕ) (c : Store) (b : List K)
      → get dec k m ≡ none
      → IsCached c m
      → has_entry dec cached k (settled dec cached m t n c b) ≡ false
  unfolding has_entry
  not_held k m t n c b h sub =
      let absent = absent_key k m h in
      let p : has {V = Shallow K} dec k [] ≡ false = has-keys dec k [] ∙ nothing k in
      let q = has-keys dec k m in let r = not_holds k m c absent sub in ground arith

  IsSound-settled :
      (x : Entry K) (unique is_head watched : Bool) (m : Table K (Shallow K)) (t : Bool) (n : ℕ)
      (c : Store) (b : List K)
      → get dec x.hash m ≡ none
      → is_head ≡ not (referenced dec x.hash m)
      → IsSound (settled dec cached m t n c b)
      → IsSound
          (put_entry dec cached x unique is_head false watched (settled dec cached m t n c b)).0
  IsSound-settled x unique is_head watched m t n c b absent head_iff (_, d, len, match, sub) =
      let (t', e) = put_entry-settled x unique is_head watched m t n c b in
      let m' = with_entry x is_head m in
      let ks = keys-with_entry x is_head m absent in
      let fresh = not_held x.hash m t n c b absent sub in
      let one_more = ap length ks ∙ length-append (keys m) (x.hash ∷ []) in
      subst IsSound (sym e) (
        refl,
        subst (Distinct dec) (sym ks)
            (Distinct-snoc dec x.hash (keys m) (absent_key x.hash m absent) d),
        ground arith,
        put-HeadsMatch x is_head m absent head_iff match,
        IsCached-put x.hash m m' c ks sub,
      )

  -- `put` of an entry that the index does not have, not deferred and marked as a head exactly if no
  -- entry of the index refers to it, adds its hash to those of the index and leaves a sound index sound:
  -- the heads are the entries that no entry refers to, the new one included, and the length is the number
  -- of entries, whether `put` was told that the entry is unique or had to look.
  pub put_entry-IsSound :
      (x : Entry K) (unique is_head watched : Bool) (s : EntryIndex dec cached)
      → get dec x.hash s.index ≡ none
      → is_head ≡ not (referenced dec x.hash s.index)
      → IsSound s
      → IsSound (put_entry dec cached x unique is_head false watched s).0
        × (keys (put_entry dec cached x unique is_head false watched s).0.index
            ≡ keys s.index ++ x.hash ∷ [])
  put_entry-IsSound x unique is_head watched s absent head_iff sound =
      let same : settled dec cached s.index s.timer s.length s.cache s.blocks ≡ s =
        ap (λ (p : Table K (Shallow K)). record s { pending = p }) (sym sound.0) in
      let (t', e) =
        put_entry-settled x unique is_head watched s.index s.timer s.length s.cache s.blocks in
      let added =
        ap (λ (r : EntryIndex dec cached). keys r.index) e
        ∙ keys-with_entry x is_head s.index absent in
      subst
        (λ (r : EntryIndex dec cached).
          IsSound (put_entry dec cached x unique is_head false watched r).0
          × (keys (put_entry dec cached x unique is_head false watched r).0.index
              ≡ keys s.index ++ x.hash ∷ []))
        same
        (
          IsSound-settled x unique is_head watched s.index s.timer s.length s.cache s.blocks absent
              head_iff (refl, sound.1, sound.2, sound.3, sound.4),
          added,
        )
