-- ===== src/Routes/Evict.antt =====
-- The eviction of the oldest maps (`pruneFromMaps`).
use peerbit.Base.Keys.{Distinct, Distinct-snoc, keys-snoc}
use peerbit.Base.Table.{Table, keys, get, contains}
use peerbit.Base.{
  ℕ, zero, suc, ◌+◌, ◌*◌, ◌≤◌, ◌<◌, min, ◌≡◌, ◌≢◌, refl, sym, ap, subst, ◌∙◌, false, some, [], ◌∷◌,
  ◌++◌, ite, if_pos, if_neg, length, length-append, arith, dec_le,
}
use peerbit.Routes.{Routes, prune_from, prune_from_maps}

module _ {K V : Type 0} (dec : Discrete K) where
  -- Whether the first key is another than `me`.
  abbrev pub lead : K → Table K V → ℕ
  lead me [] = 1
  lead me ((k, v) ∷ m) = ite (dec k me) 0 1

  lead_max : (me : K) (m : Table K V) → lead me m ≤ 1
  lead_max me [] = omega arith
  lead_max me ((k, v) ∷ m) = ground arith

  lead-absent :
      (me : K) (m l : Table K V)
      → contains dec me (keys m) ≡ false
      → 1 ≤ length m
      → lead me (m ++ l) ≡ 1
  unfolding contains
  lead-absent me [] l h some_key = absurd (omega arith)
  lead-absent me ((k, v) ∷ m) l h some_key = ground arith

  get-snoc :
      (k : K) (v : V) (m : Table K V)
      → contains dec k (keys m) ≡ false
      → get dec k (m ++ (k, v) ∷ []) ≡ some v
  unfolding get contains
  get-snoc k v [] h = if_pos (dec k k) refl _ _
  get-snoc k v ((j, w) ∷ m) h = ground (arith, get-snoc k v m)

  -- What the loop promises of the maps `m`.
  abbrev pub Evicts : K → ℕ → Table K V → Table K V → Type 0
  Evicts me limit m m' = (length m' ≡ min (length m) limit) × (get dec me m' ≡ get dec me m)

  enough_room :
      (fuel limit : ℕ) (me : K) (m : Table K V)
      → length m ≤ limit
      → prune_from dec fuel me limit m ≡ m
  unfolding prune_from
  enough_room zero limit me m le = refl
  enough_room (suc fuel) limit me [] le = refl
  enough_room (suc fuel) limit me ((k, v) ∷ m) le = ground arith

  drop_oldest :
      (fuel limit : ℕ) (me k : K) (v : V) (m : Table K V)
      → limit < suc (length m)
      → k ≢ me
      → prune_from dec (suc fuel) me limit ((k, v) ∷ m) ≡ prune_from dec fuel me limit m
  unfolding prune_from
  drop_oldest fuel limit me k v m lt ne = rw (if_neg (dec k me) ne) (ground arith)

  move_last :
      (fuel limit : ℕ) (me k : K) (v : V) (m : Table K V)
      → limit < suc (length m)
      → k ≡ me
      → prune_from dec (suc fuel) me limit ((k, v) ∷ m)
        ≡ prune_from dec fuel me limit (m ++ (k, v) ∷ [])
  unfolding prune_from
  move_last fuel limit me k v m lt same = rw (if_pos (dec k me) same) (ground arith)

  prune_from-Evicts :
      (fuel limit : ℕ) (me : K) (m : Table K V)
      → 1 ≤ limit
      → Distinct dec (keys m)
      → 2 * length m ≤ fuel + 2 * limit + lead me m
      → Evicts me limit m (prune_from dec fuel me limit m)
  unfolding get
  prune_from-Evicts zero limit me m positive d fuel_left =
      let at_most_one = lead_max me m in
      let fits : length m ≤ limit = omega arith in
      rw (enough_room zero limit me m fits) (ground arith, refl)
  prune_from-Evicts (suc fuel) limit me [] positive d fuel_left =
      rw (enough_room (suc fuel) limit me [] (omega arith)) (ground arith, refl)
  prune_from-Evicts (suc fuel) limit me ((k, v) ∷ m) positive (once, d) fuel_left =
      elim (dec_le (suc (length m)) limit) [
        | yes fits ↦ rw (enough_room (suc fuel) limit me ((k, v) ∷ m) fits) (ground arith, refl)
        | no full ↦ elim (dec k me) [
          | no other ↦
              let ih = prune_from-Evicts fuel limit me m positive d (ground arith) in
              rw (drop_oldest fuel limit me k v m (omega arith) other)
                (ground (arith, ih.0), ih.1 ∙ sym (if_neg (dec k me) other _ _))
          | yes same ↦
              let absent_me = ap (λ (x : K). contains dec x (keys m)) (sym same) ∙ once in
              let second = lead-absent me m ((k, v) ∷ []) absent_me (omega arith) in
              let size = length-append m ((k, v) ∷ []) in
              let ih =
                prune_from-Evicts fuel limit me (m ++ (k, v) ∷ []) positive
                  (subst (Distinct dec) (sym (keys-snoc dec k v m))
                    (Distinct-snoc dec k (keys m) once d))
                  (ground arith) in
              let found =
                ap (λ (x : K). get dec x (m ++ (k, v) ∷ [])) (sym same) ∙ get-snoc k v m once in
              rw (move_last fuel limit me k v m (omega arith) same)
                (ground (arith, ih.0), ih.1 ∙ found ∙ sym (if_pos (dec k me) same _ _))
        ]
      ]

module _ {K : Type 0} (dec : Discrete K) where
  -- `pruneFromMaps`, of a table without a key twice and with a limit of at least 1, leaves as many maps
  -- as there were or as the limit, whichever is less, and keeps the map of this node itself as it is.
  pub prune_from_maps-keeps_me :
      (s : Routes K)
      → 1 ≤ s.max_from
      → Distinct dec (keys s.routes)
      → (length (prune_from_maps dec s).routes ≡ min (length s.routes) s.max_from)
        × (get dec s.me (prune_from_maps dec s).routes ≡ get dec s.me s.routes)
  unfolding prune_from_maps
  prune_from_maps-keeps_me s positive d =
      prune_from-Evicts dec (2 * length s.routes) s.max_from s.me s.routes positive d (ground arith)
