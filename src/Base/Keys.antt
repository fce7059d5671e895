-- ===== src/Base/Keys.antt =====
-- The keys of a table, and lists with no element twice.
use mathlib.Core.Bool.{true, false}
use mathlib.Core.List.{List, [], ◌∷◌, ◌++◌}
use mathlib.Core.Logic.{ite, if_pos, if_neg}
use mathlib.Core.Option.{none, some}
use mathlib.Core.Path.{◌≡◌, refl}
use native.Mathlib.Omega.{arith}
use peerbit.Base.Table.{Table, keys, get, has, put, delete, contains, discard, contains-discard}

module _ {K : Type 0} (dec : Discrete K) where
  -- No element twice.
  abbrev pub Distinct : List K → Type 0
  Distinct [] = Unit
  Distinct (k ∷ l) = (contains dec k l ≡ false) × Distinct l

  pub contains-snoc :
      (k q : K) (l : List K) → contains dec q (l ++ k ∷ []) ≡ ite (dec k q) true (contains dec q l)
  unfolding contains
  contains-snoc k q [] = refl
  contains-snoc k q (j ∷ l) = ground (arith, contains-snoc k q l)

  pub Distinct-snoc :
      (k : K) (l : List K) → contains dec k l ≡ false → Distinct l → Distinct (l ++ k ∷ [])
  unfolding contains
  Distinct-snoc k [] a d = (refl, tt)
  Distinct-snoc k (j ∷ l) a d =
      (ground (arith, contains-snoc k j l), Distinct-snoc k l (ground arith) d.1)

  pub Distinct-discard : (k : K) (l : List K) → Distinct l → Distinct (discard dec k l)
  unfolding discard
  Distinct-discard k [] d = tt
  Distinct-discard k (j ∷ l) d = elim (dec j k) [
    | yes p ↦ rw (if_pos _ p) (Distinct-discard k l d.1)
    | no p ↦ rw (if_neg _ p) (ground (arith, contains-discard dec k j l), Distinct-discard k l d.1)
  ]

  pub discard-absent : (k : K) (l : List K) → contains dec k l ≡ false → discard dec k l ≡ l
  unfolding contains discard
  discard-absent k [] h = refl
  discard-absent k (j ∷ l) h = ground (arith, discard-absent k l)

module _ {K V : Type 0} (dec : Discrete K) where
  pub has-keys : (k : K) (m : Table K V) → has dec k m ≡ contains dec k (keys m)
  unfolding has contains
  has-keys k [] = refl
  has-keys k (e ∷ m) = ground (arith, has-keys k m)

  pub get-absent : (k : K) (m : Table K V) → contains dec k (keys m) ≡ false → get dec k m ≡ none
  unfolding get contains
  get-absent k [] h = refl
  get-absent k (e ∷ m) h = ground (arith, get-absent k m)

  pub get-head : (k : K) (v : V) (m : Table K V) → get dec k ((k, v) ∷ m) ≡ some v
  unfolding get
  get-head k v m = if_pos (dec k k) refl _ _

  pub get-present :
      (k : K) (m : Table K V) → contains dec k (keys m) ≡ true → (v : V) × (get dec k m ≡ some v)
  unfolding get contains
  get-present k [] h = cc
  get-present k (e ∷ m) h = elim (dec e.0 k) [
    | yes p ↦ (e.1, ground arith)
    | no p ↦ let (v, found) = get-present k m (ground arith) in (v, ground arith)
  ]

  pub put-absent :
      (k : K) (v : V) (m : Table K V)
      → contains dec k (keys m) ≡ false
      → put dec k v m ≡ m ++ (k, v) ∷ []
  unfolding put contains
  put-absent k v [] h = refl
  put-absent k v (e ∷ m) h = ground (arith, put-absent k v m)

  pub keys-put-present :
      (k : K) (v : V) (m : Table K V)
      → contains dec k (keys m) ≡ true
      → keys (put dec k v m) ≡ keys m
  unfolding put contains
  keys-put-present k v [] h = cc
  keys-put-present k v (e ∷ m) h = ground (arith, keys-put-present k v m)

  pub delete-absent : (k : K) (m : Table K V) → contains dec k (keys m) ≡ false → delete dec k m ≡ m
  unfolding delete contains
  delete-absent k [] h = refl
  delete-absent k (e ∷ m) h = ground (arith, delete-absent k m)

  pub delete-head :
      (k : K) (v : V) (m : Table K V)
      → contains dec k (keys m) ≡ false
      → delete dec k ((k, v) ∷ m) ≡ m
  unfolding delete
  delete-head k v m h = ground (arith, delete-absent k m)

  pub keys-snoc : (k : K) (v : V) (m : Table K V) → keys (m ++ (k, v) ∷ []) ≡ keys m ++ k ∷ []
  keys-snoc k v [] = refl
  keys-snoc k v (e ∷ m) = rw (keys-snoc k v m)

  pub keys-delete-head :
      (k : K) (l : List K) (m : Table K V)
      → keys m ≡ k ∷ l
      → contains dec k l ≡ false
      → keys (delete dec k m) ≡ l
  unfolding delete
  keys-delete-head k l [] e h = cc
  keys-delete-head k l (x ∷ m) e h =
      let at_head : x.0 ≡ k = cc in
      let below : keys m ≡ l = cc in
      rw (if_pos _ at_head) (rw (delete-absent k m (rw below h)) below)

  pub contains_of_get :
      (k : K) (v : V) (m : Table K V) → get dec k m ≡ some v → contains dec k (keys m) ≡ true
  unfolding get contains
  contains_of_get k v [] h = cc
  contains_of_get k v (e ∷ m) h = ground (arith, contains_of_get k v m)
