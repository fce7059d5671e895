-- ===== src/Base/Table.antt =====
-- JavaScript's `Map`: an association list in insertion order. Setting a key that is present keeps
-- its place, deleting it and setting it again moves it to the end.
use mathlib.Core.List.{List, [], ◌∷◌}
use mathlib.Core.Bool.{Bool, true, false}
use mathlib.Core.Logic.{ite, if_pos, if_neg}
use mathlib.Core.Option.{Option, none, some}
use mathlib.Core.Path.{◌≡◌, refl}
use native.Mathlib.Omega.{arith}

abbrev pub Table {ℓ κ} : Type ℓ → Type κ → Type (ℓ ⊔ κ)
Table K V = List (K × V)

abbrev pub keys {ℓ κ} : {K : Type ℓ} {V : Type κ} → Table K V → List K
keys [] = []
keys (e ∷ m) = e.0 ∷ keys m

module _ {ℓ} {K : Type ℓ} (dec : Discrete K) where
  -- `set.has(k)`
  unfoldable pub contains : K → List K → Bool
  contains k [] = false
  contains k (j ∷ l) = ite (dec j k) true (contains k l)

  -- `set.delete(k)`
  unfoldable pub discard : K → List K → List K
  discard k [] = []
  discard k (j ∷ l) = let rest = discard k l in ite (dec j k) rest (j ∷ rest)

  -- `set.add(k)`
  unfoldable pub include : K → List K → List K
  include k [] = k ∷ []
  include k (j ∷ l) = ite (dec j k) (j ∷ l) (j ∷ include k l)

  pub contains-discard :
      (k q : K) (l : List K) → contains q (discard k l) ≡ ite (dec k q) false (contains q l)
  unfolding contains discard
  contains-discard k q [] = ground arith
  contains-discard k q (j ∷ l) = elim (dec j k) [
    | yes p ↦ rw (if_pos _ p) (ground (arith, contains-discard k q l))
    | no p ↦ rw (if_neg _ p) (ground (arith, contains-discard k q l))
  ]

  pub contains-include :
      (k q : K) (l : List K) → contains q (include k l) ≡ ite (dec k q) true (contains q l)
  unfolding contains include
  contains-include k q [] = refl
  contains-include k q (j ∷ l) = elim (dec j k) [
    | yes p ↦ rw (if_pos _ p) (ground (arith, contains-include k q l))
    | no p ↦ rw (if_neg _ p) (ground (arith, contains-include k q l))
  ]

module _ {ℓ κ} {K : Type ℓ} {V : Type κ} (dec : Discrete K) where
  -- `map.get(k)`
  unfoldable pub get : K → Table K V → Option V
  get k [] = none
  get k ((j, v) ∷ m) = ite (dec j k) (some v) (get k m)

  -- `map.has(k)`
  unfoldable pub has : K → Table K V → Bool
  has k [] = false
  has k ((j, v) ∷ m) = ite (dec j k) true (has k m)

  -- `map.set(k, v)`
  unfoldable pub put : K → V → Table K V → Table K V
  put k v [] = (k, v) ∷ []
  put k v ((j, w) ∷ m) = ite (dec j k) ((j, v) ∷ m) ((j, w) ∷ put k v m)

  -- `map.delete(k)`
  unfoldable pub delete : K → Table K V → Table K V
  delete k [] = []
  delete k ((j, v) ∷ m) = let rest = delete k m in ite (dec j k) rest ((j, v) ∷ rest)

  pub get-put :
      (k q : K) (v : V) (m : Table K V) → get q (put k v m) ≡ ite (dec k q) (some v) (get q m)
  unfolding get put
  get-put k q v [] = refl
  get-put k q v ((j, w) ∷ m) = elim (dec j k) [
    | yes p ↦ rw (if_pos _ p) (ground (arith, get-put k q v m))
    | no p ↦ rw (if_neg _ p) (ground (arith, get-put k q v m))
  ]

  pub get-delete : (k q : K) (m : Table K V) → get q (delete k m) ≡ ite (dec k q) none (get q m)
  unfolding get delete
  get-delete k q [] = ground arith
  get-delete k q ((j, w) ∷ m) = elim (dec j k) [
    | yes p ↦ rw (if_pos _ p) (ground (arith, get-delete k q m))
    | no p ↦ rw (if_neg _ p) (ground (arith, get-delete k q m))
  ]
