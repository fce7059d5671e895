-- ===== src/Base/Values.antt =====
-- Tables all of whose values meet a predicate.
use mathlib.Core.List.{[], ◌∷◌, ◌++◌}
use mathlib.Core.Logic.{if_pos, if_neg}
use mathlib.Core.Option.{some}
use mathlib.Core.Path.{◌≡◌, subst}
use native.Mathlib.Omega.{arith}
use peerbit.Base.Table.{Table, get, put, delete}

module _ {K V : Type 0} (dec : Discrete K) (P : V → Type 0) where
  abbrev pub AllValues : Table K V → Type 0
  AllValues [] = Unit
  AllValues ((k, v) ∷ m) = P v × AllValues m

  pub AllValues-get : (k : K) (v : V) (m : Table K V) → AllValues m → get dec k m ≡ some v → P v
  unfolding get
  AllValues-get k v [] a h = cc h
  AllValues-get k v ((j, w) ∷ m) (p, a) h = elim (dec j k) [
    | yes e ↦ subst P (ground arith) p
    | no e ↦ AllValues-get k v m a (ground arith)
  ]

  pub AllValues-put :
      (k : K) (v : V) (m : Table K V) → P v → AllValues m → AllValues (put dec k v m)
  unfolding put
  AllValues-put k v [] p a = (p, tt)
  AllValues-put k v ((j, w) ∷ m) p (q, a) = elim (dec j k) [
    | yes e ↦ rw (if_pos _ e) (p, a)
    | no e ↦ rw (if_neg _ e) (q, AllValues-put k v m p a)
  ]

  pub AllValues-delete : (k : K) (m : Table K V) → AllValues m → AllValues (delete dec k m)
  unfolding delete
  AllValues-delete k [] a = tt
  AllValues-delete k ((j, w) ∷ m) (q, a) = elim (dec j k) [
    | yes e ↦ rw (if_pos _ e) (AllValues-delete k m a)
    | no e ↦ rw (if_neg _ e) (q, AllValues-delete k m a)
  ]

  pub AllValues-snoc :
      (k : K) (v : V) (m : Table K V) → AllValues m → P v → AllValues (m ++ (k, v) ∷ [])
  AllValues-snoc k v [] a p = (p, tt)
  AllValues-snoc k v ((j, w) ∷ m) (q, a) p = (q, AllValues-snoc k v m a p)
