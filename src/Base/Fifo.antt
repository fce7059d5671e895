-- ===== src/Base/Fifo.antt =====
-- A first-in-first-out queue of a package that the program only calls, by what its documentation
-- says: `push` puts a value at the end, `shift` takes the first one.
use mathlib.Core.List.{List, [], ◌∷◌, ◌++◌}
use mathlib.Core.Option.{Option, none, some}
use mathlib.Core.Path.{◌≡◌, refl}

-- The first element and the rest.
abbrev pub uncons {ℓ} : {A : Type ℓ} → List A → Option (A × List A)
uncons [] = none
uncons (x ∷ l) = some (x, l)

-- The same of a result of `shift`, whose rest is a queue.
abbrev pub seen_as {ℓ κ} :
    {A : Type ℓ} {Q : Type κ} → (Q → List A) → Option (A × Q) → Option (A × List A)
seen_as contents none = none
seen_as contents (some (x, q)) = some (x, contents q)

pub record Fifo (A : Type 0) : Type 1 where
  pub Queue : Type 0
  pub empty : Queue
  pub push : Queue → A → Queue
  pub shift : Queue → Option (A × Queue)
  -- what the queue holds, first in first
  pub contents : Queue → List A
  pub contents_empty : contents empty ≡ []
  pub contents_push : (q : Queue) (x : A) → contents (push q x) ≡ contents q ++ x ∷ []
  pub contents_shift : (q : Queue) → seen_as contents (shift q) ≡ uncons (contents q)

-- A list is such a queue.
abbrev pub list_fifo : (A : Type 0) → Fifo A
list_fifo A = record {
  Queue = List A;
  empty = [];
  push = λ q x. q ++ x ∷ [];
  shift = uncons;
  contents = λ q. q;
  contents_empty = refl;
  contents_push = λ q x. refl;
  contents_shift = list_shift;
}
  where
    list_shift : (q : List A) → seen_as (λ c. c) (uncons q) ≡ uncons q
    list_shift [] = refl
    list_shift (x ∷ q) = refl
