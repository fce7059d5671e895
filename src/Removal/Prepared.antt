-- ===== src/Removal/Prepared.antt =====
-- Lists of prepared deletions, and what they cover.
use peerbit.Base.Table.{Table, get, contains}
use peerbit.Base.{
  ◌≡◌, ◌⊎◌, inl, inr, refl, sym, ap, subst, ◌∙◌, Bool, true, false, not, ◌&&◌, Option, none, some,
  List, [], ◌∷◌, ◌++◌, if◌then◌else◌, ite, if_pos, if_neg, arith, Option-cases,
}
use peerbit.EntryIndex.{Entry, Shallow}
use peerbit.EntryIndex.Heads.{refers}
use peerbit.Removal.{has_alternative, prepare_delete}

module _ {K : Type 0} (dec : Discrete K) (resolve : K → Option (Entry K))
    (index : Table K (Shallow K)) where
  abbrev pub hashes : List (Shallow K) → List K
  hashes [] = []
  hashes (e ∷ l) = e.entry.hash ∷ hashes l

  abbrev pub entry_hashes : List (Entry K) → List K
  entry_hashes [] = []
  entry_hashes (e ∷ l) = e.hash ∷ entry_hashes l

  -- The index has entries under their hashes, and hashes resolve to their entries.
  abbrev pub IsKeyed : Type 0
  IsKeyed =
      ((k : K) (e : Shallow K) → get dec k index ≡ some e → e.entry.hash ≡ k)
      × ((k : K) (e : Entry K) → resolve k ≡ some e → e.hash ≡ k)

  -- Every entry of the index that refers to a hash, and is no cut, is in a list.
  abbrev pub IsCovered : List (Shallow K) → K → Type 0
  IsCovered l k =
      (j : K) (e : Shallow K)
      → get dec j index ≡ some e
      → refers dec e.entry k ≡ true
      → contains dec e.entry.hash (hashes l) ≡ true

  abbrev pub RootOrCovered : List K → List (Shallow K) → K → Type 0
  RootOrCovered roots l k = (contains dec k roots ≡ true) ⊎ IsCovered l k

  -- The entry that is skipped is a cut where the index has it.
  abbrev pub SkipsCut : Bool → List (Entry K) → Type 0
  SkipsCut false l = Unit
  SkipsCut true [] = Unit
  SkipsCut true (e ∷ l) = (x : Shallow K) → get dec e.hash index ≡ some x → x.entry.cut ≡ true

  abbrev pub AllStacked : List K → List (Shallow K) → List (Entry K) → Type 0
  AllStacked roots td [] = Unit
  AllStacked roots td (e ∷ l) = RootOrCovered roots td e.hash × AllStacked roots td l

  abbrev pub AllCovered : List K → List (Shallow K) → List (Shallow K) → Type 0
  AllCovered roots td [] = Unit
  AllCovered roots td (e ∷ l) = RootOrCovered roots td e.entry.hash × AllCovered roots td l

  pub only_alternative :
      (k hash j : K) (e : Shallow K) (m : Table K (Shallow K))
      → has_alternative dec k hash m ≡ false
      → get dec j m ≡ some e
      → refers dec e.entry k ≡ true
      → e.entry.hash ≡ hash
  unfolding has_alternative get
  only_alternative k hash j e [] h found r = absurd (cc found)
  only_alternative k hash j e ((i, x) ∷ m) h found r = elim (dec i j) [
    | yes same ↦
        let here : some x ≡ some e = sym (if_pos (dec i j) same _ _) ∙ found in
        let here' : x ≡ e = cc here in
        let h' =
          ap
            (λ (y : Shallow K).
              contains dec k y.entry.next
              && not y.entry.cut
              && ite (dec y.entry.hash hash) false true)
            here' in
        elim (dec e.entry.hash hash) [
          | yes at ↦ at
          | no off ↦
              let off' : ite (dec e.entry.hash hash) false true ≡ true =
                if_neg (dec e.entry.hash hash) off _ _ in
              absurd (ground arith)
        ]
    | no other ↦
        only_alternative k hash j e m (ground arith) (sym (if_neg (dec i j) other _ _) ∙ found) r
  ]

  pub contains-append :
      (k : K) (a b : List K) → contains dec k a ≡ true → contains dec k (a ++ b) ≡ true
  unfolding contains
  contains-append k [] b h = absurd (cc h)
  contains-append k (x ∷ a) b h = let ih = contains-append k a b in ground arith

  pub contains-last : (k : K) (a : List K) → contains dec k (a ++ k ∷ []) ≡ true
  unfolding contains
  contains-last k [] = if_pos (dec k k) refl _ _
  contains-last k (x ∷ a) = let ih = contains-last k a in ground arith

  pub hashes-snoc :
      (l : List (Shallow K)) (e : Shallow K) → hashes (l ++ e ∷ []) ≡ hashes l ++ e.entry.hash ∷ []
  hashes-snoc [] e = refl
  hashes-snoc (x ∷ l) e = ap (◌∷◌ x.entry.hash) (hashes-snoc l e)

  abbrev pub Grows : List (Shallow K) → List (Shallow K) → Type 0
  Grows a b = (k : K) → contains dec k (hashes a) ≡ true → contains dec k (hashes b) ≡ true

  pub IsCovered-Grows : (a b : List (Shallow K)) (k : K) → Grows a b → IsCovered a k → IsCovered b k
  IsCovered-Grows a b k g c j e found r = g e.entry.hash (c j e found r)

  pub RootOrCovered-Grows :
      (roots : List K) (a b : List (Shallow K)) (k : K)
      → Grows a b
      → RootOrCovered roots a k
      → RootOrCovered roots b k
  RootOrCovered-Grows roots a b k g (inl root) = inl root
  RootOrCovered-Grows roots a b k g (inr c) = inr (IsCovered-Grows a b k g c)

  pub AllStacked-Grows :
      (roots : List K) (a b : List (Shallow K)) (l : List (Entry K))
      → Grows a b
      → AllStacked roots a l
      → AllStacked roots b l
  AllStacked-Grows roots a b [] g all = tt
  AllStacked-Grows roots a b (e ∷ l) g (c, all) =
      (RootOrCovered-Grows roots a b e.hash g c, AllStacked-Grows roots a b l g all)

  pub AllCovered-snoc :
      (roots : List K) (a b l : List (Shallow K)) (e : Shallow K)
      → Grows a b
      → AllCovered roots a l
      → RootOrCovered roots a e.entry.hash
      → AllCovered roots b (l ++ e ∷ [])
  AllCovered-snoc roots a b [] e g all c = (RootOrCovered-Grows roots a b e.entry.hash g c, tt)
  AllCovered-snoc roots a b (x ∷ l) e g (cx, all) c =
      (RootOrCovered-Grows roots a b x.entry.hash g cx, AllCovered-snoc roots a b l e g all c)

  -- What a round adds to the list
  abbrev pub next_list : Bool → K → List (Shallow K) → List (Shallow K)
  next_list skip k td = if skip then td else prepare_delete dec k index td

  pub prepare_delete-cases :
      (k : K) (td : List (Shallow K))
      → ((get dec k index ≡ none) × (prepare_delete dec k index td ≡ td))
        ⊎ ((e : Shallow K) × (get dec k index ≡ some e)
            × (prepare_delete dec k index td ≡ td ++ e ∷ []))
  unfolding prepare_delete
  prepare_delete-cases k td = elim (Option-cases (get dec k index)) [
    | inl e ↦ inl (e, rw (e, prepare_delete) refl)
    | inr (x, e) ↦ inr (x, e, rw (e, prepare_delete) refl)
  ]

  pub Grows-snoc : (td : List (Shallow K)) (e : Shallow K) → Grows td (td ++ e ∷ [])
  Grows-snoc td e k h =
      ap (contains dec k) (hashes-snoc td e) ∙ contains-append k (hashes td) (e.entry.hash ∷ []) h

  pub next_list-Grows :
      (skip : Bool) (k : K) (td : List (Shallow K)) → Grows td (next_list skip k td)
  next_list-Grows true k td = λ j h. h
  next_list-Grows false k td = elim (prepare_delete-cases k td) [
    | inl (_, e) ↦ subst (Grows td) (sym e) (λ j h. h)
    | inr (x, _, e) ↦ subst (Grows td) (sym e) (Grows-snoc td x)
  ]

  pub next_list-AllCovered :
      (roots : List K) (skip : Bool) (k : K) (td : List (Shallow K))
      → IsKeyed
      → RootOrCovered roots td k
      → AllCovered roots td td
      → AllCovered roots (next_list skip k td) (next_list skip k td)
  next_list-AllCovered roots true k td keyed c all = all
  next_list-AllCovered roots false k td keyed c all = elim (prepare_delete-cases k td) [
    | inl (_, e) ↦ subst (λ (l : List (Shallow K)). AllCovered roots l l) (sym e) all
    | inr (x, found, e) ↦
        subst (λ (l : List (Shallow K)). AllCovered roots l l) (sym e)
          (AllCovered-snoc roots td (td ++ x ∷ []) td x (Grows-snoc td x) all
            (subst (RootOrCovered roots td) (sym (keyed.0 k x found)) c))
  ]
