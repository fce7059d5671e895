-- ===== src/LogHeads/Joined.antt =====
-- Which entries `join` takes for heads.
use peerbit.Base.Table.{Table, get, has, put, contains, get-put}
use peerbit.Base.{
  ◌≡◌, ◌≢◌, ◌⊎◌, inl, inr, refl, sym, ap, ◌∙◌, Bool, true, false, not, ◌||◌, Option, none, some,
  List, [], ◌∷◌, if◌then◌else◌, if_true, if_false, ite, if_pos, if_neg, arith, Bool-cases,
}
use peerbit.EntryIndex.{Entry}
use peerbit.LogHeads.{mark_nexts, mark_heads, join_heads}

module _ {K : Type 0} (dec : Discrete K) where
  -- Some entry of a list refers to a hash.
  abbrev pub any_refers : K → List (Entry K) → Bool
  any_refers k [] = false
  any_refers k (e ∷ l) = contains dec k e.next || any_refers k l

  abbrev pub any_hash : K → List (Entry K) → Bool
  any_hash k [] = false
  any_hash k (e ∷ l) = ite (dec e.hash k) true false || any_hash k l

  -- Every entry comes before those that refer to it, and no hash comes twice.
  abbrev pub OldestFirst : List (Entry K) → Type 0
  OldestFirst [] = Unit
  OldestFirst (e ∷ l) =
      ((k : K) → any_hash k l ≡ true → (contains dec k e.next ≡ false) × (e.hash ≢ k))
      × OldestFirst l

  get-mark_nexts :
      (k : K) (l : List K) (heads : Table K Bool)
      → get dec k (mark_nexts dec l heads)
        ≡ (if contains dec k l then some false else get dec k heads)
  unfolding mark_nexts contains
  get-mark_nexts k [] heads = refl
  get-mark_nexts k (j ∷ l) heads =
      let ih = get-mark_nexts k l (put dec j false heads) in
      let at = get-put dec j k false heads in ih ∙ ground arith

  get-marked :
      (k : K) (e : Entry K) (heads : Table K Bool)
      → get dec k (mark_nexts dec e.next (put dec e.hash true heads)) ≡ (
          if contains dec k e.next
          then some false
          else ite (dec e.hash k) (some true) (get dec k heads))
  get-marked k e heads =
      get-mark_nexts k e.next (put dec e.hash true heads)
      ∙ ap (λ (o : Option Bool). if contains dec k e.next then some false else o)
          (get-put dec e.hash k true heads)

  has-absent : (k : K) (m : Table K Bool) → get dec k m ≡ none → has dec k m ≡ false
  unfolding get has
  has-absent k [] h = refl
  has-absent k ((j, b) ∷ m) h = elim (dec j k) [
    | yes same ↦ absurd (cc (sym (if_pos (dec j k) same _ _) ∙ h))
    | no other ↦ if_neg (dec j k) other _ _ ∙ has-absent k m (sym (if_neg (dec j k) other _ _) ∙ h)
  ]

  any_hash-head : (e : Entry K) (l : List (Entry K)) → any_hash e.hash (e ∷ l) ≡ true
  any_hash-head e l = let here = if_pos (dec e.hash e.hash) refl true false in ground arith

  marks_lem :
      {P : Type 0} (a b c : Bool) (d : Dec P) (old : Option Bool)
      → (a ≡ false) ⊎ (c ≡ false)
      → (if b
          then some false
          else if c
          then some true
          else if a
          then some false
          else ite d (some true) old)
        ≡ (if a || b then some false else if ite d true false || c then some true else old)
  marks_lem true true true d old h = refl
  marks_lem true true false d old h = refl
  marks_lem true false true d old (inl e) = absurd (cc e)
  marks_lem true false true d old (inr e) = absurd (cc e)
  marks_lem true false false d old h = refl
  marks_lem false true c d old h = refl
  marks_lem false false c (yes p) old h = ground arith
  marks_lem false false c (no p) old h = ground arith

  -- What the loop leaves at a hash
  get-mark_heads :
      (k : K) (l : List (Entry K)) (heads : Table K Bool)
      → OldestFirst l
      → ((j : K) → any_hash j l ≡ true → get dec j heads ≡ none)
      → get dec k (mark_heads dec l heads) ≡ (
          if any_refers k l
          then some false
          else if any_hash k l
          then some true
          else get dec k heads)
  unfolding mark_heads
  get-mark_heads k [] heads ord out = refl
  get-mark_heads k (e ∷ l) heads (apart, ord) out =
      let heads' = mark_nexts dec e.next (put dec e.hash true heads) in
      let fresh : has dec e.hash heads ≡ false =
        has-absent e.hash heads (out e.hash (any_hash-head e l)) in
      let out' : (j : K) → any_hash j l ≡ true → get dec j heads' ≡ none = λ j there.
        let (unreferred, other) = apart j there in
        let before = out j (ground arith) in
        get-marked j e heads ∙ if_false _ unreferred ∙ if_neg (dec e.hash j) other _ _ ∙ before in
      let ih = get-mark_heads k l heads' ord out' in
      let here = get-marked k e heads in
      ap (λ (b : Bool). get dec k (mark_heads dec l (if b then heads else heads'))) fresh
      ∙ ih
      ∙ ap
          (λ (o : Option Bool).
            if any_refers k l then some false else if any_hash k l then some true else o)
          here
      ∙ elim (Bool-cases (any_hash k l)) [
        | inl there ↦
            let (unreferred, other) = apart k there in
            marks_lem (contains dec k e.next) (any_refers k l) (any_hash k l) (dec e.hash k)
              (get dec k heads) (inl unreferred)
        | inr out_there ↦
            marks_lem (contains dec k e.next) (any_refers k l) (any_hash k l) (dec e.hash k)
              (get dec k heads) (inr out_there)
      ]

  get-nothing : (k : K) → get {V = Bool} dec k [] ≡ none
  unfolding get
  get-nothing k = refl

  -- `join` of entries that come oldest first: an entry of the collection is marked as a head exactly if
  -- no entry of the collection refers to it.
  pub join_heads_iff :
      (k : K) (l : List (Entry K))
      → OldestFirst l
      → any_hash k l ≡ true
      → get dec k (join_heads dec l) ≡ some (not (any_refers k l))
  unfolding join_heads
  join_heads_iff k l ord there =
      let e = get-mark_heads k l [] ord (λ j _. get-nothing j) in
      let n = get-nothing k in
      elim (Bool-cases (any_refers k l)) [
        | inl r ↦ e ∙ if_true _ r ∙ ap (λ (b : Bool). some (not b)) (sym r)
        | inr r ↦ e ∙ if_false _ r ∙ if_true _ there ∙ ap (λ (b : Bool). some (not b)) (sym r)
      ]
