-- ===== src/EntryIndex/Heads.antt =====
-- Tables of entries: which entries are referred to, and how the marks of the heads follow.
use peerbit.Base.Keys.{Distinct, delete-absent}
use peerbit.Base.Values.{AllValues, AllValues-get, AllValues-put}
use peerbit.Base.Table.{Table, keys, get, put, delete, contains, get-put}
use peerbit.Base.{
  ◌≡◌, ◌⊎◌, inl, inr, refl, sym, ap, subst, ◌∙◌, Bool, true, false, not, ◌&&◌, ◌||◌, none, some,
  List, [], ◌∷◌, ◌==◌, if◌then◌else◌, ite, if_pos, if_neg, arith, Bool-cases, Option-cases,
}
use peerbit.EntryIndex.{Entry, Shallow, count_next}

module _ {K : Type 0} (dec : Discrete K) where
  -- An entry that is not a cut refers to a hash.
  abbrev pub refers : Entry K → K → Bool
  refers e k = not e.cut && contains dec k e.next

  -- Some entry refers to a hash.
  unfoldable pub referenced : K → Table K (Shallow K) → Bool
  referenced k [] = false
  referenced k ((j, e) ∷ m) = refers e.entry k || referenced k m

  -- The heads are exactly the entries that no entry refers to.
  abbrev pub HeadsMatch : Table K (Shallow K) → Type 0
  HeadsMatch m = (k : K) (e : Shallow K) → get dec k m ≡ some e → e.head ≡ not (referenced k m)

  -- A mark leaves what an entry refers to.
  pub referenced-remark :
      (j k : K) (e : Shallow K) (head : Bool) (m : Table K (Shallow K))
      → get dec k m ≡ some e
      → referenced j (put dec k (record e { head = head }) m) ≡ referenced j m
  unfolding referenced get put
  referenced-remark j k e head [] h = cc h
  referenced-remark j k e head ((i, x) ∷ m) h = elim (dec i k) [
    | yes same ↦
        let here : x ≡ e = ground arith in
        rw (if_pos _ same) (ap (λ (y : Shallow K). refers y.entry j || referenced j m) (sym here))
    | no other ↦ rw (if_neg _ other) (ground (arith, referenced-remark j k e head m))
  ]

  pub referenced-put :
      (j k : K) (e : Shallow K) (m : Table K (Shallow K))
      → get dec k m ≡ none
      → referenced j (put dec k e m) ≡ (referenced j m || refers e.entry j)
  unfolding referenced get put
  referenced-put j k e [] h = ground arith
  referenced-put j k e ((i, x) ∷ m) h = elim (dec i k) [
    | yes same ↦ absurd (ground arith)
    | no other ↦ rw (if_neg _ other) (ground (arith, referenced-put j k e m))
  ]

  pub referenced-delete :
      (j k : K) (e : Shallow K) (m : Table K (Shallow K))
      → Distinct dec (keys m)
      → get dec k m ≡ some e
      → referenced j m ≡ (referenced j (delete dec k m) || refers e.entry j)
  unfolding referenced get delete
  referenced-delete j k e [] d h = cc h
  referenced-delete j k e ((i, x) ∷ m) (once, d) h = elim (dec i k) [
    | yes same ↦
        let here : x ≡ e = ground arith in
        let rest : delete dec k m ≡ m =
          delete-absent dec k m (ap (λ (y : K). contains dec y (keys m)) (sym same) ∙ once) in
        rw (if_pos _ same, rest)
          (ap (λ (y : Shallow K). refers y.entry j || referenced j m) here ∙ ground arith)
    | no other ↦ rw (if_neg _ other) (ground (arith, referenced-delete j k e m))
  ]

  -- The loop that marks entries as no heads, on a table.
  unfoldable pub lower_one : K → Table K (Shallow K) → Table K (Shallow K)
  lower_one k m = elim (get dec k m) [ none ↦ m | some e ↦ put dec k (record e { head = false }) m ]

  unfoldable pub lower : List K → Table K (Shallow K) → Table K (Shallow K)
  lower [] m = m
  lower (k ∷ l) m = lower l (lower_one k m)

  -- The loop that marks entries as heads that nothing refers to, on a table.
  unfoldable pub raise_one : K → Table K (Shallow K) → Table K (Shallow K)
  raise_one k m = elim (get dec k m) [
    | none ↦ m
    | some e ↦ if count_next dec k none m == 0 then put dec k (record e { head = true }) m else m
  ]

  unfoldable pub raise : List K → Table K (Shallow K) → Table K (Shallow K)
  raise [] m = m
  raise (k ∷ l) m = raise l (raise_one k m)

  referenced-lower_one :
      (j k : K) (m : Table K (Shallow K)) → referenced j (lower_one k m) ≡ referenced j m
  unfolding lower_one
  referenced-lower_one j k m = elim (Option-cases (get dec k m)) [
    | inl e ↦ rw (e, lower_one) refl
    | inr (x, e) ↦ rw (e, lower_one) (referenced-remark j k x false m e)
  ]

  pub referenced-lower :
      (j : K) (l : List K) (m : Table K (Shallow K)) → referenced j (lower l m) ≡ referenced j m
  unfolding lower
  referenced-lower j [] m = refl
  referenced-lower j (k ∷ l) m = referenced-lower j l (lower_one k m) ∙ referenced-lower_one j k m

  -- An entry after a change of marks, from the entry before it
  abbrev pub From : K → Table K (Shallow K) → (Bool → Bool) → Shallow K → Type 0
  From j m mark e' = (e : Shallow K) × (get dec j m ≡ some e) × (e'.head ≡ mark e.head)

  lower_one-From :
      (j k : K) (m : Table K (Shallow K)) (e' : Shallow K)
      → get dec j (lower_one k m) ≡ some e'
      → From j m (λ head. ite (dec k j) false head) e'
  unfolding lower_one
  lower_one-From j k m e' h = elim (Option-cases (get dec k m)) [
    | inl e ↦
        let h' : get dec j m ≡ some e' = sym (rw (e, lower_one) refl) ∙ h in
        elim (dec k j) [
          | yes same ↦ absurd (cc (ap (λ (i : K). get dec i m) same))
          | no other ↦ (e', h', ground arith)
        ]
    | inr (x, e) ↦
        let h' : get dec j (put dec k (record x { head = false }) m) ≡ some e' =
          sym (rw (e, lower_one) refl) ∙ h in
        let p = get-put dec k j (record x { head = false }) m in
        elim (dec k j) [
          | yes same ↦ (x, sym (ap (λ (i : K). get dec i m) same) ∙ e, ground arith)
          | no other ↦ (e', ground arith, ground arith)
        ]
  ]

  pub lower-From :
      (j : K) (l : List K) (m : Table K (Shallow K)) (e' : Shallow K)
      → get dec j (lower l m) ≡ some e'
      → From j m (λ head. if contains dec j l then false else head) e'
  unfolding lower contains
  lower-From j [] m e' h = (e', h, refl)
  lower-From j (k ∷ l) m e' h =
      let (e1, h1, m1) = lower-From j l (lower_one k m) e' h in
      let (e2, h2, m2) = lower_one-From j k m e1 h1 in (e2, h2, ground arith)

  abbrev pub NoCuts : Table K (Shallow K) → Type 0
  NoCuts m = AllValues dec (λ e. e.entry.cut ≡ false) m

  -- Where there are no cuts, the entries that refer to a hash are counted.
  count_next-zero :
      (k : K) (m : Table K (Shallow K))
      → NoCuts m
      → (count_next dec k none m == 0) ≡ not (referenced k m)
  unfolding count_next referenced
  count_next-zero k [] n = refl
  count_next-zero k ((j, e) ∷ m) (uncut, n) = ground (arith, count_next-zero k m n)

  raise_one-cases :
      (k : K) (m : Table K (Shallow K))
      → NoCuts m
      → (((get dec k m ≡ none) ⊎ (referenced k m ≡ true)) × (raise_one k m ≡ m))
        ⊎ ((e : Shallow K) × (get dec k m ≡ some e)
            × (referenced k m ≡ false)
            × (raise_one k m ≡ put dec k (record e { head = true }) m))
  unfolding raise_one
  raise_one-cases k m n = elim (Option-cases (get dec k m)) [
    | inl e ↦ inl (inl e, rw (e, raise_one) refl)
    | inr (x, e) ↦
        let zero_iff = count_next-zero k m n in
        elim (Bool-cases (referenced k m)) [
          | inl r ↦ inl (inr r, rw (e, raise_one) (ground arith))
          | inr r ↦ inr (x, e, r, rw (e, raise_one) (ground arith))
        ]
  ]

  raise_one-NoCuts : (k : K) (m : Table K (Shallow K)) → NoCuts m → NoCuts (raise_one k m)
  raise_one-NoCuts k m n = elim (raise_one-cases k m n) [
    | inl (_, e) ↦ subst NoCuts (sym e) n
    | inr (x, found, _, e) ↦ subst NoCuts (sym e) (
        AllValues-put dec (λ (y : Shallow K). y.entry.cut ≡ false) k (record x { head = true }) m
          (AllValues-get dec (λ (y : Shallow K). y.entry.cut ≡ false) k x m n found) n)
  ]

  referenced-raise_one :
      (j k : K) (m : Table K (Shallow K)) → NoCuts m → referenced j (raise_one k m) ≡ referenced j m
  referenced-raise_one j k m n = elim (raise_one-cases k m n) [
    | inl (_, e) ↦ ap (referenced j) e
    | inr (x, found, _, e) ↦ ap (referenced j) e ∙ referenced-remark j k x true m found
  ]

  pub referenced-raise :
      (j : K) (l : List K) (m : Table K (Shallow K))
      → NoCuts m
      → referenced j (raise l m) ≡ referenced j m
  unfolding raise
  referenced-raise j [] m n = refl
  referenced-raise j (k ∷ l) m n =
      referenced-raise j l (raise_one k m) (raise_one-NoCuts k m n) ∙ referenced-raise_one j k m n

  raise_one-From :
      (j k : K) (m : Table K (Shallow K)) (e' : Shallow K)
      → NoCuts m
      → get dec j (raise_one k m) ≡ some e'
      → From j m
          (λ head. if ite (dec k j) true false && not (referenced j m) then true else head)
          e'
  raise_one-From j k m e' n h = elim (raise_one-cases k m n) [
    | inl (why, e) ↦
        let h' : get dec j m ≡ some e' = sym (ap (get dec j) e) ∙ h in
        elim (dec k j) [
          | no other ↦ (e', h', ground arith)
          | yes same ↦ elim why [
            | inl nothing ↦ absurd (cc (ap (λ (i : K). get dec i m) same))
            | inr r ↦
                let r' = sym (ap (λ (i : K). referenced i m) same) ∙ r in (e', h', ground arith)
          ]
        ]
    | inr (x, found, r, e) ↦
        let h' = sym (ap (get dec j) e) ∙ h in
        let p = get-put dec k j (record x { head = true }) m in
        elim (dec k j) [
          | yes same ↦
              let r' = sym (ap (λ (i : K). referenced i m) same) ∙ r in
              (x, sym (ap (λ (i : K). get dec i m) same) ∙ found, ground arith)
          | no other ↦ (e', ground arith, ground arith)
        ]
  ]

  pub raise-From :
      (j : K) (l : List K) (m : Table K (Shallow K)) (e' : Shallow K)
      → NoCuts m
      → get dec j (raise l m) ≡ some e'
      → From j m (λ head. if contains dec j l && not (referenced j m) then true else head) e'
  unfolding raise contains
  raise-From j [] m e' n h = (e', h, refl)
  raise-From j (k ∷ l) m e' n h =
      let (e1, h1, m1) = raise-From j l (raise_one k m) e' (raise_one-NoCuts k m n) h in
      let (e2, h2, m2) = raise_one-From j k m e1 n h1 in
      let same = referenced-raise_one j k m n in (e2, h2, ground arith)
