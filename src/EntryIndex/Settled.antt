-- ===== src/EntryIndex/Settled.antt =====
-- States of the entry index with no deferred write, on which an update is one of the table.
use peerbit.Base.Keys.{Distinct, keys-put-present, contains_of_get, discard-absent}
use peerbit.Base.Table.{Table, keys, get, has, put, delete, contains, discard}
use peerbit.Base.{
  ℕ, ◌-◌, ◌≡◌, ◌≢◌, inl, inr, refl, sym, ap, ◌∙◌, Bool, true, false, ◌&&◌, none, some, List, [],
  ◌∷◌, ◌==◌, if◌then◌else◌, if_pos, if_neg, length, arith, Bool-cases, Option-cases,
}
use peerbit.EntryIndex.{
  Entry, Shallow, EntryCache, EntryIndex, flush_one, flush_each, flush_keys, flush_pending,
  get_shallow, count_next, count_has_next, write_back, mark_not_head, mark_head, mark_each,
  update_next_heads, shadowed_gids, write_entry,
}
use peerbit.EntryIndex.Heads.{lower_one, lower, raise_one, raise}

module _ {K : Type 0} (dec : Discrete K) where
  keys-remark :
      (k : K) (e : Shallow K) (head : Bool) (m : Table K (Shallow K))
      → get dec k m ≡ some e
      → keys (put dec k (record e { head = head }) m) ≡ keys m
  keys-remark k e head m h =
      keys-put-present dec k (record e { head = head }) m (contains_of_get dec k e m h)

  keys-lower_one : (k : K) (m : Table K (Shallow K)) → keys (lower_one dec k m) ≡ keys m
  unfolding lower_one
  keys-lower_one k m = elim (Option-cases (get dec k m)) [
    | inl e ↦ rw (e, lower_one) refl
    | inr (x, e) ↦ rw (e, lower_one) (keys-remark k x false m e)
  ]

  pub keys-lower : (l : List K) (m : Table K (Shallow K)) → keys (lower dec l m) ≡ keys m
  unfolding lower
  keys-lower [] m = refl
  keys-lower (k ∷ l) m = keys-lower l (lower_one dec k m) ∙ keys-lower_one k m

  keys-raise_one : (k : K) (m : Table K (Shallow K)) → keys (raise_one dec k m) ≡ keys m
  unfolding raise_one
  keys-raise_one k m = elim (Option-cases (get dec k m)) [
    | inl e ↦ rw (e, raise_one) refl
    | inr (x, e) ↦ elim (Bool-cases (count_next dec k none m == 0)) [
      | inl z ↦ rw (e, raise_one) (rw z (keys-remark k x true m e))
      | inr z ↦ rw (e, raise_one) (rw z refl)
    ]
  ]

  pub keys-raise : (l : List K) (m : Table K (Shallow K)) → keys (raise dec l m) ≡ keys m
  unfolding raise
  keys-raise [] m = refl
  keys-raise (k ∷ l) m = keys-raise l (raise_one dec k m) ∙ keys-raise_one k m

  pub keys-delete :
      (k : K) (m : Table K (Shallow K)) → keys (delete dec k m) ≡ discard dec k (keys m)
  unfolding delete discard
  keys-delete k [] = refl
  keys-delete k ((j, e) ∷ m) = elim (dec j k) [
    | yes p ↦ ap keys (if_pos (dec j k) p _ _) ∙ keys-delete k m ∙ sym (if_pos (dec j k) p _ _)
    | no p ↦
        ap keys (if_neg (dec j k) p _ _)
        ∙ ap (◌∷◌ j) (keys-delete k m)
        ∙ sym (if_neg (dec j k) p _ _)
  ]

  positive : (k : K) (l : List K) → contains dec k l ≡ true → length l ≢ 0
  unfolding contains
  positive k [] h e = cc h
  positive k (j ∷ l) h e = omega arith

  pub length-discard :
      (k : K) (l : List K)
      → Distinct dec l
      → contains dec k l ≡ true
      → length (discard dec k l) ≡ length l - 1
  unfolding discard contains
  length-discard k [] d h = cc
  length-discard k (j ∷ l) (once, d) h = elim (dec j k) [
    | yes p ↦
        rw (if_pos _ p, discard-absent dec k l (ap (λ (i : K). contains dec i l) (sym p) ∙ once))
          (omega arith)
    | no p ↦
        let there : contains dec k l ≡ true = ground arith in
        rw (if_neg _ p)
          (let some_left = positive k l there in let ih = length-discard k l d there in omega arith)
  ]

module _ {K : Type 0} (dec : Discrete K) (cached : EntryCache K) where
  open cached use {Store, read}

  -- No write is deferred.
  abbrev pub settled : Table K (Shallow K) → Bool → ℕ → Store → List K → EntryIndex dec cached
  settled m t n c b = record {
    index = m;
    pending = [];
    timer = t;
    length = n;
    cache = c;
    blocks = b;
  }

  pub get_shallow-settled :
      (k : K) (m : Table K (Shallow K)) (t : Bool) (n : ℕ) (c : Store) (b : List K)
      → get_shallow dec cached k (settled m t n c b) ≡ get dec k m
  unfolding get_shallow get
  get_shallow-settled k m t n c b = refl

  pub none_pending : (k : K) → has {V = Shallow K} dec k [] ≡ false
  unfolding has
  none_pending k = refl

  mark_not_head-settled :
      (k : K) (m : Table K (Shallow K)) (t : Bool) (n : ℕ) (c : Store) (b : List K)
      → mark_not_head dec cached k (settled m t n c b) ≡ settled (lower_one dec k m) t n c b
  unfolding mark_not_head write_back lower_one
  mark_not_head-settled k m t n c b = elim (Option-cases (get dec k m)) [
    | inl e ↦ rw (get_shallow-settled k m t n c b ∙ e, e, mark_not_head, lower_one) refl
    | inr (x, e) ↦
        rw (get_shallow-settled k m t n c b ∙ e, e, none_pending k, mark_not_head, lower_one) refl
  ]

  flush_pending-settled :
      (m : Table K (Shallow K)) (t : Bool) (n : ℕ) (c : Store) (b : List K)
      → flush_pending dec cached (settled m t n c b) ≡ settled m t n c b
  unfolding flush_pending flush_keys
  flush_pending-settled m t n c b = refl

  mark_head-settled :
      (k : K) (m : Table K (Shallow K)) (t : Bool) (n : ℕ) (c : Store) (b : List K)
      → mark_head dec cached k (settled m t n c b) ≡ settled (raise_one dec k m) t n c b
  unfolding mark_head write_back raise_one count_has_next flush_pending flush_keys
  mark_head-settled k m t n c b = elim (Option-cases (get dec k m)) [
    | inl e ↦ rw (get_shallow-settled k m t n c b ∙ e, e, mark_head, raise_one) refl
    | inr (x, e) ↦ elim (Bool-cases (count_next dec k none m == 0)) [
      | inl z ↦
          rw (get_shallow-settled k m t n c b ∙ e, e, none_pending k, mark_head, raise_one)
            (rw z refl)
      | inr z ↦
          rw (get_shallow-settled k m t n c b ∙ e, e, none_pending k, mark_head, raise_one)
            (rw z refl)
    ]
  ]

  pub mark_each-raise :
      (l : List K) (m : Table K (Shallow K)) (t : Bool) (n : ℕ) (c : Store) (b : List K)
      → mark_each dec cached true l (settled m t n c b) ≡ settled (raise dec l m) t n c b
  unfolding mark_each raise
  mark_each-raise [] m t n c b = refl
  mark_each-raise (k ∷ l) m t n c b =
      ap (mark_each dec cached true l) (mark_head-settled k m t n c b)
      ∙ mark_each-raise l (raise_one dec k m) t n c b

  pub mark_each-lower :
      (l : List K) (m : Table K (Shallow K)) (t : Bool) (n : ℕ) (c : Store) (b : List K)
      → mark_each dec cached false l (settled m t n c b) ≡ settled (lower dec l m) t n c b
  unfolding mark_each lower
  mark_each-lower [] m t n c b = refl
  mark_each-lower (k ∷ l) m t n c b =
      ap (mark_each dec cached false l) (mark_not_head-settled k m t n c b)
      ∙ mark_each-lower l (lower_one dec k m) t n c b

  flush_each-settled :
      (l : List K) (m : Table K (Shallow K)) (t : Bool) (n : ℕ) (c : Store) (b : List K)
      → flush_each dec cached l (settled m t n c b) ≡ settled m t n c b
  unfolding flush_each flush_one get
  flush_each-settled [] m t n c b = refl
  flush_each-settled (k ∷ l) m t n c b = flush_each-settled l m t n c b

  pub flush_keys-settled :
      (l : List K) (m : Table K (Shallow K)) (t : Bool) (n : ℕ) (c : Store) (b : List K)
      → (t' : Bool) × (flush_keys dec cached l (settled m t n c b) ≡ settled m t' n c b)
  unfolding flush_keys
  flush_keys-settled [] m t n c b = (t, refl)
  flush_keys-settled (k ∷ l) m t n c b =
      (false, rw (flush_each-settled (k ∷ l) m t n c b, flush_keys) refl)

  pub update-lower :
      (x : Entry K) (m : Table K (Shallow K)) (t : Bool) (n : ℕ) (c : Store) (b : List K)
      → update_next_heads dec cached x false (settled m t n c b)
        ≡ settled (if x.cut then m else lower dec x.next m) t n c b
  unfolding update_next_heads
  update-lower x m t n c b = elim (Bool-cases x.cut) [
    | inl e ↦ rw (e, update_next_heads) refl
    | inr e ↦ rw (e, update_next_heads) (mark_each-lower x.next m t n c b)
  ]

  pub shadowed_gids-settled :
      (x : Entry K) (watched : Bool) (m : Table K (Shallow K)) (t : Bool) (n : ℕ) (c : Store)
      (b : List K)
      → (shadowed_gids dec cached x watched (settled m t n c b)).0 ≡ settled m t n c b
  unfolding shadowed_gids flush_pending flush_keys
  shadowed_gids-settled x watched m t n c b =
      go (watched && elim x.next [ [] ↦ false | k ∷ l ↦ true ]) refl
    where
      go :
          (w : Bool)
          → (watched && elim x.next [ [] ↦ false | k ∷ l ↦ true ]) ≡ w
          → (shadowed_gids dec cached x watched (settled m t n c b)).0 ≡ settled m t n c b
      go true e = rw (e, shadowed_gids) refl
      go false e = rw (e, shadowed_gids) refl

  pub write_entry-settled :
      (x : Entry K) (is_head : Bool) (m : Table K (Shallow K)) (t : Bool) (n : ℕ) (c : Store)
      (b : List K)
      → (t' : Bool) × (write_entry dec cached x is_head false (settled m t n c b)
          ≡ settled (put dec x.hash (record { entry = x; head = is_head }) m) t' n c b)
  unfolding write_entry
  write_entry-settled x is_head m t n c b =
      let (t', e) = flush_keys-settled x.next m t n c b in (t', rw e refl)
