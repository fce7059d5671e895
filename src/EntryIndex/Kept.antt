-- ===== src/EntryIndex/Kept.antt =====
-- A cache of entries that drops none, as a table.
use peerbit.Base.Table.{Table, get, put, delete, get-put, get-delete}
use peerbit.Base.{◌≡◌, ◌≢◌, ◌⊎◌, inl, inr, refl, ◌∙◌, Bool, none, some, [], if_pos, arith}
use peerbit.EntryIndex.{EntryCache}

module _ {K : Type 0} (dec : Discrete K) where
  pub read_put :
      (k j : K) (v b : Bool) (c : Table K Bool)
      → get dec j (put dec k v c) ≡ some b
      → ((k ≡ j) × (v ≡ b)) ⊎ (get dec j c ≡ some b)
  read_put k j v b c h =
      let e = get-put dec k j v c in
      elim (dec k j) [ yes same ↦ inl (same, ground arith) | no other ↦ inr (ground arith) ]

  pub read_delete :
      (k j : K) (b : Bool) (c : Table K Bool)
      → get dec j (delete dec k c) ≡ some b
      → (k ≢ j) × (get dec j c ≡ some b)
  read_delete k j b c h =
      let e = get-delete dec k j c in
      elim (dec k j) [ yes same ↦ absurd (ground arith) | no other ↦ (other, ground arith) ]

  pub read_nothing : (k : K) → get {V = Bool} dec k [] ≡ none
  unfolding get
  read_nothing k = refl

  abbrev pub table_cache : EntryCache K
  table_cache = record {
    Store = Table K Bool;
    empty = [];
    read = get dec;
    add = put dec;
    del = delete dec;
    read_add = read_put;
    read_added = λ k v c. get-put dec k k v c ∙ if_pos (dec k k) refl _ _;
    read_del = read_delete;
    read_empty = read_nothing;
  }
