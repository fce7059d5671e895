-- ===== src/EntryIndex/Delete.antt =====
-- `delete` keeps the index of entries sound.
use peerbit.Base.Keys.{
  Distinct, Distinct-discard, contains_of_get, discard-absent, has-keys, get-absent,
}
use peerbit.Base.Table.{Table, keys, get, delete, contains, discard, contains-discard, get-delete}
use peerbit.Base.Values.{AllValues-get, AllValues-delete}
use peerbit.Base.{
  ℕ, ◌-◌, ◌≡◌, inl, inr, refl, sym, ap, subst, ◌∙◌, Bool, true, false, Option, none, some, List,
  if_pos, if_neg, length, arith, Option-cases,
}
use peerbit.EntryIndex.{
  Shallow, EntryCache, EntryIndex, update_next_heads, after_delete, delete_known, delete_entry,
}
use peerbit.EntryIndex.Heads.{
  HeadsMatch, NoCuts, raise, raise-From, referenced-raise, referenced-delete,
}
use peerbit.EntryIndex.Put.{IsCached, IsSound, absent_key}
use peerbit.EntryIndex.Settled.{
  settled, none_pending, get_shallow-settled, keys-raise, keys-delete, length-discard,
  mark_each-raise,
}

module _ {K : Type 0} (dec : Discrete K) (cached : EntryCache K) where
  open cached use {Store, read, del, read_del}

  delete-HeadsMatch :
      (k : K) (x : Shallow K) (m : Table K (Shallow K))
      → NoCuts dec m
      → Distinct dec (keys m)
      → get dec k m ≡ some x
      → HeadsMatch dec m
      → HeadsMatch dec (raise dec x.entry.next (delete dec k m))
  delete-HeadsMatch k x m cuts d found match j e' h =
      let less = AllValues-delete dec (λ (y : Shallow K). y.entry.cut ≡ false) k m cuts in
      let uncut = AllValues-get dec (λ (y : Shallow K). y.entry.cut ≡ false) k x m cuts found in
      let (e, at, mark) = raise-From dec j x.entry.next (delete dec k m) e' less h in
      let same = referenced-raise dec j x.entry.next (delete dec k m) less in
      let refs = referenced-delete dec j k x m d found in
      let at' = get-delete dec k j m in
      elim (dec k j) [
        | yes here ↦ absurd (ground arith)
        | no other ↦
            let old : get dec j m ≡ some e = ground arith in
            let head_old = match j e old in ground arith
      ]

  delete-IsCached :
      (k : K) (x : Shallow K) (m : Table K (Shallow K)) (c : Store)
      → IsCached dec cached c m
      → IsCached dec cached (del k c) (raise dec x.entry.next (delete dec k m))
  delete-IsCached k x m c sub j r =
      let (other, held) = read_del k j true c r in
      let there = sub j held in
      ap (contains dec j) (keys-raise dec x.entry.next (delete dec k m) ∙ keys-delete dec k m)
      ∙ contains-discard dec k j (keys m)
      ∙ if_neg (dec k j) other _ _
      ∙ there

  del-IsCached :
      (k : K) (m : Table K (Shallow K)) (c : Store)
      → IsCached dec cached c m
      → IsCached dec cached (del k c) m
  del-IsCached k m c sub j r = sub j ((read_del k j true c r).1)

  after_delete-settled :
      (x : Shallow K) (m : Table K (Shallow K)) (t : Bool) (n : ℕ) (c : Store) (b : List K)
      → x.entry.cut ≡ false
      → after_delete dec cached x (settled dec cached m t n c b)
        ≡ settled dec cached (raise dec x.entry.next m) t (n - 1) c b
  unfolding after_delete update_next_heads
  after_delete-settled x m t n c b uncut =
      rw (uncut, after_delete, update_next_heads)
        (mark_each-raise dec cached x.entry.next m t (n - 1) c b)

  delete_known-settled :
      (k : K) (x : Shallow K) (m : Table K (Shallow K)) (t : Bool) (n : ℕ) (c : Store) (b : List K)
      → x.entry.cut ≡ false
      → get dec k m ≡ some x
      → delete_known dec cached k x (settled dec cached m t n c b) ≡ (
        settled dec cached (raise dec x.entry.next (delete dec k m)) t (n - 1) c (discard dec k b),
        some x,
      )
  unfolding delete_known
  delete_known-settled k x m t n c b uncut found =
      let p = none_pending dec cached k in
      let q = has-keys dec k m ∙ contains_of_get dec k x m found in
      let e = after_delete-settled x (delete dec k m) t n c (discard dec k b) uncut in
      rw (p, q, delete_known) (ap (λ (s : EntryIndex dec cached). (s, some x)) e)

  delete_entry-settled :
      (k : K) (m : Table K (Shallow K)) (t : Bool) (n : ℕ) (c : Store) (b : List K)
      → delete_entry dec cached k (settled dec cached m t n c b)
        ≡ elim (get dec k m) as (λ _. EntryIndex dec cached × Option (Shallow K)) [
          | none ↦ (settled dec cached m t n (del k c) b, none)
          | some x ↦ delete_known dec cached k x (settled dec cached m t n (del k c) b)
        ]
  unfolding delete_entry
  delete_entry-settled k m t n c b =
      let e = get_shallow-settled dec cached k m t n (del k c) b in rw (e, delete_entry) refl

  -- What a deletion of hash `k` gives, of a sound index
  abbrev pub Deletes :
      K → EntryIndex dec cached → EntryIndex dec cached × Option (Shallow K) → Type 0
  Deletes k s r =
      IsSound dec cached r.0
      × (r.1 ≡ get dec k s.index)
      × (keys (r.0).index ≡ discard dec k (keys s.index))
      × (get dec k (r.0).index ≡ none)

  deleted-Deletes :
      (k : K) (x : Shallow K) (m : Table K (Shallow K)) (t : Bool) (n : ℕ) (c : Store) (b : List K)
      → NoCuts dec m
      → IsSound dec cached (settled dec cached m t n c b)
      → get dec k m ≡ some x
      → Deletes k (settled dec cached m t n c b) (
        settled dec cached
            (raise dec x.entry.next (delete dec k m))
            t
            (n - 1)
            (del k c)
            (discard dec k b),
        some x,
      )
  deleted-Deletes k x m t n c b cuts (_, d, len, match, sub) found =
      let m' = raise dec x.entry.next (delete dec k m) in
      let ks = keys-raise dec x.entry.next (delete dec k m) ∙ keys-delete dec k m in
      let there = contains_of_get dec k x m found in
      let shorter = ap length ks ∙ length-discard dec k (keys m) d there in
      let gone =
        ap (contains dec k) ks ∙ contains-discard dec k k (keys m) ∙ if_pos (dec k k) refl _ _ in
      (
        (
          refl,
          subst (Distinct dec) (sym ks) (Distinct-discard dec k (keys m) d),
          ap (λ (i : ℕ). i - 1) len ∙ sym shorter,
          delete-HeadsMatch k x m cuts d found match,
          delete-IsCached k x m c sub,
        ),
        sym found,
        ks,
        get-absent dec k m' gone,
      )

  Deletes-settled :
      (k : K) (m : Table K (Shallow K)) (t : Bool) (n : ℕ) (c : Store) (b : List K)
      → NoCuts dec m
      → IsSound dec cached (settled dec cached m t n c b)
      → Deletes k
          (settled dec cached m t n c b)
          (delete_entry dec cached k (settled dec cached m t n c b))
  Deletes-settled k m t n c b cuts sound = elim (Option-cases (get dec k m)) [
    | inl e ↦ rw (delete_entry-settled k m t n c b) (
        rw e (
          (refl, sound.1, sound.2, sound.3, del-IsCached k m c sound.4),
          refl,
          sym (discard-absent dec k (keys m) (absent_key dec cached k m e)),
          e,
        ))
    | inr (x, e) ↦
        let uncut = AllValues-get dec (λ (y : Shallow K). y.entry.cut ≡ false) k x m cuts e in
        subst (Deletes k (settled dec cached m t n c b))
          (sym (
            delete_entry-settled k m t n c b
            ∙ rw e refl
            ∙ delete_known-settled k x m t n (del k c) b uncut e))
          (deleted-Deletes k x m t n c b cuts sound e)
  ]

  -- `delete` of a hash from a sound index without cuts leaves it sound, so that the heads are the entries
  -- that no entry refers to any more; it returns the entry that was there, if any, and takes that hash
  -- and no other off the index.
  pub delete_entry-IsSound :
      (k : K) (s : EntryIndex dec cached)
      → NoCuts dec s.index
      → IsSound dec cached s
      → Deletes k s (delete_entry dec cached k s)
  delete_entry-IsSound k s cuts sound =
      let same : settled dec cached s.index s.timer s.length s.cache s.blocks ≡ s =
        ap (λ (p : Table K (Shallow K)). record s { pending = p }) (sym sound.0) in
      subst (λ (r : EntryIndex dec cached). Deletes k r (delete_entry dec cached k r)) same
        (Deletes-settled k s.index s.timer s.length s.cache s.blocks cuts
          (refl, sound.1, sound.2, sound.3, sound.4))
