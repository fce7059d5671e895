-- ===== src/EntryIndex/Deferred.antt =====
-- Index writes that are deferred, and entries that are only looked up.
use peerbit.Base.Table.{Table, get, put, delete, get-put}
use peerbit.Base.{
  ℕ, ◌≡◌, refl, sym, ap, ◌∙◌, Bool, true, false, none, some, List, [], ◌∷◌, if_pos, if_neg, arith,
}
use peerbit.EntryIndex.Settled.{settled, get_shallow-settled}
use peerbit.EntryIndex.{
  Entry, Shallow, EntryCache, EntryIndex, holds, has_entry, get_shallow, flush_one, flush_each,
  flush_keys, flush_pending, register, shadowed_gids, write_entry, mark_each, update_next_heads,
  put_entry, resolve,
}

module _ {K : Type 0} (dec : Discrete K) (cached : EntryCache K) where
  open cached use {Store, read, add, read_added}

  -- An entry that refers to no other one
  abbrev pub first_entry : K → K → ℕ → Entry K
  first_entry hash gid size = record { hash = hash; gid = gid; next = []; cut = false; size = size }

  abbrev first_head : K → K → ℕ → Shallow K
  first_head hash gid size = record { entry = first_entry hash gid size; head = true }

  get_one : (k : K) (e : Shallow K) → get dec k ((k, e) ∷ []) ≡ some e
  unfolding get
  get_one k e = if_pos (dec k k) refl _ _

  delete_one : (k : K) (e : Shallow K) → delete dec k ((k, e) ∷ []) ≡ []
  unfolding delete
  delete_one k e = if_pos (dec k k) refl _ _

  -- A state with one deferred write
  abbrev waiting : K → Shallow K → Table K (Shallow K) → ℕ → Store → List K → EntryIndex dec cached
  waiting k e m n c b = record {
    index = m;
    pending = (k, e) ∷ [];
    timer = true;
    length = n;
    cache = c;
    blocks = b;
  }

  flush_one-waiting :
      (k : K) (e : Shallow K) (m : Table K (Shallow K)) (n : ℕ) (c : Store) (b : List K)
      → flush_one dec cached k (waiting k e m n c b) ≡ settled dec cached (put dec k e m) true n c b
  unfolding flush_one
  flush_one-waiting k e m n c b =
      rw (get_one k e, flush_one)
        (ap
          (λ (p : Table K (Shallow K)). record (settled dec cached (put dec k e m) true n c b) {
            pending = p;
          })
          (delete_one k e))

  flush-waiting :
      (k : K) (e : Shallow K) (m : Table K (Shallow K)) (n : ℕ) (c : Store) (b : List K)
      → flush_pending dec cached (waiting k e m n c b)
        ≡ settled dec cached (put dec k e m) false n c b
  unfolding flush_pending flush_keys flush_each
  flush-waiting k e m n c b =
      ap
        (λ (s : EntryIndex dec cached). record s {
          timer = elim s.pending [ [] ↦ false | x ∷ l ↦ true ];
        })
        (flush_one-waiting k e m n c b)

  put_entry-waiting :
      (hash gid : K) (size : ℕ) (unique watched : Bool) (s : EntryIndex dec cached)
      → s.pending ≡ []
      → (put_entry dec cached (first_entry hash gid size) unique true true watched s).0
        ≡ waiting hash
            (first_head hash gid size)
            s.index
            (register dec cached (first_entry hash gid size) unique s).length
            (add hash true s.cache)
            s.blocks
  unfolding put_entry write_entry shadowed_gids update_next_heads mark_each register put
  put_entry-waiting hash gid size unique true s e = rw e refl
  put_entry-waiting hash gid size unique false s e = rw e refl

  put_entry-direct :
      (hash gid : K) (size : ℕ) (unique watched : Bool) (s : EntryIndex dec cached)
      → s.pending ≡ []
      → (put_entry dec cached (first_entry hash gid size) unique true false watched s).0
        ≡ settled dec cached
            (put dec hash (first_head hash gid size) s.index)
            s.timer
            (register dec cached (first_entry hash gid size) unique s).length
            (add hash true s.cache)
            s.blocks
  unfolding put_entry write_entry shadowed_gids update_next_heads mark_each register flush_keys
  put_entry-direct hash gid size unique true s e = rw e refl
  put_entry-direct hash gid size unique false s e = rw e refl

  get_shallow-waiting :
      (k j : K) (e : Shallow K) (m : Table K (Shallow K)) (t : Bool) (n : ℕ) (c : Store)
      (b : List K)
      → get_shallow dec cached j (waiting k e m n c b)
        ≡ get_shallow dec cached j (settled dec cached (put dec k e m) t n c b)
  unfolding get_shallow get
  get_shallow-waiting k j e m t n c b =
      let right = get_shallow-settled dec cached j (put dec k e m) t n c b ∙ get-put dec k j e m in
      elim (dec k j) [
        | yes same ↦
            let left : get dec j ((k, e) ∷ []) ≡ some e = if_pos (dec k j) same _ _ in
            rw (left, get_shallow) (sym (right ∙ if_pos (dec k j) same _ _))
        | no other ↦
            let left : get dec j ((k, e) ∷ []) ≡ none = if_neg (dec k j) other _ _ in
            rw (left, get_shallow) (sym (right ∙ if_neg (dec k j) other _ _))
      ]

  -- A head that refers to no other entry, put with its index write deferred into a state with no
  -- deferred write: any entry that is looked up is the same as after a put that is not deferred, and
  -- once the writes are flushed the whole state is the same, with no flush left to do.
  pub put_entry-deferred :
      (hash gid : K) (size : ℕ) (unique watched : Bool) (s : EntryIndex dec cached)
      → s.pending ≡ []
      → ((j : K)
          → get_shallow dec cached j
              (put_entry dec cached (first_entry hash gid size) unique true true watched s).0
            ≡ get_shallow dec cached j
                (put_entry dec cached (first_entry hash gid size) unique true false watched s).0)
        × (flush_pending dec cached
              (put_entry dec cached (first_entry hash gid size) unique true true watched s).0
            ≡ record ((put_entry dec cached
                (first_entry hash gid size)
                unique
                true
                false
                watched
                s).0) { timer = false })
  put_entry-deferred hash gid size unique watched s none_left =
      let x = first_entry hash gid size in
      let n = (register dec cached x unique s).length in
      let c = add hash true s.cache in
      let later = put_entry-waiting hash gid size unique watched s none_left in
      let now = put_entry-direct hash gid size unique watched s none_left in
      (
        λ j.
            ap (get_shallow dec cached j) later
            ∙ get_shallow-waiting hash j (first_head hash gid size) s.index s.timer n c s.blocks
            ∙ sym (ap (get_shallow dec cached j) now),
        ap (flush_pending dec cached) later
            ∙ flush-waiting hash (first_head hash gid size) s.index n c s.blocks
            ∙ sym (ap (λ (r : EntryIndex dec cached). record r { timer = false }) now),
      )

  holds-added : (k : K) (c : Store) → holds dec cached k (add k true c) ≡ true
  unfolding holds
  holds-added k c = rw (read_added k true c, holds) refl

  has_entry-added :
      (k : K) (s : EntryIndex dec cached)
      → has_entry dec cached k (record s { cache = add k true s.cache }) ≡ true
  unfolding has_entry
  has_entry-added k s = let e = holds-added k s.cache in ground arith

  not_counted :
      (x : Entry K) (s : EntryIndex dec cached)
      → has_entry dec cached x.hash s ≡ true
      → (register dec cached x false s).length ≡ s.length
  unfolding register
  not_counted x s e = ground arith

  -- An entry that the index does not have, but that is resolved from the blocks, passes for one of the
  -- log: `has` answers true while `getShallow` finds nothing, and a put that is not told that it is
  -- unique does not count it.
  pub resolve-has_entry :
      (x : Entry K) (ignore_missing : Bool) (s : EntryIndex dec cached)
      → read x.hash s.cache ≡ none
      → get_shallow dec cached x.hash s ≡ none
      → (s' : EntryIndex dec cached) × (resolve dec cached x.hash true ignore_missing s
          ≡ some (s', true))
        × (has_entry dec cached x.hash s' ≡ true)
        × (get_shallow dec cached x.hash s' ≡ none)
        × ((register dec cached x false s').length ≡ s.length)
  unfolding resolve get_shallow
  resolve-has_entry x ignore_missing s cold absent =
      let s' : EntryIndex dec cached = record s { cache = add x.hash true s.cache } in
      let warm = has_entry-added x.hash s in
      (s', rw (cold, resolve) refl, warm, absent, not_counted x s' warm)
