-- ===== src/Cache/Shape.antt =====
-- The shape that every operation of the cache keeps: the list holds the keys of the map, in the same
-- order and once each, and only keys of the map are marked as deleted.
use peerbit.Base.Keys.{
  Distinct, contains-snoc, Distinct-snoc, has-keys, put-absent, keys-put-present, keys-snoc,
  keys-delete-head, contains_of_get,
}
use peerbit.Base.Table.{keys, get, has, contains, contains-discard, contains-include}
use peerbit.Base.{
  ℕ, ◌≡◌, refl, true, false, Option, List, [], ◌∷◌, ◌++◌, arith, inl, inr, Bool-cases, Option-cases,
  ap, sym, subst, ◌∙◌,
}
use peerbit.Cache.{CacheData, Cache, clear, drop_head, del, insert}

module _ {K V : Type 0} (dec : Discrete K) where
  pub record HasShape (c : Cache K V) : Type 0 where
    pub listed : keys c.entries ≡ c.list
    pub distinct : Distinct dec c.list
    pub marked : (q : K) → contains dec q c.deleted ≡ true → contains dec q c.list ≡ true

  pub clear-HasShape : (c : Cache K V) → HasShape (clear c)
  unfolding clear contains
  clear-HasShape c = record { listed = refl; distinct = tt; marked = λ q h. h }

  pub drop_head-HasShape :
      (k : K) (v : CacheData V) (rest : List K) (c : Cache K V)
      → c.list ≡ k ∷ rest
      → HasShape c
      → HasShape (drop_head dec k v rest c)
  unfolding drop_head contains
  drop_head-HasShape k v rest c e h = record {
    listed = keys-delete-head dec k rest c.entries (ground arith) (ground arith);
    distinct = ground arith;
    marked = λ q p. ground (arith, contains-discard dec k q c.deleted, h.marked q);
  }

  pub del-HasShape : (k : K) (c : Cache K V) → HasShape c → HasShape (del dec k c).0
  unfolding del
  del-HasShape k c h = elim (Option-cases (get dec k c.entries)) [
    | inl absent ↦ rw (absent, del) h
    | inr (v, found) ↦ elim (Bool-cases (contains dec k c.deleted)) [
      | inl old ↦ rw (found, old, del) h
      | inr new ↦
          rw (found, new, del)
            (record {
              listed = h.listed;
              distinct = h.distinct;
              marked = λ q p. ground (
                arith,
                contains-include dec k q c.deleted,
                h.marked q,
                h.listed,
                contains_of_get dec k v c.entries found,
              );
            })
    ]
  ]

  pub insert-HasShape :
      (time : ℕ) (k : K) (v : Option V) (size : ℕ) (c : Cache K V)
      → HasShape c
      → HasShape (insert dec time k v size c)
  unfolding insert
  insert-HasShape time k v size c h =
      let entry : CacheData V = record { value = v; time = time; size = size } in
      elim (Bool-cases (has dec k c.entries)) [
        | inl old ↦
            let present = sym (has-keys dec k c.entries) ∙ old in
            rw old (record {
              listed = keys-put-present dec k entry c.entries present ∙ h.listed;
              distinct = h.distinct;
              marked = λ q p. ground (arith, contains-discard dec k q c.deleted, h.marked q);
            })
        | inr new ↦
            let absent = sym (has-keys dec k c.entries) ∙ new in
            let not_listed = subst (λ l. contains dec k l ≡ false) h.listed absent in
            rw new (record {
              listed =
                  rw (put-absent dec k entry c.entries absent)
                    (keys-snoc dec k entry c.entries ∙ ap (λ l. l ++ k ∷ []) h.listed);
              distinct = Distinct-snoc dec k c.list not_listed h.distinct;
              marked = λ q p. ground (
                arith,
                contains-discard dec k q c.deleted,
                h.marked q,
                contains-snoc dec k q c.list,
              );
            })
      ]
