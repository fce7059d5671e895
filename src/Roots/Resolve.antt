-- ===== src/Roots/Resolve.antt =====
-- The root of a topic is always found, and an explicit root is the one.
use native.Mathlib.Nat.{mod-lt}
use peerbit.Base.Table.{get-put}
use peerbit.Base.{
  ℕ, ◌%◌, ◌≡◌, ◌⊎◌, inl, inr, refl, ap, ◌∙◌, Bool, true, Option, none, some, List, [], ◌∷◌, if_pos,
  length, get_elem?, get_elem?_of_lt, arith, Option-cases,
}
use peerbit.Roots.{
  Text, present, topic_hash, Directory, ControlPlane, set_root, get_root, resolve_local,
  ask_trackers, deterministic_candidate, resolve_root, resolve_with_trackers,
}

module _ (dec : Discrete Text) where
  candidate_lem :
      (topic c : Text) (l : List Text) (d : Directory)
      → d.default_candidates ≡ c ∷ l
      → (root : Text) × (deterministic_candidate dec topic d ≡ some root)
        × (get_elem? d.default_candidates (topic_hash topic % length (c ∷ l)) ≡ some root)
  unfolding deterministic_candidate
  candidate_lem topic c l d e =
      let (root, at) =
        get_elem?_of_lt (c ∷ l) (topic_hash topic % length (c ∷ l))
          (mod-lt (topic_hash topic) (omega arith)) in
      (
        root,
        ap
              (λ (k : List Text). elim k as (λ _. Option Text) [
                | [] ↦ none
                | b ∷ m ↦ get_elem? (b ∷ m) (topic_hash topic % length (b ∷ m))
              ])
              e
            ∙ at,
        ap (λ (k : List Text). get_elem? k (topic_hash topic % length (c ∷ l))) e ∙ at,
      )

  -- Where there are default candidates, every topic has a root, whatever the explicit roots, the
  -- resolver and the trackers answer; where none of these gives one, it is the candidate at the hash of
  -- the topic modulo the number of candidates.
  pub resolve_with_trackers_total :
      (topic c : Text) (l : List Text) (p : ControlPlane)
      → p.directory.default_candidates ≡ c ∷ l
      → (root : Text) × (resolve_with_trackers dec topic true p ≡ some root)
        × ((present (resolve_local dec topic p.directory) ≡ some root)
            ⊎ ((ask_trackers topic p.trackers ≡ some root)
                ⊎ (get_elem? p.directory.default_candidates (topic_hash topic % length (c ∷ l))
                    ≡ some root)))
  unfolding resolve_with_trackers
  resolve_with_trackers_total topic c l p e =
      elim (Option-cases (present (resolve_local dec topic p.directory))) [
        | inr (root, local) ↦ (root, rw (local, resolve_with_trackers) refl, inl local)
        | inl no_local ↦ elim (Option-cases (ask_trackers topic p.trackers)) [
          | inr (root, tracked) ↦
              (root, rw (no_local, tracked, resolve_with_trackers) refl, inr (inl tracked))
          | inl no_tracker ↦
              let (root, found, at) = candidate_lem topic c l p.directory e in
              (root, rw (no_local, no_tracker, resolve_with_trackers) found, inr (inr at))
        ]
      ]

  get_root-set_root :
      (topic root : Text) (d : Directory)
      → get_root dec topic (set_root dec topic root d) ≡ some root
  unfolding set_root get_root
  get_root-set_root topic root d =
      get-put dec topic topic root d.explicit_roots ∙ if_pos (dec topic topic) refl _ _

  local_lem :
      (topic : Text) (b : ℕ) (t : Text) (d : Directory)
      → present (resolve_local dec topic (set_root dec topic (b ∷ t) d)) ≡ some (b ∷ t)
  unfolding resolve_local present
  local_lem topic b t d = rw (get_root-set_root topic (b ∷ t) d, resolve_local) refl

  -- After `setRoot` with a root that is not empty, the topic resolves to that root, by all of
  -- `resolveLocal`, `resolveRoot` and `resolveTopicRoot`, with or without the fallback.
  pub set_root-resolves :
      (topic : Text) (b : ℕ) (t : Text) (fallback : Bool) (p : ControlPlane)
      → (present (resolve_local dec topic (set_root dec topic (b ∷ t) p.directory)) ≡ some (b ∷ t))
        × (resolve_root dec topic (set_root dec topic (b ∷ t) p.directory) ≡ some (b ∷ t))
        × (resolve_with_trackers dec topic fallback
              (record p { directory = set_root dec topic (b ∷ t) p.directory })
            ≡ some (b ∷ t))
  unfolding resolve_root resolve_with_trackers
  set_root-resolves topic b t fallback p =
      let e = local_lem topic b t p.directory in
      (e, rw (e, resolve_root) refl, rw (e, resolve_with_trackers) refl)
