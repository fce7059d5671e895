-- ===== src/Roots.antt =====
-- packages/transport/pubsub/src/topic-root-control-plane.ts: which node is the root of a topic.
-- Topics and roots are lists of UTF-16 code units; a tracker and the resolver are functions of the topic, and their promises are awaited
-- at once. A tracker that fails is a tracker that answers with nothing.
mod Resolve
mod Tests
use peerbit.Base.Table.{Table, get, put, delete, contains, include}
use peerbit.Base.{
  ℕ, zero, suc, ◌+◌, ◌*◌, ◌-◌, ◌/◌, ◌%◌, not, ◌||◌, ◌^◌, Bool, true, false, Option, none, some,
  List, [], ◌∷◌, ltb, ◌==◌, if◌then◌else◌, ite, length, get_elem?, ℕ_discrete,
}

abbrev pub Text : Type 0
Text = List ℕ

-- `a < b` of strings, by their code units
unfoldable pub text_before : Text → Text → Bool
text_before [] [] = false
text_before [] (b ∷ l) = true
text_before (a ∷ k) [] = false
text_before (a ∷ k) (b ∷ l) = if a == b then text_before k l else ltb a b

-- The root where it is not the empty string, which counts as none.
unfoldable pub present : Option Text → Option Text
present none = none
present (some []) = none
present (some (c ∷ l)) = some (c ∷ l)

-- `a ^ b` on the low bits, of which there are `bits`
unfoldable pub xor_bits : ℕ → ℕ → ℕ → ℕ
xor_bits zero a b = 0
xor_bits (suc bits) a b = (a % 2 + b % 2) % 2 + 2 * xor_bits bits (a / 2) (b / 2)

-- The nearest multiple of `step`, an even one of two that are as near
unfoldable pub round_even : ℕ → ℕ → ℕ
round_even step p =
    let down = p / step in
    let left = p % step in
    if ltb (2 * left) step
    then down * step
    else if ltb step (2 * left) || not (down % 2 == 0)
    then (down + 1) * step
    else down * step

-- A product below 2^56 as a number of JavaScript, which has 53 bits
unfoldable pub to_double : ℕ → ℕ
unfolding round_even
to_double p =
    if ltb p (2 ^ 53)
    then p
    else if ltb p (2 ^ 54)
    then round_even 2 p
    else if ltb p (2 ^ 55)
    then round_even 4 p
    else round_even 8 p

-- One round of `topicHash32`: `^` gives a signed number of 32 bits, and the product is rounded.
unfoldable pub hash_round : ℕ → ℕ → ℕ
unfolding xor_bits to_double
hash_round hash c =
    let x = xor_bits 32 hash c in
    if ltb x (2 ^ 31)
    then to_double (x * 16777619) % 2 ^ 32
    else (2 ^ 32 - to_double ((2 ^ 32 - x) * 16777619) % 2 ^ 32) % 2 ^ 32

unfoldable pub hash_from : ℕ → Text → ℕ
hash_from hash [] = hash
hash_from hash (c ∷ l) = hash_from (hash_round hash c) l

-- `topicHash32`
unfoldable pub topic_hash : Text → ℕ
topic_hash topic = hash_from 2166136261 topic % 2 ^ 32

-- `TopicRootDirectory`
pub record Directory : Type 0 where
  pub explicit_roots : Table Text Text
  pub default_candidates : List Text
  pub resolver : Option (Text → Option Text)

-- `TopicRootControlPlane`
pub record ControlPlane : Type 0 where
  pub directory : Directory
  pub trackers : List (Text → Option Text)

unfoldable pub insert_text : Text → List Text → List Text
insert_text t [] = t ∷ []
insert_text t (u ∷ l) = if text_before u t then u ∷ insert_text t l else t ∷ u ∷ l

unfoldable pub sort_texts : List Text → List Text
sort_texts [] = []
sort_texts (t ∷ l) = insert_text t (sort_texts l)

module _ (dec : Discrete Text) where
  -- The set of the candidates that are not empty
  unfoldable pub unique_texts : List Text → List Text → List Text
  unique_texts seen [] = seen
  unique_texts seen ([] ∷ l) = unique_texts seen l
  unique_texts seen ((c ∷ t) ∷ l) = unique_texts (include dec (c ∷ t) seen) l

  -- `setRoot`
  unfoldable pub set_root : Text → Text → Directory → Directory
  set_root topic root d = record d { explicit_roots = put dec topic root d.explicit_roots }

  -- `deleteRoot`
  unfoldable pub delete_root : Text → Directory → Directory
  delete_root topic d = record d { explicit_roots = delete dec topic d.explicit_roots }

  -- `getRoot`
  unfoldable pub get_root : Text → Directory → Option Text
  get_root topic d = get dec topic d.explicit_roots

  -- `setDefaultCandidates`
  unfoldable pub set_default_candidates : List Text → Directory → Directory
  set_default_candidates candidates d = record d {
    default_candidates = sort_texts (unique_texts [] candidates);
  }

  -- `resolveLocal`
  unfoldable pub resolve_local : Text → Directory → Option Text
  resolve_local topic d = elim (present (get_root topic d)) [
    | some root ↦ some root
    | none ↦ elim d.resolver [ none ↦ none | some resolve ↦ resolve topic ]
  ]

-- The trackers in turn, up to the first that answers.
unfoldable pub ask_trackers : Text → List (Text → Option Text) → Option Text
ask_trackers topic [] = none
ask_trackers topic (t ∷ l) = elim (present (t topic)) [
  | some root ↦ some root
  | none ↦ ask_trackers topic l
]

module _ (dec : Discrete Text) where
  -- `resolveDeterministicCandidate`
  unfoldable pub deterministic_candidate : Text → Directory → Option Text
  deterministic_candidate topic d = elim d.default_candidates as (λ _. Option Text) [
    | [] ↦ none
    | c ∷ l ↦ get_elem? (c ∷ l) (topic_hash topic % length (c ∷ l))
  ]

  -- `resolveRoot`
  unfoldable pub resolve_root : Text → Directory → Option Text
  resolve_root topic d = elim (present (resolve_local dec topic d)) [
    | some root ↦ some root
    | none ↦ deterministic_candidate topic d
  ]

  -- `resolveWithTrackers`
  unfoldable pub resolve_with_trackers : Text → Bool → ControlPlane → Option Text
  resolve_with_trackers topic fallback p = elim (present (resolve_local dec topic p.directory)) [
    | some root ↦ some root
    | none ↦ elim (ask_trackers topic p.trackers) [
      | some root ↦ some root
      | none ↦ if fallback then deterministic_candidate topic p.directory else none
    ]
  ]

-- The constructor of the directory
unfoldable pub create_directory :
    Discrete Text → Option (List Text) → Option (Text → Option Text) → Directory
create_directory dec candidates resolver =
    let d : Directory = record {
      explicit_roots = [];
      default_candidates = [];
      resolver = resolver;
    } in
    elim candidates [ none ↦ d | some l ↦ set_default_candidates dec l d ]

-- `setResolver`
unfoldable pub set_resolver : Option (Text → Option Text) → Directory → Directory
set_resolver resolver d = record d { resolver = resolver }

-- The constructor of the control plane, with a directory that is given or made
unfoldable pub create_plane :
    Discrete Text
    → Option Directory
    → Option (List Text)
    → Option (Text → Option Text)
    → List (Text → Option Text)
    → ControlPlane
create_plane dec given candidates resolver trackers = record {
  directory = elim given [ none ↦ create_directory dec candidates resolver | some d ↦ d ];
  trackers = trackers;
}

-- The operations of the control plane that pass on to its directory: `setTopicRoot`,
-- `clearTopicRoot`, `setTopicRootCandidates` and `setTopicRootResolver`
unfoldable pub change_directory : (Directory → Directory) → ControlPlane → ControlPlane
change_directory f p = record p { directory = f p.directory }

-- `setTopicRootTrackers`
unfoldable pub set_trackers : List (Text → Option Text) → ControlPlane → ControlPlane
set_trackers trackers p = record p { trackers = trackers }

-- `resolveTrackedTopicRoot`
unfoldable pub resolve_tracked : Discrete Text → Text → ControlPlane → Option Text
resolve_tracked dec topic p = resolve_with_trackers dec topic false p

-- `resolveTopicRoot`
unfoldable pub resolve_topic_root : Discrete Text → Text → ControlPlane → Option Text
resolve_topic_root dec topic p = resolve_with_trackers dec topic true p
