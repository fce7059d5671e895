-- ===== src/Roots/Tests.antt =====
-- Roots of concrete topics, and the theorems at inputs that meet their hypotheses.
use mathlib.Core.List.{List-discrete}
use peerbit.Base.{◌%◌, ◌≡◌, ◌⊎◌, refl, true, none, some, [], ◌∷◌, get_elem?, ℕ_discrete}
use peerbit.Roots.Resolve.{resolve_with_trackers_total}
use peerbit.Roots.{
  Text, text_before, present, xor_bits, to_double, topic_hash, ControlPlane, insert_text,
  sort_texts, resolve_local, ask_trackers, resolve_with_trackers,
}

abbrev texts : Discrete Text
texts = List-discrete ℕ_discrete

-- The exclusive or, and a product that a number of JavaScript does not hold exactly.
bits : (xor_bits 32 12 10 ≡ 6) × (to_double 9007199254740993 ≡ 9007199254740992)
unfolding xor_bits to_double
bits = (refl, refl)

sorted :
    sort_texts ((98 ∷ []) ∷ (97 ∷ 98 ∷ []) ∷ (97 ∷ []) ∷ [])
    ≡ (97 ∷ []) ∷ (97 ∷ 98 ∷ []) ∷ (98 ∷ []) ∷ []
unfolding sort_texts insert_text text_before
sorted = refl

abbrev plane : ControlPlane
plane = record {
  directory = record {
    explicit_roots = [];
    default_candidates = (97 ∷ []) ∷ (98 ∷ []) ∷ [];
    resolver = none;
  };
  trackers = (λ topic. none) ∷ [];
}

resolve_with_trackers_total_example :
    (root : Text) × (resolve_with_trackers texts (116 ∷ []) true plane ≡ some root)
    × ((present (resolve_local texts (116 ∷ []) plane.directory) ≡ some root)
        ⊎ ((ask_trackers (116 ∷ []) plane.trackers ≡ some root)
            ⊎ (get_elem? plane.directory.default_candidates (topic_hash (116 ∷ []) % 2)
                ≡ some root)))
resolve_with_trackers_total_example =
    resolve_with_trackers_total texts (116 ∷ []) (97 ∷ []) ((98 ∷ []) ∷ []) plane refl
