-- ===== src/Ranges/Arc.antt =====
-- The arc that a new range covers.
use Prim.Native.String.{String}
use native.Mathlib.Nat.{mod-eq_of_lt, mod-eq-sub-mod, mod_self}
use peerbit.Base.{
  ℕ, ◌+◌, ◌-◌, ◌%◌, ◌≤◌, ◌<◌, ◌≡◌, ◌∙◌, refl, inl, inr, false, some, List, ltb, leb, ◌==◌, arith,
  if◌then◌else◌, Bool-cases,
}
use peerbit.Ranges.{Range, Intent, create, contains}
use peerbit.Ranges.Difference.{IsRegular}

-- The steps from `offset` up to `p` on a ring of `max` points.
abbrev pub steps_up : ℕ → ℕ → ℕ → ℕ
steps_up max offset p = if leb offset p then p - offset else p + max - offset

-- Where an arc of `factor` points ends, if it goes around the end of the ring.
wrapped_end :
    (max offset factor : ℕ)
    → offset < max
    → factor ≤ max
    → max < offset + factor
    → (if factor == max then offset else offset + factor) % max ≡ offset + factor - max
wrapped_end max offset factor lt le wraps = elim (Bool-cases (factor == max)) [
  | inl full ↦ rw full (mod-eq_of_lt {n = offset} lt ∙ ground arith)
  | inr part ↦ rw part (
      mod-eq-sub-mod {n = offset + factor} {m = max} (omega arith)
      ∙ mod-eq_of_lt {n = offset + factor - max} (omega arith))
]

-- A range created at an offset on the ring, with at most `max` points, is created without an
-- error, has the width that was asked for and is regular; it contains a point of the ring exactly
-- if that lies fewer than `factor` steps up from the offset, around the end of the ring.
pub create_arc :
    (max : ℕ) (id : List ℕ) (hash : String) (offset factor : ℕ) (mode : Intent) (timestamp : ℕ)
    (p : ℕ)
    → offset < max
    → factor ≤ max
    → p < max
    → (r : Range) × (create max id hash offset factor mode timestamp ≡ some r)
      × (r.width ≡ factor)
      × IsRegular r
      × (contains r p ≡ ltb (steps_up max offset p) factor)
unfolding create contains
create_arc max id hash offset factor mode timestamp p lt le on =
    elim (Bool-cases (ltb max (offset + factor))) [
      | inl wraps ↦ (
        record {
          id = id;
          hash = hash;
          timestamp = timestamp;
          start1 = offset;
          end1 = max;
          start2 = 0;
          end2 = offset + factor - max;
          width = factor;
          mode = mode;
        },
        ground (arith, wrapped_end max offset factor),
        refl,
        ground arith,
        ground arith,
      )
      | inr plain ↦ (
        record {
          id = id;
          hash = hash;
          timestamp = timestamp;
          start1 = offset;
          end1 = offset + factor;
          start2 = offset;
          end2 = offset + factor;
          width = factor;
          mode = mode;
        },
        ground (arith, wrapped_end max offset factor),
        refl,
        ground arith,
        ground arith,
      )
    ]

-- A range of the full width that is created at the last coordinate `max` itself, which `create`
-- accepts, is empty: it has width 0 and contains no point.
pub create_full_at_end :
    (max : ℕ) (id : List ℕ) (hash : String) (mode : Intent) (timestamp : ℕ) (p : ℕ)
    → 0 < max
    → (r : Range) × (create max id hash max max mode timestamp ≡ some r)
      × (r.width ≡ 0)
      × (contains r p ≡ false)
unfolding create contains
create_full_at_end max id hash mode timestamp p h = (
  record {
    id = id;
    hash = hash;
    timestamp = timestamp;
    start1 = max;
    end1 = max;
    start2 = 0;
    end2 = 0;
    width = 0;
    mode = mode;
  },
  ground (arith, mod_self max),
  refl,
  ground arith,
)
