-- ===== src/Seek/Tests.antt =====
-- Relay targets on concrete nodes, and the theorems at inputs.
use peerbit.Base.{ℕ, ◌≡◌, ◌↔◌, refl, Bool, true, false, [], ◌∷◌, ◌==◌, ℕ_discrete as dec}
use peerbit.Seek.{
  Mem, IsRelay, seek, should_ignore, should_acknowledge, select_relays, select_relays_iff,
}

abbrev signed : ℕ → Bool
signed n = n == 4

-- Of the nodes 2, 3 and 4, the message came from 2, and 4 has signed it.
relays : select_relays dec (λ (n : ℕ). n) signed 2 (2 ∷ 3 ∷ 4 ∷ []) ≡ 3 ∷ []
unfolding select_relays dec
relays = refl

-- A message that was seen twice is not ignored while three copies are sought, and is acknowledged.
third_copy : (should_ignore false 2 (seek 3) ≡ false) × (should_acknowledge true 2 3 ≡ true)
unfolding should_ignore should_acknowledge
third_copy = (refl, refl)

select_relays_iff_example :
    Mem {T = ℕ} 3 (select_relays dec (λ (n : ℕ). n) signed 2 (2 ∷ 3 ∷ 4 ∷ []))
    ↔ (Mem {T = ℕ} 3 (2 ∷ 3 ∷ 4 ∷ []) × IsRelay dec (λ (n : ℕ). n) signed 2 3)
select_relays_iff_example = select_relays_iff dec (λ (n : ℕ). n) signed 2 3 (2 ∷ 3 ∷ 4 ∷ [])
