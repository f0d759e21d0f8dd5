-- ===== src/Discovery/Matching.antt =====
-- `match_all` of kernel_common/src/driver_registry.rs against a definition without a bound.
use agentic_os.Base.{ℕ, zero, suc, ◌≡◌, refl, ap, List, [], ◌∷◌, Option, none, some, take}
use agentic_os.Discovery.{PciId, DriverEntry, first_match, match_all}

-- The device with the handler that it gets, before the other matches.
pub with_handler {ℓ} : {T : Type ℓ} → PciId → Option T → List (PciId × T) → List (PciId × T)
with_handler dev none rest = rest
with_handler dev (some handler) rest = (dev, handler) ∷ rest

-- All devices that some rule matches, in their order, with the handlers of their first rules.
unfoldable pub all_matches {ℓ} : {T : Type ℓ} → List PciId → List (DriverEntry T) → List (PciId × T)
unfolding with_handler
all_matches [] table = []
all_matches (dev ∷ devices) table =
    with_handler dev (first_match table dev) (all_matches devices table)

take-nil {ℓ} : {A : Type ℓ} (n : ℕ) → take {A = A} n [] ≡ []
take-nil zero = refl
take-nil (suc n) = refl

-- With room for `room` entries, the first `room` of all matches are written, in their order.
pub match_all_lem {ℓ} :
    {T : Type ℓ} (devices : List PciId) (table : List (DriverEntry T)) (room : ℕ)
    → match_all devices table room ≡ take room (all_matches devices table)
unfolding match_all all_matches with_handler
match_all_lem [] table zero = refl
match_all_lem [] table (suc room) = refl
match_all_lem (dev ∷ devices) table zero = refl
match_all_lem {T = T} (dev ∷ devices) table (suc room) =
    go (first_match table dev) (match_all_lem devices table (suc room))
      (match_all_lem devices table room)
  where
    go :
        (o : Option T)
        → match_all devices table (suc room) ≡ take (suc room) (all_matches devices table)
        → match_all devices table room ≡ take room (all_matches devices table)
        → (elim o as (λ x. List (PciId × T)) [
          | none ↦ match_all devices table (suc room)
          | some handler ↦ (dev, handler) ∷ match_all devices table room
        ])
          ≡ take (suc room) (with_handler dev o (all_matches devices table))
    go none more less = more
    go (some handler) more less = ap (λ r. (dev, handler) ∷ r) less
