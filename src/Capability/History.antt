-- ===== src/Capability/History.antt =====
-- What holds after any history of operations of kernel_rs/src/capability.rs.
use agentic_os.Base.{ℕ, ◌+◌, ◌<◌, ◌^◌, ◌≡◌, List, [], ◌∷◌, some, subst, length, arith}
use agentic_os.Capability.{Capability, CapabilityTable}
use agentic_os.Capability.World.{World, Op, boot, step, run, held}
use agentic_os.Capability.Evolution.{Bounded, step-Bounded}
use agentic_os.Capability.Holding.{WellFormed, step-WellFormed}

-- Over a history, generations rise by at most the number of operations, and every capability stays
-- covered by its object's generation.
pub run-WellFormed :
    (w : World) (ops : List Op) (n m : ℕ)
    → n + length ops ≡ m
    → m < 2 ^ 64
    → Bounded w.kernel.objects n
    → WellFormed w.kernel.objects w.tables
    → Bounded (run w ops).kernel.objects m
      × WellFormed (run w ops).kernel.objects (run w ops).tables
unfolding run
run-WellFormed w [] n m e room b wf =
    let e' : n ≡ m = omega arith in (subst (Bounded w.kernel.objects) e' b, wf)
run-WellFormed w (op ∷ ops) n m e room b wf =
    run-WellFormed (step w op) ops (n + 1) m (omega arith) room
      (step-Bounded w op n b (omega arith)) (step-WellFormed w op n b (omega arith) wf)

-- No table holds a capability at boot.
abbrev pub AllEmpty : List CapabilityTable → Type 0
AllEmpty ts = (p id : ℕ) (c : Capability) → ¬ (held ts p id ≡ some c)

-- After any history of fewer than 2 ^ 64 operations from boot with empty tables, every capability in
-- a table was minted at or before the current generation of its object; one for a number that names
-- no object has generation 0.
pub run-boot-WellFormed :
    (tables : List CapabilityTable) (ops : List Op)
    → AllEmpty tables
    → length ops < 2 ^ 64
    → WellFormed (run (boot tables) ops).kernel.objects (run (boot tables) ops).tables
run-boot-WellFormed tables ops none_held room =
    (run-WellFormed (boot tables) ops 0 (length ops) (omega arith) room
      (λ j o none_there. cc none_there) (λ p id c at. absurd (none_held p id c at))).1
