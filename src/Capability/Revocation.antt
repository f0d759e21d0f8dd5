-- ===== src/Capability/Revocation.antt =====
-- Revocation by generation, kernel_rs/src/capability.rs: one write reaches every capability that
-- was ever minted for the object, through any number of derivations, and for good.
use agentic_os.Base.{
  ℕ, ◌+◌, ◌≤◌, ◌<◌, ◌^◌, ◌≡◌, refl, sym, ap, ◌∙◌, subst, Bool, Option, none, some, Result, err,
  List, [], ◌∷◌, arith, length, get_elem?, get_elem?-set_self, lt-length, ◌>>=◌,
}
use agentic_os.Capability.RightsMask.{Rights}
use agentic_os.Capability.{
  Kernel, KernelObject, Capability, CapabilityTable, CapError, revoke, revoked, slot_of, resolve,
  check_slot, check_generation, if_alive, bump_found, revoked_object,
}
use agentic_os.Capability.Resolve.{resolve_result}
use agentic_os.Capability.World.{World, Op, step, run, boot, held}
use agentic_os.Capability.Evolution.{
  Bounded, step-Bounded, step-Evolves, CoveredBy, DoomedBy, DoomedBy-Evolves,
}
use agentic_os.Capability.History.{AllEmpty, run-WellFormed}
use agentic_os.Capability.Holding.{WellFormed, step-Sound}

-- What slot `id` of process `p` gives when it is used for `required`.
abbrev pub use_of : World → ℕ → ℕ → Rights → Option (Result CapError Capability)
use_of w p id required = get_elem? w.tables p >>= λ t. some (resolve w.kernel t id required).1

abbrev Doomed : World → Capability → Type 0
Doomed w c = DoomedBy (get_elem? w.kernel.objects c.object_id) c.generation

check_generation-doomed :
    (o : Option KernelObject) (c : Capability) (required : Rights)
    → DoomedBy o c.generation
    → check_generation (if_alive o) c required ≡ err revoked
unfolding check_generation
check_generation-doomed none c required d = refl
check_generation-doomed (some o) c required d = ground arith

check_slot-doomed :
    (k : Kernel) (required : Rights) (c : Capability)
    → DoomedBy (get_elem? k.objects c.object_id) c.generation
    → check_slot k (some c) required ≡ err revoked
unfolding check_slot
check_slot-doomed k required c d = check_generation-doomed _ c required d

resolve-doomed :
    (k : Kernel) (t : CapabilityTable) (id : ℕ) (required : Rights) (c : Capability)
    → slot_of t id ≡ some c
    → DoomedBy (get_elem? k.objects c.object_id) c.generation
    → (resolve k t id required).1 ≡ err revoked
resolve-doomed k t id required c e d =
    resolve_result k t id required
    ∙ ap (λ s. check_slot k s required) e
    ∙ check_slot-doomed k required c d

-- Doom is final: no later operation, a re-creation or another grant included, undoes it.
run-Doomed :
    (w : World) (ops : List Op) (n : ℕ) (c : Capability)
    → Bounded w.kernel.objects n
    → n + length ops < 2 ^ 64
    → Doomed w c
    → Doomed (run w ops) c
unfolding run
run-Doomed w [] n c b room d = d
run-Doomed w (op ∷ ops) n c b room d =
    run-Doomed (step w op) ops (n + 1) c (step-Bounded w op n b (omega arith)) (omega arith)
      (DoomedBy-Evolves _ _ c.generation (step-Evolves w op n c.object_id b (omega arith)) d)

run-held :
    (w : World) (ops : List Op) (p id : ℕ) (c : Capability)
    → held w.tables p id ≡ some c
    → held (run w ops).tables p id ≡ some c
unfolding run
run-held w [] p id c h = h
run-held w (op ∷ ops) p id c h = run-held (step w op) ops p id c ((step-Sound w op).0 p id c h)

bumped-Doomed :
    (objects : List KernelObject) (id : ℕ) (destroy : Bool) (n : ℕ) (g : ℕ)
    (o : Option KernelObject)
    → get_elem? objects id ≡ o
    → Bounded objects n
    → n + 1 < 2 ^ 64
    → CoveredBy o g
    → DoomedBy (get_elem? (bump_found objects id destroy o) id) g
bumped-Doomed objects id destroy n g none e b room c = rw e c
bumped-Doomed objects id destroy n g (some o) e b room c =
    let h : o.generation ≤ n = b id o e in
    rw (get_elem?-set_self objects id (revoked_object destroy o) (lt-length objects id e))
      (omega arith)

revoked-Doomed :
    (w : World) (id : ℕ) (destroy : Bool) (n : ℕ) (c : Capability)
    → Bounded w.kernel.objects n
    → n + 1 < 2 ^ 64
    → CoveredBy (get_elem? w.kernel.objects c.object_id) c.generation
    → c.object_id ≡ id
    → Doomed (step w (Op.revokes id destroy)) c
unfolding step revoke
revoked-Doomed w id destroy n c b room covered e =
    subst (λ x. DoomedBy (get_elem? (bump_found objects id destroy (get_elem? objects id)) x) g)
      (sym e)
      (bumped-Doomed objects id destroy n g (get_elem? objects id) refl b room
        (subst (λ x. CoveredBy (get_elem? objects x) g) e covered))
  where
    objects : List KernelObject
    objects = w.kernel.objects

    g : ℕ
    g = c.generation

use_at-doomed :
    (k : Kernel) (t : Option CapabilityTable) (slot : ℕ) (required : Rights) (c : Capability)
    → (t >>= λ t. slot_of t slot) ≡ some c
    → DoomedBy (get_elem? k.objects c.object_id) c.generation
    → (t >>= λ t. some (resolve k t slot required).1) ≡ some (err revoked)
use_at-doomed k none slot required c h d = cc
use_at-doomed k (some t) slot required c h d = ap some (resolve-doomed k t slot required c h d)

-- Take any history from boot, revoke an object, and take any history after that: each slot that
-- held a capability for the object before the revocation still holds it, and its use for any rights
-- is refused as revoked. This includes capabilities derived through any chain. The generations are
-- u64 counters, so the histories together have fewer than 2 ^ 64 operations.
pub revocation_is_final :
    (tables : List CapabilityTable) (before after : List Op) (id : ℕ) (destroy : Bool) (p slot : ℕ)
    (c : Capability) (required : Rights)
    → AllEmpty tables
    → length before + length after + 1 < 2 ^ 64
    → held (run (boot tables) before).tables p slot ≡ some c
    → c.object_id ≡ id
    → use_of (run (step (run (boot tables) before) (Op.revokes id destroy)) after) p slot required
      ≡ some (err revoked)
revocation_is_final tables before after id destroy p slot c required none_held room h e =
    use_at-doomed (run w after).kernel (get_elem? (run w after).tables p) slot required c
      (run-held w after p slot c ((step-Sound start (Op.revokes id destroy)).0 p slot c h))
      (run-Doomed w after (length before + 1) c
        (step-Bounded start (Op.revokes id destroy) (length before) sound.0 (omega arith))
        (omega arith)
        (revoked-Doomed start id destroy (length before) c sound.0 (omega arith)
          (sound.1 p slot c h) e))
  where
    start : World
    start = run (boot tables) before

    w : World
    w = step start (Op.revokes id destroy)

    sound :
        Bounded start.kernel.objects (length before) × WellFormed start.kernel.objects start.tables
    sound =
        run-WellFormed (boot tables) before 0 (length before) (omega arith) (omega arith)
          (λ j o none_there. cc none_there) (λ q i d at. absurd (none_held q i d at))
