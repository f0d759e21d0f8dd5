-- ===== src/Capability/Resolve.antt =====
-- `CapabilityTable::resolve` of kernel_rs/src/capability.rs: when a capability may be used.
use agentic_os.Base.{
  ℕ, ◌≡◌, ◌↔◌, inl, inr, refl, sym, ap, ◌∙◌, subst, true, false, Option, none, some, Result, ok,
  err, get_elem?, arith, Bool-cases, ◌==◌, ==_iff,
}
use agentic_os.Audit.{AuditEvent}
use agentic_os.Capability.RightsMask.{Rights, contains}
use agentic_os.Capability.{
  Kernel, KernelObject, Capability, CapabilityTable, CapError, no_such_capability,
  insufficient_rights, revoked, attenuation_violation, resolve, check_slot, check_generation,
  slot_of, audited, audit_denial, if_alive,
}

-- There is an object, it is alive, and it has the generation that the capability was minted at.
abbrev pub LiveAs : Option KernelObject → Capability → Type 0
LiveAs none c = ⊥
LiveAs (some o) c = (o.alive ≡ true) × (o.generation ≡ c.generation)

abbrev pub IsLive : Kernel → Capability → Type 0
IsLive k c = LiveAs (get_elem? k.objects c.object_id) c

abbrev pub Grants : Kernel → Rights → Option Capability → Capability → Type 0
Grants k required slot c = (slot ≡ some c) × IsLive k c × (contains c.rights required ≡ true)

check_generation-ok :
    (o : Option KernelObject) (c d : Capability) (required : Rights)
    → check_generation (if_alive o) c required ≡ ok d
    → (c ≡ d) × LiveAs o c × (contains c.rights required ≡ true)
unfolding check_generation
check_generation-ok none c d required h = cc
check_generation-ok (some o) c d required h = ground arith

check_generation-live :
    (o : Option KernelObject) (c : Capability) (required : Rights)
    → LiveAs o c
    → contains c.rights required ≡ true
    → check_generation (if_alive o) c required ≡ ok c
unfolding check_generation
check_generation-live none c required h r = absurd h
check_generation-live (some o) c required h r = ground arith

check_slot-ok :
    (k : Kernel) (slot : Option Capability) (c : Capability) (required : Rights)
    → check_slot k slot required ≡ ok c
    → Grants k required slot c
unfolding check_slot
check_slot-ok k none c required h = cc
check_slot-ok k (some d) c required h =
    let p = check_generation-ok (get_elem? k.objects d.object_id) d c required h in
    subst (Grants k required (some d)) p.0 (refl, p.1, p.2)

check_slot-Grants :
    (k : Kernel) (slot : Option Capability) (c : Capability) (required : Rights)
    → Grants k required slot c
    → check_slot k slot required ≡ ok c
unfolding check_slot
check_slot-Grants k slot c required g = rw g.0 (check_generation-live _ c required g.1 g.2)

audit_denial_result {ℓ} :
    {A : Type ℓ} (k : Kernel) (id : ℕ) (r : Result CapError A) → (audit_denial k id r).1 ≡ r
audit_denial_result k id (ok a) = refl
audit_denial_result k id (err e) = refl

-- The result of a use, the audit record left aside.
pub resolve_result :
    (k : Kernel) (table : CapabilityTable) (id : ℕ) (required : Rights)
    → (resolve k table id required).1 ≡ check_slot k (slot_of table id) required
unfolding resolve
resolve_result k table id required = audit_denial_result k id _

pub resolve-Grants :
    (k : Kernel) (table : CapabilityTable) (id : ℕ) (required : Rights) (c : Capability)
    → (resolve k table id required).1 ≡ ok c
    → Grants k required (slot_of table id) c
resolve-Grants k table id required c h =
    check_slot-ok k (slot_of table id) c required (sym (resolve_result k table id required) ∙ h)

-- A use succeeds exactly when the slot holds the capability, its object is alive at the same
-- generation, and its rights contain those that are required. It then changes nothing.
pub resolve-ok_iff :
    (k : Kernel) (table : CapabilityTable) (id : ℕ) (required : Rights) (c : Capability)
    → (resolve k table id required ≡ (k, ok c)) ↔ Grants k required (slot_of table id) c
unfolding resolve
resolve-ok_iff k table id required c = (
  λ h. resolve-Grants k table id required c (ap (λ p. p.1) h),
  λ g. ap (audit_denial k id) (check_slot-Grants k (slot_of table id) c required g),
)

-- A use that fails adds one record of the denial, and changes nothing else.
pub resolve-audits :
    (k : Kernel) (table : CapabilityTable) (id : ℕ) (required : Rights) (e : CapError)
    → (resolve k table id required).1 ≡ err e
    → (resolve k table id required).0 ≡ audited k (AuditEvent.denied id)
unfolding resolve
resolve-audits k table id required e h = ground arith

abbrev pub IsDead : Kernel → Option Capability → Type 0
IsDead k none = ⊥
IsDead k (some c) = ¬ IsLive k c

abbrev pub IsWeak : Kernel → Rights → Option Capability → Type 0
IsWeak k required none = ⊥
IsWeak k required (some c) = IsLive k c × (contains c.rights required ≡ false)

-- The reason of each outcome.
abbrev pub Explains : Kernel → Rights → Option Capability → Result CapError Capability → Type 0
Explains k required slot (ok c) = Grants k required slot c
Explains k required slot (err no_such_capability) = slot ≡ none
Explains k required slot (err insufficient_rights) = IsWeak k required slot
Explains k required slot (err revoked) = IsDead k slot
Explains k required slot (err attenuation_violation) = ⊥

check_generation_explained :
    (k : Kernel) (c : Capability) (required : Rights) (o : Option KernelObject)
    → get_elem? k.objects c.object_id ≡ o
    → Explains k required (some c) (check_generation (if_alive o) c required)
unfolding check_generation
check_generation_explained k c required none e = rw e (λ p. p)
check_generation_explained k c required (some o) e = elim (Bool-cases o.alive) [
  | inr dead ↦ rw dead (λ l. let l' : LiveAs (some o) c = subst (λ x. LiveAs x c) e l in cc l'.0)
  | inl alive ↦ rw alive (elim (Bool-cases (o.generation == c.generation)) [
    | inr old ↦ rw old (λ l.
        let l' : LiveAs (some o) c = subst (λ x. LiveAs x c) e l in
        cc ((==_iff o.generation c.generation).1 l'.1))
    | inl same ↦
        let live : IsLive k c =
          subst (λ x. LiveAs x c) (sym e) (alive, (==_iff o.generation c.generation).0 same) in
        rw same (elim (Bool-cases (contains c.rights required)) [
          | inl all ↦ rw all (refl, live, all)
          | inr some_missing ↦ rw some_missing (live, some_missing)
        ])
  ])
]

check_slot_explained :
    (k : Kernel) (required : Rights) (slot : Option Capability)
    → Explains k required slot (check_slot k slot required)
unfolding check_slot
check_slot_explained k required none = refl
check_slot_explained k required (some c) = check_generation_explained k c required _ refl

-- Each outcome has its reason: success needs a live capability with the rights, and the errors
-- mean an empty slot, a live capability without the rights, and one that is not live.
pub resolve_explained :
    (k : Kernel) (table : CapabilityTable) (id : ℕ) (required : Rights)
    → Explains k required (slot_of table id) (resolve k table id required).1
resolve_explained k table id required =
    rw resolve_result (check_slot_explained k required (slot_of table id))

-- A use changes no object.
pub objects-resolve :
    (k : Kernel) (table : CapabilityTable) (id : ℕ) (required : Rights)
    → (resolve k table id required).0.objects ≡ k.objects
unfolding resolve
objects-resolve k table id required = ground arith
