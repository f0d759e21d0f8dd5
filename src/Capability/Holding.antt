-- ===== src/Capability/Holding.antt =====
-- What the capability tables of kernel_rs/src/capability.rs hold from one operation to the next.
use mathlib.Core.Option.{some-injective}
use agentic_os.Base.{
  ℕ, zero, suc, ◌+◌, ◌<◌, ◌^◌, ◌≡◌, refl, sym, ap, subst, Option, none, some, List, [], ◌∷◌, ◌++◌,
  ◌⊎◌, inl, inr, arith, get_elem?, set, Result-cases,
}
use agentic_os.Capability.RightsMask.{Rights, grant_right}
use agentic_os.Capability.{
  Kernel, KernelObject, Capability, CapabilityTable, slot_of, grant, derive, generation_or_zero,
}
use agentic_os.Capability.Resolve.{Grants}
use agentic_os.Capability.Derive.{Derives, derive_attenuates, derive_refused}
use agentic_os.Capability.World.{World, Op, step, held, grant_in, derive_in, use_in}
use agentic_os.Capability.Evolution.{Bounded, CoveredBy, CoveredBy-Evolves, step-Evolves}

slot_of-append :
    (t : CapabilityTable) (c d : Capability) (id : ℕ)
    → slot_of t id ≡ some c
    → slot_of (t ++ some d ∷ []) id ≡ some c
slot_of-append [] c d id h = cc
slot_of-append (x ∷ t) c d zero h = h
slot_of-append (x ∷ t) c d (suc id) h = slot_of-append t c d id h

slot_of-append_inv :
    (t : CapabilityTable) (c d : Capability) (id : ℕ)
    → slot_of (t ++ some d ∷ []) id ≡ some c
    → (slot_of t id ≡ some c) ⊎ (c ≡ d)
slot_of-append_inv [] c d zero h = inr (ground arith)
slot_of-append_inv [] c d (suc id) h = inl h
slot_of-append_inv (x ∷ t) c d zero h = inl h
slot_of-append_inv (x ∷ t) c d (suc id) h = slot_of-append_inv t c d id h

-- Adding a capability to table `q` keeps what every slot of every table holds.
held-append :
    (ts : List CapabilityTable) (q p id : ℕ) (t : CapabilityTable) (c d : Capability)
    → get_elem? ts q ≡ some t
    → held ts p id ≡ some c
    → held (set ts q (t ++ some d ∷ [])) p id ≡ some c
held-append [] q p id t c d e h = cc
held-append (x ∷ ts) zero zero id t c d e h =
    slot_of-append t c d id (subst (λ y. slot_of y id ≡ some c) (some-injective x t e) h)
held-append (x ∷ ts) zero (suc p) id t c d e h = h
held-append (x ∷ ts) (suc q) zero id t c d e h = h
held-append (x ∷ ts) (suc q) (suc p) id t c d e h = held-append ts q p id t c d e h

held-append_inv :
    (ts : List CapabilityTable) (q p id : ℕ) (t : CapabilityTable) (c d : Capability)
    → get_elem? ts q ≡ some t
    → held (set ts q (t ++ some d ∷ [])) p id ≡ some c
    → (held ts p id ≡ some c) ⊎ (c ≡ d)
held-append_inv [] q p id t c d e h = cc
held-append_inv (x ∷ ts) zero zero id t c d e h =
    subst (λ y. (slot_of y id ≡ some c) ⊎ (c ≡ d)) (sym (some-injective x t e))
      (slot_of-append_inv t c d id h)
held-append_inv (x ∷ ts) zero (suc p) id t c d e h = inl h
held-append_inv (x ∷ ts) (suc q) zero id t c d e h = inl h
held-append_inv (x ∷ ts) (suc q) (suc p) id t c d e h = held-append_inv ts q p id t c d e h

set_same :
    (ts : List CapabilityTable) (q : ℕ) (t : CapabilityTable)
    → get_elem? ts q ≡ some t
    → set ts q t ≡ ts
set_same [] q t e = refl
set_same (x ∷ ts) zero t e = ground arith
set_same (x ∷ ts) (suc q) t e = ap (λ r. x ∷ r) (set_same ts q t e)

-- What a derivation makes of its target: the same table, or one more slot for what the source names.
abbrev DerivedTable : CapabilityTable → ℕ → Rights → CapabilityTable → CapabilityTable → Type 0
DerivedTable s id rights t t' =
    (t' ≡ t)
    ⊎ ((source : Capability) × (slot_of s id ≡ some source)
        × (t' ≡ t ++ some (record source { rights = rights }) ∷ []))

derive-DerivedTable :
    (k : Kernel) (s : CapabilityTable) (id : ℕ) (rights : Rights) (t : CapabilityTable)
    → DerivedTable s id rights t (derive k s id rights t).1
derive-DerivedTable k s id rights t = elim (Result-cases (derive k s id rights t).2) [
  | inl (new, e) ↦ inr (derived (derive_attenuates k s id rights t new e))
  | inr (e, h) ↦ inl (derive_refused k s id rights t e h)
]
  where
    derived :
        {new : ℕ}
        → ((source : Capability) × Grants k grant_right (slot_of s id) source
            × Derives rights t source (derive k s id rights t) new)
        → (source : Capability) × (slot_of s id ≡ some source)
          × ((derive k s id rights t).1 ≡ t ++ some (record source { rights = rights }) ∷ [])
    derived (source, g, d) = (source, g.0, d.1)

-- Every slot keeps its capability.
abbrev pub Keeps : List CapabilityTable → List CapabilityTable → Type 0
Keeps ts ts' = (p id : ℕ) (c : Capability) → held ts p id ≡ some c → held ts' p id ≡ some c

-- Every capability in a table is covered by its object's generation.
abbrev pub WellFormed : List KernelObject → List CapabilityTable → Type 0
WellFormed objects ts =
    (p id : ℕ) (c : Capability)
    → held ts p id ≡ some c
    → CoveredBy (get_elem? objects c.object_id) c.generation

append-WellFormed :
    (objects : List KernelObject) (ts : List CapabilityTable) (q : ℕ) (t : CapabilityTable)
    (d : Capability)
    → get_elem? ts q ≡ some t
    → CoveredBy (get_elem? objects d.object_id) d.generation
    → WellFormed objects ts
    → WellFormed objects (set ts q (t ++ some d ∷ []))
append-WellFormed objects ts q t d e covered wf p id c h =
    elim (held-append_inv ts q p id t c d e h) [
      | inl old ↦ wf p id c old
      | inr new ↦
          subst (λ (x : Capability). CoveredBy (get_elem? objects x.object_id) x.generation)
            (sym new) covered
    ]

CoveredBy-current : (o : Option KernelObject) → CoveredBy o (generation_or_zero o)
CoveredBy-current none = refl
CoveredBy-current (some o) = omega arith

-- Keeping and covering go together: both hold of the tables after any operation, the objects before.
abbrev Sound : List KernelObject → List CapabilityTable → List CapabilityTable → Type 0
Sound objects ts ts' = Keeps ts ts' × (WellFormed objects ts → WellFormed objects ts')

Sound-refl : (objects : List KernelObject) (ts : List CapabilityTable) → Sound objects ts ts
Sound-refl objects ts = (λ p id c h. h, λ wf. wf)

grant_in-Sound :
    (w : World) (q id : ℕ) (rights : Rights) (t : Option CapabilityTable)
    → get_elem? w.tables q ≡ t
    → Sound w.kernel.objects w.tables (grant_in w q id rights t).tables
unfolding grant_in grant
grant_in-Sound w q id rights none e = Sound-refl w.kernel.objects w.tables
grant_in-Sound w q id rights (some t) e = (
  λ p i c h. held-append w.tables q p i t c _ e h,
  append-WellFormed w.kernel.objects w.tables q t _ e
      (CoveredBy-current (get_elem? w.kernel.objects id)),
)

held_of :
    (ts : List CapabilityTable) (p id : ℕ) (t : CapabilityTable) (c : Capability)
    → get_elem? ts p ≡ some t
    → slot_of t id ≡ some c
    → held ts p id ≡ some c
held_of ts p id t c e h = rw e h

derive_in-Sound :
    (w : World) (p id : ℕ) (rights : Rights) (q : ℕ) (s t : Option CapabilityTable)
    → get_elem? w.tables p ≡ s
    → get_elem? w.tables q ≡ t
    → Sound w.kernel.objects w.tables (derive_in w id rights q s t).tables
unfolding derive_in
derive_in-Sound w p id rights q none t e f = Sound-refl w.kernel.objects w.tables
derive_in-Sound w p id rights q (some s) none e f = Sound-refl w.kernel.objects w.tables
derive_in-Sound w p id rights q (some s) (some t) e f =
    elim (derive-DerivedTable w.kernel s id rights t) [
      | inl same ↦ rw (same, set_same w.tables q t f) (Sound-refl w.kernel.objects w.tables)
      | inr (source, at, more) ↦ rw more (
        λ p' i c h. held-append w.tables q p' i t c _ f h,
        λ wf.
            append-WellFormed w.kernel.objects w.tables q t _ f
              (wf p id source (held_of w.tables p id s source e at)) wf,
      )
    ]

use_in-Sound :
    (w : World) (id : ℕ) (rights : Rights) (t : Option CapabilityTable)
    → Sound w.kernel.objects w.tables (use_in w id rights t).tables
unfolding use_in
use_in-Sound w id rights none = Sound-refl w.kernel.objects w.tables
use_in-Sound w id rights (some t) = Sound-refl w.kernel.objects w.tables

pub step-Sound : (w : World) (op : Op) → Sound w.kernel.objects w.tables (step w op).tables
unfolding step
step-Sound w (Op.runs tid) = Sound-refl w.kernel.objects w.tables
step-Sound w (Op.creates kind) = Sound-refl w.kernel.objects w.tables
step-Sound w (Op.grants p id rights) = grant_in-Sound w p id rights _ refl
step-Sound w (Op.derives p id rights q) = derive_in-Sound w p id rights q _ _ refl refl
step-Sound w (Op.uses p id rights) = use_in-Sound w id rights (get_elem? w.tables p)
step-Sound w (Op.revokes id destroy) = Sound-refl w.kernel.objects w.tables

-- One operation keeps the tables well formed, against the objects as they then are.
pub step-WellFormed :
    (w : World) (op : Op) (n : ℕ)
    → Bounded w.kernel.objects n
    → n + 1 < 2 ^ 64
    → WellFormed w.kernel.objects w.tables
    → WellFormed (step w op).kernel.objects (step w op).tables
step-WellFormed w op n b room wf p id c h =
    CoveredBy-Evolves _ _ c.generation (step-Evolves w op n c.object_id b room)
      ((step-Sound w op).1 wf p id c h)
