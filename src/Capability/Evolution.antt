-- ===== src/Capability/Evolution.antt =====
-- How the objects of kernel_rs/src/capability.rs change from one operation to the next.
use agentic_os.Base.{
  ℕ, zero, suc, ◌+◌, ◌≤◌, ◌<◌, ◌^◌, ◌≡◌, refl, sym, subst, false, Bool, Option, none, some, List,
  [], ◌∷◌, ◌++◌, arith, get_elem?, set,
}
use agentic_os.Capability.RightsMask.{Rights}
use agentic_os.Capability.{
  KernelObject, CapabilityTable, create_object, revoke, grant, revoked_object, bump_found,
}
use agentic_os.Capability.Resolve.{objects-resolve}
use agentic_os.Capability.Derive.{objects-derive}
use agentic_os.Capability.World.{World, Op, step, grant_in, derive_in, use_in}

-- How the object under one id may change in one operation.
abbrev pub Evolves : Option KernelObject → Option KernelObject → Type 0
Evolves none none = Unit {0}
Evolves none (some o) = o.generation ≡ 1
Evolves (some o) none = ⊥
Evolves (some o) (some o') =
    (o.generation ≤ o'.generation)
    × (o'.generation ≤ o.generation + 1)
    × (o.alive ≡ false → o'.alive ≡ false)
    × (o'.kind ≡ o.kind)

Evolves-refl : (o : Option KernelObject) → Evolves o o
Evolves-refl none = tt
Evolves-refl (some o) = (omega arith, omega arith, (λ h. h), refl)

Evolves-append :
    (objects : List KernelObject) (o : KernelObject) (j : ℕ)
    → o.generation ≡ 1
    → Evolves (get_elem? objects j) (get_elem? (objects ++ o ∷ []) j)
Evolves-append [] o zero h = h
Evolves-append [] o (suc j) h = tt
Evolves-append (x ∷ xs) o zero h = Evolves-refl (some x)
Evolves-append (x ∷ xs) o (suc j) h = Evolves-append xs o j h

Evolves-set :
    (objects : List KernelObject) (i j : ℕ) (o o' : KernelObject)
    → get_elem? objects i ≡ some o
    → Evolves (some o) (some o')
    → Evolves (get_elem? objects j) (get_elem? (set objects i o') j)
Evolves-set [] i j o o' e h = Evolves-refl none
Evolves-set (x ∷ xs) zero zero o o' e h = subst (λ y. Evolves y (some o')) (sym e) h
Evolves-set (x ∷ xs) zero (suc j) o o' e h = Evolves-refl (get_elem? xs j)
Evolves-set (x ∷ xs) (suc i) zero o o' e h = Evolves-refl (some x)
Evolves-set (x ∷ xs) (suc i) (suc j) o o' e h = Evolves-set xs i j o o' e h

abbrev pub Bounded : List KernelObject → ℕ → Type 0
Bounded objects n = (j : ℕ) (o : KernelObject) → get_elem? objects j ≡ some o → o.generation ≤ n

bump_found-Evolves :
    (objects : List KernelObject) (id j : ℕ) (destroy : Bool) (n : ℕ) (found : Option KernelObject)
    → get_elem? objects id ≡ found
    → Bounded objects n
    → n + 1 < 2 ^ 64
    → Evolves (get_elem? objects j) (get_elem? (bump_found objects id destroy found) j)
bump_found-Evolves objects id j destroy n none e b room = Evolves-refl (get_elem? objects j)
bump_found-Evolves objects id j destroy n (some o) e b room =
    Evolves-set objects id j o (revoked_object destroy o) e (
      let h : o.generation ≤ n = b id o e in
      (omega arith, omega arith, (λ dead. ground arith), refl))

Evolves-same :
    (objects objects' : List KernelObject) (j : ℕ)
    → objects' ≡ objects
    → Evolves (get_elem? objects j) (get_elem? objects' j)
Evolves-same objects objects' j e =
    subst (λ x. Evolves (get_elem? objects j) (get_elem? x j)) (sym e)
      (Evolves-refl (get_elem? objects j))

objects-grant_in :
    (w : World) (p id : ℕ) (rights : Rights) (t : Option CapabilityTable)
    → (grant_in w p id rights t).kernel.objects ≡ w.kernel.objects
unfolding grant_in grant
objects-grant_in w p id rights none = refl
objects-grant_in w p id rights (some t) = refl

objects-derive_in :
    (w : World) (id : ℕ) (rights : Rights) (q : ℕ) (s t : Option CapabilityTable)
    → (derive_in w id rights q s t).kernel.objects ≡ w.kernel.objects
unfolding derive_in
objects-derive_in w id rights q none t = refl
objects-derive_in w id rights q (some s) none = refl
objects-derive_in w id rights q (some s) (some t) = objects-derive w.kernel s id rights t

objects-use_in :
    (w : World) (id : ℕ) (rights : Rights) (t : Option CapabilityTable)
    → (use_in w id rights t).kernel.objects ≡ w.kernel.objects
unfolding use_in
objects-use_in w id rights none = refl
objects-use_in w id rights (some t) = objects-resolve w.kernel t id rights

-- Every object under one operation, while no generation is at the end of its range.
pub step-Evolves :
    (w : World) (op : Op) (n j : ℕ)
    → Bounded w.kernel.objects n
    → n + 1 < 2 ^ 64
    → Evolves (get_elem? w.kernel.objects j) (get_elem? (step w op).kernel.objects j)
unfolding step create_object revoke
step-Evolves w (Op.runs tid) n j b room = Evolves-refl (get_elem? w.kernel.objects j)
step-Evolves w (Op.creates kind) n j b room = Evolves-append w.kernel.objects _ j refl
step-Evolves w (Op.grants p id rights) n j b room =
    Evolves-same _ _ j (objects-grant_in w p id rights (get_elem? w.tables p))
step-Evolves w (Op.derives p id rights q) n j b room =
    Evolves-same _ _ j
      (objects-derive_in w id rights q (get_elem? w.tables p) (get_elem? w.tables q))
step-Evolves w (Op.uses p id rights) n j b room =
    Evolves-same _ _ j (objects-use_in w id rights (get_elem? w.tables p))
step-Evolves w (Op.revokes id destroy) n j b room =
    bump_found-Evolves w.kernel.objects id j destroy n _ refl b room

Bounded_found :
    (n : ℕ) (before after : Option KernelObject)
    → ((o : KernelObject) → before ≡ some o → o.generation ≤ n)
    → Evolves before after
    → (o : KernelObject) → after ≡ some o
    → o.generation ≤ n + 1
Bounded_found n none none b v o e = cc
Bounded_found n none (some o') b v o e = ground (arith)
Bounded_found n (some old) none b v o e = absurd v
Bounded_found n (some old) (some o') b v o e = ground (arith, b old refl)

-- A generation rises by at most one in one operation.
pub step-Bounded :
    (w : World) (op : Op) (n : ℕ)
    → Bounded w.kernel.objects n
    → n + 1 < 2 ^ 64
    → Bounded (step w op).kernel.objects (n + 1)
step-Bounded w op n b room j o e =
    Bounded_found n (get_elem? w.kernel.objects j) (get_elem? (step w op).kernel.objects j) (b j)
      (step-Evolves w op n j b room) o e

-- A capability that some object's generation covers: minted at most at the current one.
abbrev pub CoveredBy : Option KernelObject → ℕ → Type 0
CoveredBy none g = g ≡ 0
CoveredBy (some o) g = g ≤ o.generation

-- A capability that can never be used again: minted before the current generation.
abbrev pub DoomedBy : Option KernelObject → ℕ → Type 0
DoomedBy none g = g ≡ 0
DoomedBy (some o) g = g < o.generation

pub CoveredBy-Evolves :
    (o o' : Option KernelObject) (g : ℕ) → Evolves o o' → CoveredBy o g → CoveredBy o' g
CoveredBy-Evolves none none g v c = c
CoveredBy-Evolves none (some o') g v c = omega arith
CoveredBy-Evolves (some o) none g v c = absurd v
CoveredBy-Evolves (some o) (some o') g v c = omega arith

pub DoomedBy-Evolves :
    (o o' : Option KernelObject) (g : ℕ) → Evolves o o' → DoomedBy o g → DoomedBy o' g
DoomedBy-Evolves none none g v c = c
DoomedBy-Evolves none (some o') g v c = omega arith
DoomedBy-Evolves (some o) none g v c = absurd v
DoomedBy-Evolves (some o) (some o') g v c = omega arith
