-- ===== src/Capability/Derive.antt =====
-- `derive` of kernel_rs/src/capability.rs: attenuation is enforced, and a refusal leaves no trace
-- in the target table.
use agentic_os.Base.{
  ℕ, ◌<◌, ◌^◌, ◌≡◌, refl, sym, subst, ap, ◌∙◌, true, false, Option, none, some, Result, ok, err, [],
  ◌∷◌, ◌++◌, arith, length, u32, get_elem?, get_elem?-append_end,
}
use agentic_os.Capability.RightsMask.{Rights, contains, grant_right}
use agentic_os.Capability.{
  Kernel, KernelObject, Capability, CapabilityTable, CapError, attenuation_violation, derive,
  derive_from, DeriveResult, resolve, slot_of,
}
use agentic_os.Capability.Resolve.{
  Grants, IsLive, LiveAs, resolve-Grants, resolve-ok_iff, objects-resolve,
}

-- What a successful derivation did: the target has one more slot, for the same object and
-- generation as the source and with the requested rights, and its index is returned.
abbrev pub Derives : Rights → CapabilityTable → Capability → DeriveResult → ℕ → Type 0
Derives requested target source d new =
    (contains source.rights requested ≡ true)
    × (d.1 ≡ target ++ some (record source { rights = requested }) ∷ [])
    × (new ≡ u32 (length target))

derive_from-ok :
    (requested : Rights) (target : CapabilityTable) (m : Kernel × Result CapError Capability)
    (new : ℕ)
    → (derive_from requested target m).2 ≡ ok new
    → (source : Capability) × (m.1 ≡ ok source)
      × Derives requested target source (derive_from requested target m) new
unfolding derive_from
derive_from-ok requested target (k, err e) new h = cc
derive_from-ok requested target (k, ok source) new h =
    (source, refl, (ground arith, ground arith, ground arith))

-- A derivation that succeeds has a live source with the right to grant, whose rights contain those
-- that were asked for; the target gets exactly one new slot, at the index returned, with the
-- source's object and generation and the requested rights.
pub derive_attenuates :
    (k : Kernel) (table : CapabilityTable) (id : ℕ) (requested : Rights) (target : CapabilityTable)
    (new : ℕ)
    → (derive k table id requested target).2 ≡ ok new
    → (source : Capability) × Grants k grant_right (slot_of table id) source
      × Derives requested target source (derive k table id requested target) new
unfolding derive
derive_attenuates k table id requested target new h =
    let (source, e, d) = derive_from-ok requested target (resolve k table id grant_right) new h in
    (source, resolve-Grants k table id grant_right source e, d)

derive_from-err :
    (requested : Rights) (target : CapabilityTable) (m : Kernel × Result CapError Capability)
    (e : CapError)
    → (derive_from requested target m).2 ≡ err e
    → (derive_from requested target m).1 ≡ target
unfolding derive_from
derive_from-err requested target (k, err f) e h = refl
derive_from-err requested target (k, ok source) e h = ground arith

-- A derivation that fails adds nothing to the target.
pub derive_refused :
    (k : Kernel) (table : CapabilityTable) (id : ℕ) (requested : Rights) (target : CapabilityTable)
    (e : CapError)
    → (derive k table id requested target).2 ≡ err e
    → (derive k table id requested target).1 ≡ target
unfolding derive
derive_refused k table id requested target e h = derive_from-err requested target _ e h

objects-derive_from :
    (requested : Rights) (target : CapabilityTable) (m : Kernel × Result CapError Capability)
    → (derive_from requested target m).0.objects ≡ m.0.objects
unfolding derive_from
objects-derive_from requested target (k, err f) = refl
objects-derive_from requested target (k, ok source) = ground arith

pub objects-derive :
    (k : Kernel) (table : CapabilityTable) (id : ℕ) (requested : Rights) (target : CapabilityTable)
    → (derive k table id requested target).0.objects ≡ k.objects
unfolding derive
objects-derive k table id requested target =
    objects-derive_from requested target (resolve k table id grant_right)
    ∙ objects-resolve k table id grant_right

-- What was asked for beyond the source's rights is refused outright, never clamped.
pub derive_excess :
    (k : Kernel) (table : CapabilityTable) (id : ℕ) (requested : Rights) (target : CapabilityTable)
    (source : Capability)
    → Grants k grant_right (slot_of table id) source
    → contains source.rights requested ≡ false
    → derive k table id requested target ≡ (k, target, err attenuation_violation)
unfolding derive derive_from
derive_excess k table id requested target source g excess =
    ap (derive_from requested target) ((resolve-ok_iff k table id grant_right source).1 g)
    ∙ rw excess

slot_of-end :
    (target : CapabilityTable) (c : Capability)
    → length target < 2 ^ 32
    → slot_of (target ++ some c ∷ []) (u32 (length target)) ≡ some c
slot_of-end target c room =
    let e : u32 (length target) ≡ length target = omega arith in
    rw e (rw (get_elem?-append_end target (some c)))

LiveAs-rights :
    (o : Option KernelObject) (c : Capability) (r : Rights)
    → LiveAs o c
    → LiveAs o (record c { rights = r })
LiveAs-rights none c r h = h
LiveAs-rights (some o) c r h = h

IsLive-attenuated :
    (k k' : Kernel) (c : Capability) (r : Rights)
    → k'.objects ≡ k.objects
    → IsLive k c
    → IsLive k' (record c { rights = r })
IsLive-attenuated k k' c r e h =
    subst (λ objects. LiveAs (get_elem? objects c.object_id) (record c { rights = r })) (sym e)
      (LiveAs-rights (get_elem? k.objects c.object_id) c r h)

-- The index that a derivation returns can be used in the new table for every right that was
-- asked for: it resolves to a capability for the source's object, if the table has room.
pub resolve-derive :
    (k : Kernel) (table : CapabilityTable) (id : ℕ) (requested used : Rights)
    (target : CapabilityTable) (new : ℕ)
    → length target < 2 ^ 32
    → contains requested used ≡ true
    → (derive k table id requested target).2 ≡ ok new
    → let (k', target', _) = derive k table id requested target in
      (source : Capability) × (slot_of table id ≡ some source)
      × ((resolve k' target' new used).1 ≡ ok (record source { rights = requested }))
resolve-derive k table id requested used target new room sub h =
    let (source, g, (_, e, n)) = derive_attenuates k table id requested target new h in
    (
      source,
      g.0,
      ap (λ p. p.1)
          ((resolve-ok_iff _ _ new used _).1 (
            rw (e, n) (slot_of-end target _ room),
            IsLive-attenuated k (derive k table id requested target).0 source requested
                (objects-derive k table id requested target) g.1,
            sub,
          )),
    )
