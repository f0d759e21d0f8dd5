-- ===== src/Capability/Tests.antt =====
-- The capability theorems at concrete inputs.
use agentic_os.Base.{
  zero, suc, ◌≡◌, ◌↔◌, refl, List, [], ◌∷◌, ◌++◌, true, false, some, ok, err, arith,
}
use agentic_os.Audit.{empty_log}
use agentic_os.Capability.RightsMask.{
  Rights, contains, grant_right, read_right, write_right, send_right, agent_max_rights, allows,
}
use agentic_os.Capability.{
  Kernel, Capability, CapabilityTable, file_object, revoked, insufficient_rights,
  attenuation_violation, create_object, grant, derive, resolve, slot_of, revoke,
}
use agentic_os.Capability.Resolve.{Grants, Explains, resolve-ok_iff, resolve_explained}
use agentic_os.Capability.Derive.{Derives, derive_attenuates, resolve-derive}
use agentic_os.Capability.World.{Op, boot, run, step, held}
use agentic_os.Capability.Holding.{WellFormed}
use agentic_os.Capability.History.{AllEmpty, run-boot-WellFormed}
use agentic_os.Capability.Revocation.{use_of, revocation_is_final}

abbrev two_tables : List CapabilityTable
two_tables = [] ∷ [] ∷ []

two_tables-AllEmpty : AllEmpty two_tables
two_tables-AllEmpty zero id c = cc
two_tables-AllEmpty (suc zero) id c = cc
two_tables-AllEmpty (suc (suc p)) id c = cc

-- The rights to read and to pass on.
abbrev share_rights : Rights
share_rights = 516

-- An object is created, granted to process 0 and derived into process 1.
abbrev setup : List Op
setup = Op.creates (file_object 7) ∷ Op.grants 0 0 share_rights ∷ Op.derives 0 0 read_right 1 ∷ []

abbrev later : List Op
later = Op.grants 0 0 share_rights ∷ Op.uses 1 0 read_right ∷ []

abbrev derived : Capability
derived = record { object_id = 0; rights = read_right; generation = 1 }

setup-held : held (run (boot two_tables) setup).tables 1 0 ≡ some derived
unfolding run step create_object grant derive resolve contains
setup-held = refl

revocation_is_final_example :
    use_of (run (step (run (boot two_tables) setup) (Op.revokes 0 false)) later) 1 0 read_right
    ≡ some (err revoked)
revocation_is_final_example =
    revocation_is_final two_tables setup later 0 false 1 0 derived read_right two_tables-AllEmpty
      (omega arith) setup-held refl

abbrev one_object : Kernel
one_object = record {
  objects = record { kind = file_object 7; generation = 1; alive = true } ∷ [];
  audit = empty_log;
  current_tid = 4;
}

abbrev source : Capability
source = record { object_id = 0; rights = share_rights; generation = 1 }

abbrev source_table : CapabilityTable
source_table = some source ∷ []

-- The rights of `source`, as they are and beyond.
source-grants : contains share_rights grant_right ≡ true
unfolding contains
source-grants = refl

source-reads : contains share_rights read_right ≡ true
unfolding contains
source-reads = refl

source-writes : contains share_rights write_right ≡ false
unfolding contains
source-writes = refl

resolve-ok_iff_example :
    (resolve one_object source_table 0 read_right ≡ (one_object, ok source))
    ↔ Grants one_object read_right (slot_of source_table 0) source
resolve-ok_iff_example = resolve-ok_iff one_object source_table 0 read_right source

weak_use : (resolve one_object source_table 0 write_right).1 ≡ err insufficient_rights
unfolding resolve contains
weak_use = refl

resolve_explained_example :
    Explains one_object write_right
      (slot_of source_table 0)
      (resolve one_object source_table 0 write_right).1
resolve_explained_example = resolve_explained one_object source_table 0 write_right

derive_read : (derive one_object source_table 0 read_right []).2 ≡ ok 0
unfolding derive resolve contains
derive_read = refl

derive_attenuates_example :
    (from : Capability) × Grants one_object grant_right (slot_of source_table 0) from
    × Derives read_right [] from (derive one_object source_table 0 read_right []) 0
derive_attenuates_example = derive_attenuates one_object source_table 0 read_right [] 0 derive_read

derive_write : (derive one_object source_table 0 write_right []).2 ≡ err attenuation_violation
unfolding derive resolve contains
derive_write = refl

read-read : contains read_right read_right ≡ true
unfolding contains
read-read = refl

resolve-derive_example :
    let (k, target, _) = derive one_object source_table 0 read_right [] in
    (from : Capability) × (slot_of source_table 0 ≡ some from)
    × ((resolve k target 0 read_right).1 ≡ ok (record from { rights = read_right }))
resolve-derive_example =
    resolve-derive one_object source_table 0 read_right read_right [] 0 (omega arith) read-read
      derive_read

abbrev derived_and_revoked : List Op
derived_and_revoked = setup ++ Op.revokes 0 false ∷ Op.grants 0 0 share_rights ∷ []

-- The capability that was derived, and the one that was granted after the revocation.
both_held :
    (held (run (boot two_tables) derived_and_revoked).tables 1 0 ≡ some derived)
    × (held (run (boot two_tables) derived_and_revoked).tables 0 1
        ≡ some (record { object_id = 0; rights = share_rights; generation = 2 }))
unfolding run step create_object grant derive resolve contains revoke
both_held = (refl, refl)

run-boot-WellFormed_example :
    WellFormed
      (run (boot two_tables) derived_and_revoked).kernel.objects
      (run (boot two_tables) derived_and_revoked).tables
run-boot-WellFormed_example =
    run-boot-WellFormed two_tables derived_and_revoked two_tables-AllEmpty (omega arith)

allows_send : allows send_right ≡ true
unfolding allows agent_max_rights contains
allows_send = refl

agents-write : contains agent_max_rights write_right ≡ false
unfolding agent_max_rights contains
agents-write = refl
