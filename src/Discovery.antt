-- ===== src/Discovery.antt =====
-- What the kernel learns of the hardware: the driver table of
-- kernel_common/src/driver_registry.rs and the processors of kernel_common/src/madt.rs. An output
-- slice is modelled by its length `room` and the entries written to its front, in order.
pub mod Matching
pub mod Processors
mod Tests
use agentic_os.Base.{
  ℕ, zero, suc, ◌+◌, ◌-◌, ◌*◌, List, [], ◌∷◌, Bool, true, false, not, ◌&&◌, Option, none, some, ltb,
  leb, ◌==◌, if◌then◌else◌, ◌>>=◌, length, get_elem?, bit_and,
}

pub record PciId : Type 0 where
  pub bus : ℕ
  pub device_slot : ℕ
  pub function : ℕ
  pub vendor : ℕ
  pub device : ℕ
  pub class : ℕ
  pub subclass : ℕ
  pub prog_if : ℕ

pub data MatchRule : Type 0 where
  vendor_device : (vendor device : ℕ) → MatchRule
  class_triple : (class subclass prog_if : ℕ) → MatchRule

-- `MatchRule::matches`
unfoldable pub matches : MatchRule → PciId → Bool
matches (vendor_device v d) id = id.vendor == v && id.device == d
matches (class_triple c s p) id = id.class == c && id.subclass == s && id.prog_if == p

-- `DriverEntry`, without the name that only logs use.
pub record DriverEntry {ℓ} (T : Type ℓ) : Type ℓ where
  pub rule : MatchRule
  pub handler : T

-- The inner loop of `match_all`: the handler of the first rule that matches.
unfoldable pub first_match {ℓ} : {T : Type ℓ} → List (DriverEntry T) → PciId → Option T
first_match [] dev = none
first_match (entry ∷ table) dev =
    let rest = first_match table dev in if matches entry.rule dev then some entry.handler else rest

-- `match_all`: with no room left nothing more is written, which is its `break`.
unfoldable pub match_all {ℓ} :
    {T : Type ℓ} → List PciId → List (DriverEntry T) → ℕ → List (PciId × T)
match_all [] table room = []
match_all (dev ∷ devices) table zero = []
match_all (dev ∷ devices) table (suc room) =
    let unmatched = match_all devices table (suc room) in
    let matched = match_all devices table room in
    elim (first_match table dev) [ none ↦ unmatched | some handler ↦ (dev, handler) ∷ matched ]

pub record CpuEntry : Type 0 where
  pub apic_id : ℕ
  pub processor_uid : ℕ
  pub enabled : Bool

-- `u32::from_le_bytes` of the four bytes from index `i`.
abbrev pub read_u32 : List ℕ → ℕ → Option ℕ
read_u32 body i = get_elem? body i >>= λ b0. get_elem? body (i + 1) >>= λ b1.
    get_elem? body (i + 2) >>= λ b2.
    get_elem? body (i + 3) >>= λ b3. some (b0 + 256 * b1 + 65536 * b2 + 16777216 * b3)

abbrev pub is_enabled : ℕ → Bool
is_enabled flags = not (bit_and flags 1 == 0)

-- The arm of `TYPE_LOCAL_APIC`.
pub local_apic : List ℕ → ℕ → Option CpuEntry
local_apic body i = get_elem? body (i + 2) >>= λ processor_uid.
    get_elem? body (i + 3) >>= λ apic_id. read_u32 body (i + 4) >>= λ flags.
    some (record { apic_id = apic_id; processor_uid = processor_uid; enabled = is_enabled flags })

-- The arm of `TYPE_LOCAL_X2APIC`.
pub local_x2apic : List ℕ → ℕ → Option CpuEntry
local_x2apic body i = read_u32 body (i + 4) >>= λ apic_id. read_u32 body (i + 8) >>= λ flags.
    read_u32 body (i + 12) >>= λ processor_uid.
    some (record { apic_id = apic_id; processor_uid = processor_uid; enabled = is_enabled flags })

-- The `match` on the entry type: the entry to write, if any. `none` is an index out of bounds.
unfoldable pub decode_entry : List ℕ → ℕ → ℕ → ℕ → Option (Option CpuEntry)
unfolding local_apic local_x2apic
decode_entry body i entry_type entry_len =
    if entry_type == 0 && leb 8 entry_len
    then (local_apic body i >>= λ cpu. some (some cpu))
    else if entry_type == 9 && leb 16 entry_len
    then (local_x2apic body i >>= λ cpu. some (some cpu))
    else some none

-- The entry written, if any, before those that the rest of the walk writes.
pub written : Option CpuEntry → List CpuEntry → List CpuEntry
written none later = later
written (some cpu) later = cpu ∷ later

-- The room left after a step of the walk.
pub room_after : Option CpuEntry → ℕ → ℕ
room_after none room = room
room_after (some cpu) room = room - 1

-- The loop of `parse_cpus` from index `i`, with fuel for its rounds. `none` is a panic or the end
-- of the fuel.
unfoldable pub walk : ℕ → List ℕ → ℕ → ℕ → Option (List CpuEntry)
unfolding decode_entry written room_after
walk zero body i room = none
walk (suc fuel) body i room =
    let later = λ (next : ℕ) (left : ℕ). walk fuel body next left in
    if leb (i + 2) (length body) && ltb 0 room
    then (get_elem? body i >>= λ entry_type. get_elem? body (i + 1) >>= λ entry_len.
        if ltb entry_len 2
        then some []
        else if ltb (length body) (i + entry_len)
        then some []
        else (decode_entry body i entry_type entry_len >>= λ found.
            later (i + entry_len) (room_after found room) >>= λ rest. some (written found rest)))
    else some []

-- `parse_cpus`: each round moves on by two bytes at least.
unfoldable pub parse_cpus : List ℕ → ℕ → Option (List CpuEntry)
parse_cpus body room = if ltb (length body) 8 then some [] else walk (length body) body 8 room
