-- ===== src/Devices.antt =====
-- The device manager, kernel_rs/src/device_manager.rs, and the restart policy that it asks,
-- kernel_common/src/supervision.rs. Each operation runs under the kernel's lock; `tid` is the
-- current thread, which the audit log records.
pub mod Bdf
pub mod Budget
pub mod Runs
mod Tests
use agentic_os.Base.{
  ℕ, zero, suc, ◌+◌, ◌/◌, ◌*◌, ◌%◌, ◌^◌, List, [], ◌∷◌, ◌++◌, Bool, true, false, ◌&&◌, ◌||◌, Option,
  none, some, leb, ◌==◌, if◌then◌else◌, u8, u32, bit_or, bit_and,
}
use agentic_os.Audit.{AuditLog, AuditEvent, record_event}

-- `pack_bdf`
unfoldable pub pack_bdf : ℕ → ℕ → ℕ → ℕ
pack_bdf bus device function = bit_or (bit_or (u32 (bus * 2 ^ 16)) (u32 (device * 2 ^ 8))) function

-- `unpack_bdf`
unfoldable pub unpack_bdf : ℕ → ℕ × ℕ × ℕ
unpack_bdf packed = (
  u8 (bit_and (packed / 2 ^ 16) 0xFF),
  u8 (bit_and (packed / 2 ^ 8) 0xFF),
  u8 (bit_and packed 0xFF),
)

pub data RestartDecision : Type 0 where
  restart : (attempt : ℕ) → RestartDecision
  quarantine : RestartDecision

-- `decide_restart`
unfoldable pub decide_restart : ℕ → ℕ → RestartDecision
decide_restart prior_restart_count max_restarts =
    if leb max_restarts prior_restart_count
    then quarantine
    else restart (u32 (prior_restart_count + 1))

abbrev pub max_restarts : ℕ
max_restarts = 3

pub data DeviceState : Type 0 where
  discovered bound running crashed restarting failed : DeviceState

pub data DriverKind : Type 0 where
  host_bridge isa_bridge ahci_controller vga_controller sm_bus_controller unknown compositor :
      DriverKind

-- `PciDevice` of kernel_rs/src/pci.rs
pub record PciDevice : Type 0 where
  pub bus : ℕ
  pub device : ℕ
  pub function : ℕ
  pub vendor_id : ℕ
  pub device_id : ℕ
  pub class : ℕ
  pub subclass : ℕ
  pub prog_if : ℕ
  pub header_type : ℕ

pub record ManagedDevice : Type 0 where
  pub pci : PciDevice
  pub open pci use *
  pub driver_kind : DriverKind
  pub state : DeviceState
  pub restart_count : ℕ

-- `classify`, its arms in their order.
unfoldable pub classify : PciDevice → DriverKind
classify d =
    if d.class == 0x06 && d.subclass == 0x00
    then host_bridge
    else if d.class == 0x06 && d.subclass == 0x01
    then isa_bridge
    else if d.class == 0x01 && d.subclass == 0x06 && d.prog_if == 0x01
    then ahci_controller
    else if d.class == 0x03 && d.subclass == 0x00
    then vga_controller
    else if d.class == 0x0C && d.subclass == 0x05
    then sm_bus_controller
    else unknown

-- `discover`
unfoldable pub discover : List ManagedDevice → List PciDevice → List ManagedDevice
discover devices [] = devices
discover devices (d ∷ found) =
    discover
      (devices
        ++ record { pci = d; driver_kind = classify d; state = discovered; restart_count = 0 } ∷ [])
      found

-- The body of the loop of `bind_all`.
pub bind : ManagedDevice → ManagedDevice
bind dev = elim (dev.driver_kind) [ unknown ↦ dev | _ ↦ record dev { state = bound } ]

-- `bind_all`
unfoldable pub bind_all : List ManagedDevice → List ManagedDevice
unfolding bind
bind_all [] = []
bind_all (dev ∷ devices) = bind dev ∷ bind_all devices

-- The test of `find_mut`.
abbrev pub is_at : ℕ → ℕ → ℕ → ManagedDevice → Bool
is_at b d f dev = dev.bus == b && dev.device == d && dev.function == f

-- `find_mut`
unfoldable pub find_mut : List ManagedDevice → ℕ → ℕ → ℕ → Option ManagedDevice
find_mut [] b d f = none
find_mut (dev ∷ devices) b d f =
    let rest = find_mut devices b d f in if is_at b d f dev then some dev else rest

-- A write through the reference that `find_mut` returned.
unfoldable pub put_device : List ManagedDevice → ℕ → ℕ → ℕ → ManagedDevice → List ManagedDevice
put_device [] b d f new = []
put_device (dev ∷ devices) b d f new =
    let rest = put_device devices b d f new in if is_at b d f dev then new ∷ devices else dev ∷ rest

-- The states from which `mark_running` starts a device.
pub can_run : DeviceState → Bool
can_run bound = true
can_run restarting = true
can_run discovered = false
can_run running = false
can_run crashed = false
can_run failed = false

-- `mark_running`
unfoldable pub mark_running : List ManagedDevice → ℕ → ℕ → ℕ → List ManagedDevice
unfolding can_run
mark_running devices b d f = elim (find_mut devices b d f) [
  | none ↦ devices
  | some dev ↦
      if can_run (dev.state)
      then put_device devices b d f (record dev { state = running })
      else devices
]

-- A device after a crash, with the decision taken: what is written back, the audit records, and
-- whether a restart is scheduled.
pub crashed_with : ManagedDevice → RestartDecision → ManagedDevice
crashed_with dev quarantine = record dev { state = failed }
crashed_with dev (restart attempt) = record dev { state = restarting; restart_count = attempt }

pub decision_event : ℕ → RestartDecision → AuditEvent
decision_event bdf quarantine = AuditEvent.process_quarantined bdf
decision_event bdf (restart attempt) = AuditEvent.process_restarted bdf attempt

pub is_restart : RestartDecision → Bool
is_restart quarantine = false
is_restart (restart attempt) = true

-- `fault_vector.unwrap_or(0xFF)`
pub vector_or_none : Option ℕ → ℕ
vector_or_none none = 0xFF
vector_or_none (some v) = v

-- `report_crash` at the device that was found.
pub report_found :
    List ManagedDevice
    → AuditLog
    → ℕ
    → ℕ
    → ℕ
    → ℕ
    → Option ℕ
    → ManagedDevice
    → List ManagedDevice × AuditLog × Bool
unfolding crashed_with decision_event is_restart vector_or_none
report_found devices log tid b d f vector dev =
    let bdf = pack_bdf b d f in
    let decision = decide_restart (dev.restart_count) max_restarts in
    (
      put_device devices b d f (crashed_with dev decision),
      record_event (record_event log tid (AuditEvent.process_crashed bdf (vector_or_none vector)))
          tid (decision_event bdf decision),
      is_restart decision,
    )

-- `report_crash`
unfoldable pub report_crash :
    List ManagedDevice → AuditLog → ℕ → ℕ → ℕ → ℕ → Option ℕ → List ManagedDevice × AuditLog × Bool
unfolding report_found
report_crash devices log tid b d f vector = elim (find_mut devices b d f) [
  | none ↦ (devices, log, false)
  | some dev ↦ report_found devices log tid b d f vector dev
]

-- `register_synthetic`
unfoldable pub register_synthetic : List ManagedDevice → ℕ → ℕ → ℕ → DriverKind → List ManagedDevice
register_synthetic devices b d f kind = elim (find_mut devices b d f) [
  | some dev ↦ devices
  | none ↦ devices ++ synthetic ∷ []
]
  where
    synthetic : ManagedDevice
    synthetic = record {
      pci = record {
        bus = b;
        device = d;
        function = f;
        vendor_id = 0;
        device_id = 0;
        class = 0;
        subclass = 0;
        prog_if = 0;
        header_type = 0;
      };
      driver_kind = kind;
      state = running;
      restart_count = 0;
    }
