-- ===== src/Supervisor.antt =====
-- The supervisor, kernel_rs/src/supervisor.rs: which thread drives which device, and what happens
-- when such a thread is killed. The body of `respawn`, a function pointer, is a parameter that acts
-- on the whole state. Each call is one step.
use agentic_os.Base.{
  ℕ, List, [], ◌∷◌, ◌++◌, Bool, true, false, ◌&&◌, Option, none, some, ◌==◌, if◌then◌else◌,
}
use agentic_os.Audit.{AuditLog}
use agentic_os.Devices.{ManagedDevice, report_crash, mark_running}

-- `respawn` is the number of the spawn function.
pub record SupervisedDriver : Type 0 where
  pub bus : ℕ
  pub device : ℕ
  pub function : ℕ
  pub respawn : ℕ
  pub owner_thread : ℕ

-- `REGISTRY`, with the device manager and the audit log that the supervisor drives.
pub record Supervised : Type 0 where
  pub registry : List SupervisedDriver
  pub devices : List ManagedDevice
  pub log : AuditLog

-- The test of the searches by address.
abbrev pub drives : ℕ → ℕ → ℕ → SupervisedDriver → Bool
drives b d f driver = driver.bus == b && driver.device == d && driver.function == f

-- `iter().any(…)` of `register`.
unfoldable pub is_registered : List SupervisedDriver → ℕ → ℕ → ℕ → Bool
is_registered [] b d f = false
is_registered (driver ∷ drivers) b d f =
    let rest = is_registered drivers b d f in if drives b d f driver then true else rest

-- `register`
unfoldable pub register : Supervised → ℕ → ℕ → ℕ → ℕ → Supervised
register s b d f respawn = if is_registered s.registry b d f then s else record s {
  registry =
      s.registry
      ++ record { bus = b; device = d; function = f; respawn = respawn; owner_thread = 0 } ∷ [];
}

-- The write to the first driver at the address in `mark_thread_owner`.
unfoldable pub set_owner : List SupervisedDriver → ℕ → ℕ → ℕ → ℕ → List SupervisedDriver
set_owner [] b d f tid = []
set_owner (driver ∷ drivers) b d f tid =
    let rest = set_owner drivers b d f tid in
    if drives b d f driver then record driver { owner_thread = tid } ∷ drivers else driver ∷ rest

-- `mark_thread_owner` by the current thread.
unfoldable pub mark_thread_owner : Supervised → ℕ → ℕ → ℕ → ℕ → Supervised
mark_thread_owner s tid b d f = record s { registry = set_owner s.registry b d f tid }

-- The search of `on_process_killed`.
unfoldable pub owned_by : List SupervisedDriver → ℕ → Option SupervisedDriver
owned_by [] tid = none
owned_by (driver ∷ drivers) tid =
    let rest = owned_by drivers tid in if driver.owner_thread == tid then some driver else rest

module _ (respawned : ℕ → Supervised → Supervised) where
  -- A restart that was approved: the spawn function runs, then the device is marked as running.
  pub restarted : Supervised → SupervisedDriver → Supervised
  restarted s driver =
      let after = respawned driver.respawn s in
      record after { devices = mark_running after.devices driver.bus driver.device driver.function }

  -- `on_process_killed` at the driver that was found.
  pub killed_driver : Supervised → ℕ → ℕ → SupervisedDriver → Supervised
  unfolding restarted
  killed_driver s tid fault_vector driver =
      let (devices, log, approved) =
        report_crash s.devices s.log tid driver.bus driver.device driver.function
          (some fault_vector) in
      let reported = record s { devices = devices; log = log } in
      if approved then restarted reported driver else reported

  -- `on_process_killed` for the current thread.
  unfoldable pub on_process_killed : Supervised → ℕ → ℕ → Supervised
  unfolding killed_driver
  on_process_killed s tid fault_vector = elim (owned_by s.registry tid) [
    | none ↦ s
    | some driver ↦ killed_driver s tid fault_vector driver
  ]
