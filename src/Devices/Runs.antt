-- ===== src/Devices/Runs.antt =====
-- Runs of the device manager, kernel_rs/src/device_manager.rs: the restarts that are granted over
-- any sequence of calls.
use agentic_os.Base.{
  ℕ, ◌+◌, ◌≤◌, ◌<◌, ◌≡◌, refl, inl, inr, List, [], ◌∷◌, Bool, true, Option, arith, Option-cases,
  ◌==◌, ◌&&◌, if◌then◌else◌,
}
use agentic_os.Audit.{AuditLog}
use agentic_os.Devices.{
  PciDevice, ManagedDevice, DriverKind, discover, bind_all, find_mut, mark_running, report_crash,
  register_synthetic, max_restarts,
}
use agentic_os.Devices.Budget.{
  restarts_at, restarts_at-discover, restarts_at-bind_all, restarts_at-mark_running,
  restarts_at-append, restarts_at-same, crash_found,
}

-- A call of the device manager.
pub data Op : Type 0 where
  discover_devices : List PciDevice → Op
  bind_devices : Op
  start : (b d f : ℕ) → Op
  crash : (tid b d f : ℕ) → Option ℕ → Op
  add_synthetic : (b d f : ℕ) → DriverKind → Op

pub record Manager : Type 0 where
  pub devices : List ManagedDevice
  pub log : AuditLog

unfoldable pub step : Op → Manager → Manager
step (discover_devices found) m = record m { devices = discover m.devices found }
step bind_devices m = record m { devices = bind_all m.devices }
step (start b d f) m = record m { devices = mark_running m.devices b d f }
step (crash tid b d f vector) m =
    let (devices, log, approved) = report_crash m.devices m.log tid b d f vector in
    record { devices = devices; log = log }
step (add_synthetic b d f kind) m = record m { devices = register_synthetic m.devices b d f kind }

-- One if the call is a crash of the device at this address that is answered by a restart.
unfoldable pub approval : ℕ → ℕ → ℕ → Op → Manager → ℕ
approval b d f (crash tid b' d' f' vector) m =
    let (devices, log, approved) = report_crash m.devices m.log tid b' d' f' vector in
    if approved && (b' == b && d' == d && f' == f) then 1 else 0
approval b d f (discover_devices found) m = 0
approval b d f bind_devices m = 0
approval b d f (start b' d' f') m = 0
approval b d f (add_synthetic b' d' f' kind) m = 0

unfoldable pub run : List Op → Manager → Manager
run [] m = m
run (op ∷ ops) m = run ops (step op m)

-- The restarts of one device that a run grants.
unfoldable pub approvals : ℕ → ℕ → ℕ → List Op → Manager → ℕ
approvals b d f [] m = 0
approvals b d f (op ∷ ops) m = approval b d f op m + approvals b d f ops (step op m)

-- No device has used more than its budget.
abbrev pub WithinBudget : Manager → Type 0
WithinBudget m = (b d f : ℕ) → restarts_at m.devices b d f ≤ max_restarts

crash-restarts :
    (devices : List ManagedDevice) (log : AuditLog) (tid b d f : ℕ) (vector : Option ℕ)
    (b' d' f' : ℕ)
    → let (after, log', approved) = report_crash devices log tid b d f vector in
      (restarts_at after b' d' f'
        ≡ restarts_at devices b' d' f'
          + (if approved && (b == b' && d == d' && f == f') then 1 else 0))
      × (approved ≡ true → restarts_at devices b d f < max_restarts)
unfolding report_crash restarts_at
crash-restarts devices log tid b d f vector b' d' f' =
    elim (Option-cases (find_mut devices b d f)) [
      | inl e ↦ rw (report_crash, e) (omega arith, λ h. ground arith)
      | inr (dev, e) ↦
          rw (report_crash, e) (crash_found devices log tid b d f vector dev b' d' f' e)
    ]

restarts_at-register_synthetic :
    (devices : List ManagedDevice) (b d f : ℕ) (kind : DriverKind) (b' d' f' : ℕ)
    → restarts_at (register_synthetic devices b d f kind) b' d' f' ≡ restarts_at devices b' d' f'
unfolding register_synthetic restarts_at
restarts_at-register_synthetic devices b d f kind b' d' f' =
    elim (Option-cases (find_mut devices b d f)) [
      | inl e ↦ rw (register_synthetic, e) (restarts_at-append devices _ b' d' f' refl)
      | inr (dev, e) ↦ rw (register_synthetic, e) refl
    ]

step-restarts :
    (op : Op) (m : Manager) (b d f : ℕ)
    → restarts_at ((step op m).devices) b d f ≡ restarts_at m.devices b d f + approval b d f op m
unfolding step approval
step-restarts (discover_devices found) m b d f =
    omega (arith, restarts_at-discover found m.devices b d f)
step-restarts bind_devices m b d f = omega (arith, restarts_at-bind_all m.devices b d f)
step-restarts (start b' d' f') m b d f =
    omega (arith, restarts_at-mark_running m.devices b' d' f' b d f)
step-restarts (crash tid b' d' f' vector) m b d f =
    (crash-restarts m.devices m.log tid b' d' f' vector b d f).0
step-restarts (add_synthetic b' d' f' kind) m b d f =
    omega (arith, restarts_at-register_synthetic m.devices b' d' f' kind b d f)

-- A restart is only granted to a device with budget left.
granted_within :
    (n : ℕ) (approved same : Bool)
    → n ≤ max_restarts
    → ((approved && same) ≡ true → n < max_restarts)
    → n + (if approved && same then 1 else 0) ≤ max_restarts
granted_within n approved same h left = ground arith

and_left : (x y : Bool) → (x && y) ≡ true → x ≡ true
and_left x y h = ground arith

and_right : (x y : Bool) → (x && y) ≡ true → y ≡ true
and_right x y h = ground arith

step-WithinBudget : (op : Op) (m : Manager) → WithinBudget m → WithinBudget (step op m)
unfolding approval
step-WithinBudget (crash tid b' d' f' vector) m w b d f =
    let (devices, log, approved) = report_crash m.devices m.log tid b' d' f' vector in
    omega (
      arith,
      step-restarts (crash tid b' d' f' vector) m b d f,
      granted_within (restarts_at m.devices b d f) approved (b' == b && d' == d && f' == f)
          (w b d f)
          (λ h. omega (
            arith,
            restarts_at-same m.devices b' d' f' b d f (and_right approved _ h),
            (crash-restarts m.devices m.log tid b' d' f' vector b d f).1 (and_left approved _ h),
          )),
    )
step-WithinBudget (discover_devices found) m w b d f =
    omega (arith, step-restarts (discover_devices found) m b d f, w b d f)
step-WithinBudget bind_devices m w b d f =
    omega (arith, step-restarts bind_devices m b d f, w b d f)
step-WithinBudget (start b' d' f') m w b d f =
    omega (arith, step-restarts (start b' d' f') m b d f, w b d f)
step-WithinBudget (add_synthetic b' d' f' kind) m w b d f =
    omega (arith, step-restarts (add_synthetic b' d' f' kind) m b d f, w b d f)

-- From a state in which no device has used more than its budget, over any sequence of calls and
-- for every device address: the restarts granted, with those used before, are those used in the
-- end, and they are at most 3.
pub restart_budget :
    (ops : List Op) (m : Manager) (b d f : ℕ)
    → WithinBudget m
    → (approvals b d f ops m + restarts_at m.devices b d f
        ≡ restarts_at ((run ops m).devices) b d f)
      × (restarts_at ((run ops m).devices) b d f ≤ max_restarts)
unfolding approvals run
restart_budget [] m b d f w = (omega arith, w b d f)
restart_budget (op ∷ ops) m b d f w =
    let (total, bound) = restart_budget ops (step op m) b d f (step-WithinBudget op m w) in
    (omega (arith, total, step-restarts op m b d f), bound)
