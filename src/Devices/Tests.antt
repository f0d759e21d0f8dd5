-- ===== src/Devices/Tests.antt =====
-- The device manager's theorems at concrete inputs.
use agentic_os.Base.{◌+◌, ◌≤◌, ◌≡◌, List, [], ◌∷◌, none, some, arith}
use agentic_os.Audit.{empty_log}
use agentic_os.Devices.{find_mut, compositor, max_restarts}
use agentic_os.Devices.Budget.{restarts_at}
use agentic_os.Devices.Runs.{
  Op, Manager, run, approvals, WithinBudget, restart_budget, add_synthetic, crash, start,
}

abbrev no_devices : Manager
no_devices = record { devices = []; log = empty_log }

no_devices-WithinBudget : WithinBudget no_devices
unfolding restarts_at find_mut
no_devices-WithinBudget b d f = omega arith

abbrev crashes : List Op
crashes =
    add_synthetic 254 0 0 compositor
    ∷ crash 9 254 0 0 (some 14)
    ∷ start 254 0 0
    ∷ crash 9 254 0 0 none
    ∷ []

restart_budget_example :
    (approvals 254 0 0 crashes no_devices + restarts_at no_devices.devices 254 0 0
      ≡ restarts_at ((run crashes no_devices).devices) 254 0 0)
    × (restarts_at ((run crashes no_devices).devices) 254 0 0 ≤ max_restarts)
restart_budget_example = restart_budget crashes no_devices 254 0 0 no_devices-WithinBudget
