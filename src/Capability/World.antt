-- ===== src/Capability/World.antt =====
-- A system of processes that use the operations of kernel_rs/src/capability.rs in any order: the
-- kernel and one capability table for each process.
use agentic_os.Base.{ℕ, List, [], ◌∷◌, Bool, Option, none, some, get_elem?, set, ◌>>=◌}
use agentic_os.Audit.{empty_log}
use agentic_os.Capability.RightsMask.{Rights}
use agentic_os.Capability.{
  Kernel, KernelObjectKind, Capability, CapabilityTable, create_object, revoke, grant, resolve,
  derive, DeriveResult, slot_of,
}

pub record World : Type 0 where
  pub kernel : Kernel
  pub tables : List CapabilityTable

-- What can happen: the thread `tid` runs; an object is created, granted to a process, derived from
-- one process's slot into a process's table, used, or revoked.
pub data Op : Type 0 where
  runs : ℕ → Op
  creates : KernelObjectKind → Op
  grants : ℕ → ℕ → Rights → Op
  derives : ℕ → ℕ → Rights → ℕ → Op
  uses : ℕ → ℕ → Rights → Op
  revokes : ℕ → Bool → Op

abbrev pub with_table : World → ℕ → Kernel × CapabilityTable × ℕ → World
with_table w p (k, t, id) = record { kernel = k; tables = set w.tables p t }

abbrev pub with_target : World → ℕ → DeriveResult → World
with_target w q (k, t, r) = record { kernel = k; tables = set w.tables q t }

unfoldable pub grant_in : World → ℕ → ℕ → Rights → Option CapabilityTable → World
grant_in w p id rights none = w
grant_in w p id rights (some t) = with_table w p (grant w.kernel t id rights)

unfoldable pub derive_in :
    World → ℕ → Rights → ℕ → Option CapabilityTable → Option CapabilityTable → World
derive_in w id rights q none target = w
derive_in w id rights q (some t) none = w
derive_in w id rights q (some t) (some target) =
    with_target w q (derive w.kernel t id rights target)

unfoldable pub use_in : World → ℕ → Rights → Option CapabilityTable → World
use_in w id rights none = w
use_in w id rights (some t) = record w { kernel = (resolve w.kernel t id rights).0 }

unfoldable pub step : World → Op → World
unfolding grant_in derive_in use_in
step w (Op.runs tid) = let k = w.kernel in record w { kernel = record k { current_tid = tid } }
step w (Op.creates kind) = record w { kernel = (create_object w.kernel kind).0 }
step w (Op.grants p id rights) = grant_in w p id rights (get_elem? w.tables p)
step w (Op.derives p id rights q) =
    derive_in w id rights q (get_elem? w.tables p) (get_elem? w.tables q)
step w (Op.uses p id rights) = use_in w id rights (get_elem? w.tables p)
step w (Op.revokes id destroy) = record w { kernel = revoke w.kernel id destroy }

unfoldable pub run : World → List Op → World
run w [] = w
run w (op ∷ ops) = run (step w op) ops

-- No object exists, and `tables` are empty.
abbrev pub boot : List CapabilityTable → World
boot tables = record {
  kernel = record { objects = []; audit = empty_log; current_tid = 0 };
  tables = tables;
}

-- The capability in slot `id` of process `p`.
abbrev pub held : List CapabilityTable → ℕ → ℕ → Option Capability
held tables p id = get_elem? tables p >>= λ t. slot_of t id
