-- ===== src/Capability/Files.antt =====
-- The searches for file capabilities of kernel_rs/src/capability.rs. `resolve` records a refusal,
-- so the kernel is passed through the loops.
use agentic_os.Base.{
  ℕ, ◌+◌, List, [], ◌∷◌, Bool, true, false, ◌&&◌, Option, none, some, Result, ok, err, ◌==◌,
  if◌then◌else◌, u32,
}
use agentic_os.Capability.RightsMask.{Rights, contains}
use agentic_os.Capability.{
  Kernel, KernelObjectKind, Capability, CapabilityTable, CapError, file_object, object_kind,
  resolve,
}

-- The test of the object's kind in `find_file_capability`.
pub is_file_at : Option KernelObjectKind → ℕ → Bool
is_file_at (some (file_object obj_inode)) inode = obj_inode == inode
is_file_at _ inode = false

-- The test of the object's kind in `has_any_file_capability`.
pub is_file : Option KernelObjectKind → Bool
is_file (some (file_object obj_inode)) = true
is_file _ = false

-- `is_ok`
pub is_ok : Result CapError Capability → Bool
is_ok (ok c) = true
is_ok (err e) = false

-- The loop of `find_file_capability` at slot `i`, with the slots from there on.
unfoldable pub find_from :
    Kernel → CapabilityTable → ℕ → Rights → ℕ → List (Option Capability) → Kernel × Option ℕ
unfolding is_file_at is_ok
find_from k table inode required i [] = (k, none)
find_from k table inode required i (none ∷ slots) = find_from k table inode required (i + 1) slots
find_from k table inode required i (some cap ∷ slots) =
    let (resolved, result) = resolve k table (u32 i) required in
    let skipped = find_from k table inode required (i + 1) slots in
    let refused = find_from resolved table inode required (i + 1) slots in
    if contains cap.rights required && is_file_at (object_kind k cap.object_id) inode
    then if is_ok result then (resolved, some (u32 i)) else refused
    else skipped

-- `find_file_capability`
unfoldable pub find_file_capability : Kernel → CapabilityTable → ℕ → Rights → Kernel × Option ℕ
find_file_capability k table inode required = find_from k table inode required 0 table

-- The loop of `has_any_file_capability` at slot `i`, with the slots from there on.
unfoldable pub any_file_from :
    Kernel → CapabilityTable → Rights → ℕ → List (Option Capability) → Kernel × Bool
unfolding is_file is_ok
any_file_from k table required i [] = (k, false)
any_file_from k table required i (none ∷ slots) = any_file_from k table required (i + 1) slots
any_file_from k table required i (some cap ∷ slots) =
    let (resolved, result) = resolve k table (u32 i) required in
    let skipped = any_file_from k table required (i + 1) slots in
    let refused = any_file_from resolved table required (i + 1) slots in
    if contains cap.rights required && is_file (object_kind k cap.object_id)
    then if is_ok result then (resolved, true) else refused
    else skipped

-- `has_any_file_capability`
unfoldable pub has_any_file_capability : Kernel → CapabilityTable → Rights → Kernel × Bool
has_any_file_capability k table required = any_file_from k table required 0 table
