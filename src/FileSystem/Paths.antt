-- ===== src/FileSystem/Paths.antt =====
-- Paths of kernel_common/src/ext2.rs, as bytes: a slash is 47.
use agentic_os.Base.{
  ℕ, zero, suc, List, [], ◌∷◌, Bool, Option, none, some, ◌>>=◌, ◌==◌, if◌then◌else◌, length,
}
use mathlib.Core.List.{reverse}
use agentic_os.FileSystem.Records.{find_dir_entry}

abbrev pub is_slash : ℕ → Bool
is_slash c = c == 47

-- `trim_start_matches('/')`
abbrev pub trim_start : List ℕ → List ℕ
trim_start [] = []
trim_start (c ∷ cs) = if is_slash c then trim_start cs else c ∷ cs

-- `trim_matches('/')`: both ends.
unfoldable pub trim : List ℕ → List ℕ
trim path = reverse (trim_start (reverse (trim_start path)))

-- What is before the first slash, and what starts with it, `none` without one.
abbrev pub split_at_slash : List ℕ → List ℕ × Option (List ℕ)
split_at_slash [] = ([], none)
split_at_slash (c ∷ cs) =
    let (seg, rest) = split_at_slash cs in
    if is_slash c then ([], some (c ∷ cs)) else (c ∷ seg, rest)

-- `PathComponentIterator::new`
unfoldable pub path_components : List ℕ → List ℕ
unfolding trim
path_components path = trim path

-- `PathComponentIterator::next`: the component and the remainder.
unfoldable pub next_component : List ℕ → Option (List ℕ × List ℕ)
next_component [] = none
next_component (c ∷ cs) =
    let (seg, rest) = split_at_slash (c ∷ cs) in
    elim rest [ none ↦ some (seg, []) | some from_slash ↦ some (seg, trim_start from_slash) ]

-- The components in order, with fuel for their number.
unfoldable pub components_from : ℕ → List ℕ → List (List ℕ)
unfolding next_component
components_from zero remainder = []
components_from (suc fuel) remainder =
    let rest = λ (r : List ℕ). components_from fuel r in
    elim (next_component remainder) [ none ↦ [] | some (seg, r) ↦ seg ∷ rest r ]

unfoldable pub components : List ℕ → List (List ℕ)
unfolding components_from path_components
components path = components_from (length (path_components path)) (path_components path)

-- `split_parent_and_basename`: at the last slash, searched for from the end.
unfoldable pub split_parent_and_basename : List ℕ → List ℕ × List ℕ
unfolding trim
split_parent_and_basename path =
    let trimmed = trim path in
    let (leaf, before) = split_at_slash (reverse trimmed) in
    elim before [
      | none ↦ ([], trimmed)
      | some [] ↦ ([], trimmed)
      | some (slash ∷ parent) ↦ (reverse parent, reverse leaf)
    ]

-- The loop of `resolve_path`: directories have type 2; `read_dir_block` gives the block of a directory
-- or fails. The outer `none` is a panic.
unfoldable pub resolve_from :
    (ℕ → Option (List ℕ)) → ℕ → ℕ → List (List ℕ) → Option (Option (ℕ × ℕ))
resolve_from read_dir_block cur_inode cur_type [] = some (some (cur_inode, cur_type))
resolve_from read_dir_block cur_inode cur_type (seg ∷ segs) =
    let deeper = λ (inode type : ℕ). resolve_from read_dir_block inode type segs in
    if cur_type == 2
    then elim (read_dir_block cur_inode) [
      | none ↦ some none
      | some buf ↦ find_dir_entry buf seg >>= λ found. elim found [
        | none ↦ some none
        | some (inode, type) ↦ deeper inode type
      ]
    ]
    else some none

unfoldable pub resolve_path : (ℕ → Option (List ℕ)) → List ℕ → ℕ → Option (Option (ℕ × ℕ))
unfolding resolve_from components
resolve_path read_dir_block path start_inode =
    resolve_from read_dir_block start_inode 2 (components path)
