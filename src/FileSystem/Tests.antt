-- ===== src/FileSystem/Tests.antt =====
-- Runs of the definitions of kernel_common/src/ext2.rs, and examples of the theorems about them.
use agentic_os.FileSystem.Directory.{add_dir_entry, remove_dir_entry}
use agentic_os.FileSystem.Paths.{components, split_parent_and_basename}
use agentic_os.FileSystem.Builders.{
  write_file_inode, build_file_data_block, read_file_inode_size, read_file_data,
}
use agentic_os.FileSystem.Bounds.{add_dir_entry-total, remove_dir_entry-total}
use agentic_os.FileSystem.Parents.{split_parent_and_basename_lem}
use agentic_os.FileSystem.Parts.{word_then, parts, components_lem}
use agentic_os.FileSystem.FileData.{read_file_data-build}
use agentic_os.Base.{
  ℕ, ◌+◌, ◌-◌, ◌≡◌, refl, min, List, [], ◌∷◌, ◌++◌, Bool, Option, some, length, take, arith,
}
use agentic_os.Bitmap.Laws.{IsBytes}
use agentic_os.FileSystem.{block_size, alloc_from, alloc_block}
use agentic_os.FileSystem.Records.{zeros}
use agentic_os.FileSystem.Allocation.{Allocates, alloc_block_lem}

-- Blocks 1 to 11 and inodes 1 to 11 are in use.
abbrev bitmap : List ℕ
bitmap = 255 ∷ 7 ∷ 0 ∷ []

bitmap-IsBytes : IsBytes bitmap
bitmap-IsBytes = (omega arith, (omega arith, (omega arith, tt)))

alloc_block_example : Allocates bitmap 11 (24 + 1 - 11) (alloc_block bitmap 24)
alloc_block_example = alloc_block_lem bitmap 24 bitmap-IsBytes

twelve : alloc_block bitmap 24 ≡ (255 ∷ 15 ∷ 0 ∷ [], some 12)
unfolding alloc_block alloc_from
twelve = refl

-- A block of zeros, whose first entry is malformed.
abbrev zero_block : List ℕ
zero_block = zeros 1024

add_dir_entry-total_example :
    (r : List ℕ × Bool) × (add_dir_entry zero_block 12 1 (97 ∷ []) ≡ some r)
    × (length r.0 ≡ length zero_block)
add_dir_entry-total_example = add_dir_entry-total zero_block 12 1 (97 ∷ []) refl

remove_dir_entry-total_example :
    (r : List ℕ × Option ℕ) × (remove_dir_entry zero_block (97 ∷ []) ≡ some r)
    × (length r.0 ≡ length zero_block)
remove_dir_entry-total_example = remove_dir_entry-total zero_block (97 ∷ []) refl

read_file_data-build_example :
    (table' block' : List ℕ) × (write_file_inode zero_block 3 ≡ some table')
    × (build_file_data_block zero_block (72 ∷ 105 ∷ 33 ∷ []) ≡ some (block', min 3 block_size))
    × (read_file_inode_size table' ≡ some 3)
    × (read_file_data table' block' 2 ≡ some (take (min (min 3 block_size) 2) (72 ∷ 105 ∷ 33 ∷ [])))
read_file_data-build_example =
    read_file_data-build zero_block zero_block (72 ∷ 105 ∷ 33 ∷ []) 2 (omega arith) refl
      (omega arith)

-- "/a//bc/" has the components "a" and "bc"; its parent is "a/".
path_test :
    (components (47 ∷ 97 ∷ 47 ∷ 47 ∷ 98 ∷ 99 ∷ 47 ∷ []) ≡ (97 ∷ []) ∷ (98 ∷ 99 ∷ []) ∷ [])
    × (split_parent_and_basename (47 ∷ 97 ∷ 47 ∷ 47 ∷ 98 ∷ 99 ∷ 47 ∷ [])
        ≡ (97 ∷ 47 ∷ [], 98 ∷ 99 ∷ []))
unfolding components split_parent_and_basename
path_test = (refl, refl)

components_example :
    components (47 ∷ 97 ∷ 47 ∷ 47 ∷ 98 ∷ []) ≡ parts [] (47 ∷ 97 ∷ 47 ∷ 47 ∷ 98 ∷ [])
components_example = components_lem (47 ∷ 97 ∷ 47 ∷ 47 ∷ 98 ∷ [])

split_parent_and_basename_example :
    (components (split_parent_and_basename (47 ∷ 97 ∷ 47 ∷ 47 ∷ 98 ∷ [])).0
        ++ word_then (split_parent_and_basename (47 ∷ 97 ∷ 47 ∷ 47 ∷ 98 ∷ [])).1 []
      ≡ components (47 ∷ 97 ∷ 47 ∷ 47 ∷ 98 ∷ []))
    × ((split_parent_and_basename (47 ∷ 97 ∷ 47 ∷ 47 ∷ 98 ∷ [])).1 ≡ []
        → components (47 ∷ 97 ∷ 47 ∷ 47 ∷ 98 ∷ []) ≡ [])
split_parent_and_basename_example = split_parent_and_basename_lem (47 ∷ 97 ∷ 47 ∷ 47 ∷ 98 ∷ [])
