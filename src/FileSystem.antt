-- ===== src/FileSystem.antt =====
-- The allocation bitmaps and inode records of kernel_common/src/ext2.rs. A block of the disk is a
-- list of bytes.
pub mod Allocation
pub mod Records
pub mod Copies
pub mod Scan
pub mod Directory
pub mod Paths
pub mod Parts
pub mod Parents
pub mod Builders
pub mod Bounds
pub mod FileData
mod Tests
use agentic_os.Base.{
  ℕ, zero, suc, ◌+◌, ◌-◌, ◌*◌, ◌/◌, ◌%◌, ◌^◌, List, [], ◌∷◌, Bool, true, false, not, ◌&&◌, Option,
  none, some, ltb, leb, ◌==◌, if◌then◌else◌, ◌>>=◌, u32, length, get_or, set, bit_and, bit_or,
}

abbrev pub block_size : ℕ
block_size = 1024

abbrev pub inode_table_start_block : ℕ
inode_table_start_block = 5

abbrev pub file_data_block : ℕ
file_data_block = 10

abbrev pub inodes_per_block : ℕ
inodes_per_block = 8

abbrev pub file_inode : ℕ
file_inode = 11

-- The guard of the loops: the bit lies in the bitmap and is clear.
abbrev pub is_free : List ℕ → ℕ → Bool
is_free bitmap bit =
    ltb (bit / 8) (length bitmap) && (bit_and (get_or bitmap (bit / 8) 0) (2 ^ (bit % 8)) == 0)

abbrev pub mark : List ℕ → ℕ → List ℕ
mark bitmap bit = set bitmap (bit / 8) (bit_or (get_or bitmap (bit / 8) 0) (2 ^ (bit % 8)))

-- The loop of `alloc_block` and `alloc_inode` from a number on, with `left` numbers to try: the
-- bitmap afterwards and the number, if any. Numbers start at 1, bits at 0.
unfoldable pub alloc_from : List ℕ → ℕ → ℕ → List ℕ × Option ℕ
alloc_from bitmap number zero = (bitmap, none)
alloc_from bitmap number (suc left) =
    let later = alloc_from bitmap (number + 1) left in
    if is_free bitmap (number - 1) then (mark bitmap (number - 1), some number) else later

-- `alloc_block`
unfoldable pub alloc_block : List ℕ → ℕ → List ℕ × Option ℕ
alloc_block bitmap total_blocks =
    alloc_from bitmap (file_data_block + 1) (total_blocks + 1 - (file_data_block + 1))

-- `alloc_inode`
unfoldable pub alloc_inode : List ℕ → ℕ → List ℕ × Option ℕ
alloc_inode bitmap num_inodes =
    alloc_from bitmap (file_inode + 1) (num_inodes + 1 - (file_inode + 1))

-- `free_block`, and `free_inode` of the same body: `!mask` on a u8 is `255 - mask`.
unfoldable pub free_block : List ℕ → ℕ → List ℕ
free_block bitmap block =
    if ltb 0 block && ltb ((block - 1) / 8) (length bitmap)
    then set bitmap ((block - 1) / 8)
        (bit_and (get_or bitmap ((block - 1) / 8) 0) (255 - 2 ^ ((block - 1) % 8)))
    else bitmap

-- `free_inode`
unfoldable pub free_inode : List ℕ → ℕ → List ℕ
unfolding free_block
free_inode bitmap inode = free_block bitmap inode

-- `inode_block_and_offset`, on u32.
unfoldable pub inode_block_and_offset : ℕ → ℕ × ℕ
inode_block_and_offset inode =
    let index = (inode + 2 ^ 32 - 1) % 2 ^ 32 in
    (u32 (inode_table_start_block + index / inodes_per_block), index % inodes_per_block * 128)
