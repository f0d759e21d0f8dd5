-- ===== src/FileSystem/Builders.antt =====
-- The blocks that kernel_common/src/ext2.rs builds for a new file system, and its counters.
use agentic_os.Base.{
  ℕ, zero, suc, ◌+◌, ◌-◌, ◌*◌, ◌/◌, ◌%◌, ◌^◌, min, List, [], ◌∷◌, Bool, Option, none, some, ◌>>=◌,
  ltb, leb, ◌==◌, if◌then◌else◌, u16, u32, length, get_elem?, take, bit_or, not,
}
use agentic_os.FileSystem.{
  block_size, inode_table_start_block, file_data_block, inodes_per_block, file_inode,
}
use agentic_os.FileSystem.Records.{
  vcopy, zeros, write_byte, wu16, wu32, ru16, ru32, write_dir_entry,
}

abbrev pub total_blocks : ℕ
total_blocks = 64

abbrev pub num_inodes : ℕ
num_inodes = 32

abbrev pub root_inode : ℕ
root_inode = 2

abbrev pub root_data_block : ℕ
root_data_block = 9

abbrev pub ext2_magic : ℕ
ext2_magic = 0xEF53

-- `x.max(0) as u32` for an i32 as its 32 bits.
abbrev pub not_negative : ℕ → ℕ
not_negative x = if leb (2 ^ 31) x then 0 else x

-- `update_alloc_counts`: the deltas are i32 as their 32 bits; the superblock and the descriptor.
unfoldable pub update_alloc_counts : List ℕ → List ℕ → ℕ → ℕ → ℕ → Option (List ℕ × List ℕ)
update_alloc_counts sb gd block_delta inode_delta dir_delta = ru32 sb 0x0C >>= λ sb_blocks.
    ru32 sb 0x10 >>= λ sb_inodes.
    wu32 sb 0x0C (not_negative (u32 (sb_blocks + block_delta))) >>= λ sb1.
    wu32 sb1 0x10 (not_negative (u32 (sb_inodes + inode_delta))) >>= λ sb2.
    ru16 gd 0x0C >>= λ gd_blocks. ru16 gd 0x0E >>= λ gd_inodes. ru16 gd 0x10 >>= λ gd_dirs.
    wu16 gd 0x0C (u16 (not_negative (u32 (gd_blocks + block_delta)))) >>= λ gd1.
    wu16 gd1 0x0E (u16 (not_negative (u32 (gd_inodes + inode_delta)))) >>= λ gd2.
    wu16 gd2 0x10 (u16 (not_negative (u32 (gd_dirs + dir_delta)))) >>= λ gd3. some (sb2, gd3)

unfoldable pub is_formatted : List ℕ → Option Bool
is_formatted superblock_block = ru16 superblock_block 0x38 >>= λ m. some (m == ext2_magic)

unfoldable pub build_superblock : List ℕ → Option (List ℕ)
build_superblock b = vcopy b 0 (zeros (length b)) >>= λ b0. wu32 b0 0x00 num_inodes >>= λ b1.
    wu32 b1 0x04 total_blocks >>= λ b2. wu32 b2 0x08 0 >>= λ b3.
    wu32 b3 0x0C (total_blocks - (file_data_block + 1)) >>= λ b4.
    wu32 b4 0x10 (num_inodes - file_inode) >>= λ b5. wu32 b5 0x14 1 >>= λ b6.
    wu32 b6 0x18 0 >>= λ b7. wu32 b7 0x1C 0 >>= λ b8. wu32 b8 0x20 total_blocks >>= λ b9.
    wu32 b9 0x24 total_blocks >>= λ b10. wu32 b10 0x28 num_inodes >>= λ b11.
    wu16 b11 0x38 ext2_magic >>= λ b12.
    wu16 b12 0x3A 1 >>= λ b13. wu16 b13 0x3C 1 >>= λ b14. wu32 b14 0x4C 0

unfoldable pub build_group_desc : List ℕ → Option (List ℕ)
build_group_desc b = vcopy b 0 (zeros (length b)) >>= λ b0. wu32 b0 0x00 3 >>= λ b1.
    wu32 b1 0x04 4 >>= λ b2. wu32 b2 0x08 inode_table_start_block >>= λ b3.
    wu16 b3 0x0C (u16 (total_blocks - (file_data_block + 1))) >>= λ b4.
    wu16 b4 0x0E (u16 (num_inodes - file_inode)) >>= λ b5. wu16 b5 0x10 1

-- The loop that sets the bits from `bit` on, `left` of them.
unfoldable pub mark_used : List ℕ → ℕ → ℕ → Option (List ℕ)
mark_used b bit zero = some b
mark_used b bit (suc left) = get_elem? b (bit / 8) >>= λ old.
    write_byte b (bit / 8) (bit_or old (2 ^ (bit % 8))) >>= λ b'. mark_used b' (bit + 1) left

unfoldable pub build_block_bitmap : List ℕ → Option (List ℕ)
unfolding mark_used
build_block_bitmap b = vcopy b 0 (zeros (length b)) >>= λ b0. mark_used b0 0 file_data_block

unfoldable pub build_inode_bitmap : List ℕ → Option (List ℕ)
unfolding mark_used
build_inode_bitmap b = vcopy b 0 (zeros (length b)) >>= λ b0. mark_used b0 0 file_inode

-- The loop over the direct blocks.
unfoldable pub write_run : List ℕ → ℕ → ℕ → ℕ → Option (List ℕ)
write_run b off start_block zero = some b
write_run b off start_block (suc left) =
    wu32 b off (u32 start_block) >>= λ b'. write_run b' (off + 4) (start_block + 1) left

unfoldable pub write_inode_entry_blocks : List ℕ → ℕ → ℕ → ℕ → ℕ → ℕ → ℕ → Option (List ℕ)
unfolding write_run
write_inode_entry_blocks table_block index mode size links start_block num_blocks =
    let off = index * 128 in
    vcopy table_block off (zeros 128) >>= λ b0. wu16 b0 off mode >>= λ b1.
    wu32 b1 (off + 0x04) size >>= λ b2. wu16 b2 (off + 0x1A) links >>= λ b3.
    wu32 b3 (off + 0x1C) (u32 (num_blocks * block_size / 512)) >>= λ b4.
    write_run b4 (off + 0x28) start_block (min num_blocks 12)

unfoldable pub write_inode_entry : List ℕ → ℕ → ℕ → ℕ → ℕ → ℕ → Option (List ℕ)
unfolding write_inode_entry_blocks
write_inode_entry table_block index mode size links block0 =
    write_inode_entry_blocks table_block index mode size links block0
      (if not (block0 == 0) then 1 else 0)

unfoldable pub write_root_inode : List ℕ → Option (List ℕ)
unfolding write_inode_entry
write_root_inode inode_table_block0 =
    write_inode_entry inode_table_block0 (root_inode - 1) (bit_or 0x4000 0x1ED) block_size 2
      root_data_block

-- The entry of the file in the second block of the table.
abbrev pub file_entry : ℕ
file_entry = file_inode - inodes_per_block - 1

unfoldable pub write_file_inode_blocks : List ℕ → ℕ → ℕ → ℕ → Option (List ℕ)
unfolding write_inode_entry_blocks
write_file_inode_blocks inode_table_block1 size start_block num_blocks =
    write_inode_entry_blocks inode_table_block1 file_entry (bit_or 0x8000 0x1A4) size 1 start_block
      num_blocks

unfoldable pub write_file_inode : List ℕ → ℕ → Option (List ℕ)
unfolding write_file_inode_blocks
write_file_inode inode_table_block1 size =
    write_file_inode_blocks inode_table_block1 size file_data_block
      (if ltb 0 size then u32 ((size + block_size - 1) / block_size) else 1)

unfoldable pub read_file_inode_size : List ℕ → Option ℕ
read_file_inode_size inode_table_block1 = ru32 inode_table_block1 (file_entry * 128 + 0x04)

-- The entries for `.`, `..` and the file, which reaches to the end of the block.
unfoldable pub build_root_dir_block : List ℕ → List ℕ → Option (List ℕ)
build_root_dir_block b name = vcopy b 0 (zeros (length b)) >>= λ b0.
    write_dir_entry b0 0 root_inode 12 2 (46 ∷ []) >>= λ b1.
    write_dir_entry b1 12 root_inode 12 2 (46 ∷ 46 ∷ []) >>= λ b2.
    write_dir_entry b2 24 file_inode (u16 (block_size - 24)) 1 name

-- `build_file_data_block`: the block and the number of bytes that were copied.
unfoldable pub build_file_data_block : List ℕ → List ℕ → Option (List ℕ × ℕ)
build_file_data_block b content =
    let n = min (length content) block_size in
    vcopy b 0 (zeros (length b)) >>= λ b0. vcopy b0 0 (take n content) >>= λ b1. some (b1, n)

-- `read_file_data` into a slice with the given room: the bytes written to its front.
unfoldable pub read_file_data : List ℕ → List ℕ → ℕ → Option (List ℕ)
read_file_data inode_table_block1 data_block room =
    ru32 inode_table_block1 (file_entry * 128 + 0x04) >>= λ size.
    let n = min (min size block_size) room in
    if leb n (length data_block) then some (take n data_block) else none
