-- ===== src/FileSystem/Records.antt =====
-- Inode records and directory entries of kernel_common/src/ext2.rs on a block of bytes. An index
-- out of bounds, which panics, is `none`.
use agentic_os.Base.{
  ℕ, zero, suc, ◌+◌, ◌-◌, ◌*◌, ◌/◌, ◌%◌, List, [], ◌∷◌, Bool, true, false, ◌&&◌, not, ◌||◌, Option,
  none, some, ltb, leb, ◌==◌, if◌then◌else◌, ◌>>=◌, u8, u16, u32, length, get_elem?, set, take,
  drop,
}
use agentic_os.FileSystem.{block_size, inode_block_and_offset}

pub record InodeInfo : Type 0 where
  pub mode : ℕ
  pub size : ℕ
  pub links : ℕ
  pub blocks_count : ℕ
  pub direct_blocks : List ℕ

-- A write of one byte.
unfoldable pub write_byte : List ℕ → ℕ → ℕ → Option (List ℕ)
write_byte b off v = if ltb off (length b) then some (set b off v) else none

-- `vcopy` of the bytes to an offset; `vzero` is the copy of zeros.
unfoldable pub vcopy : List ℕ → ℕ → List ℕ → Option (List ℕ)
vcopy b off [] = some b
vcopy b off (v ∷ vs) = write_byte b off v >>= λ b'. vcopy b' (off + 1) vs

abbrev pub zeros : ℕ → List ℕ
zeros zero = []
zeros (suc n) = 0 ∷ zeros n

-- `wu16` and `wu32`: the bytes, lowest first.
unfoldable pub wu16 : List ℕ → ℕ → ℕ → Option (List ℕ)
wu16 b off v = vcopy b off (v % 256 ∷ v / 256 % 256 ∷ [])

unfoldable pub wu32 : List ℕ → ℕ → ℕ → Option (List ℕ)
wu32 b off v = vcopy b off (v % 256 ∷ v / 256 % 256 ∷ v / 65536 % 256 ∷ v / 16777216 % 256 ∷ [])

-- `ru16` and `ru32`
unfoldable pub ru16 : List ℕ → ℕ → Option ℕ
ru16 b off = get_elem? b off >>= λ b0. get_elem? b (off + 1) >>= λ b1. some (b0 + 256 * b1)

unfoldable pub ru32 : List ℕ → ℕ → Option ℕ
ru32 b off = ru16 b off >>= λ low. ru16 b (off + 2) >>= λ high. some (low + 65536 * high)

-- The loop over the direct blocks of `write_inode_entry_full`, 12 at most.
unfoldable pub write_blocks : List ℕ → ℕ → ℕ → List ℕ → Option (List ℕ)
write_blocks b off zero blocks = some b
write_blocks b off (suc left) [] = some b
write_blocks b off (suc left) (v ∷ vs) = wu32 b off v >>= λ b'. write_blocks b' (off + 4) left vs

-- `write_inode_entry_full`
unfoldable pub write_inode_entry_full : List ℕ → ℕ → ℕ → ℕ → ℕ → List ℕ → Option (List ℕ)
write_inode_entry_full table_block inode mode size links direct_blocks =
    let (block, off) = inode_block_and_offset inode in
    vcopy table_block off (zeros 128) >>= λ b0. wu16 b0 off mode >>= λ b1.
    wu32 b1 (off + 0x04) size >>= λ b2. wu16 b2 (off + 0x1A) links >>= λ b3.
    wu32 b3 (off + 0x1C) (u32 (u32 (length direct_blocks) * block_size / 512)) >>= λ b4.
    write_blocks b4 (off + 0x28) 12 direct_blocks

-- The loop over the direct blocks of `read_inode_entry`.
unfoldable pub read_blocks : List ℕ → ℕ → ℕ → Option (List ℕ)
read_blocks b off zero = some []
read_blocks b off (suc left) =
    let rest = read_blocks b (off + 4) left in ru32 b off >>= λ v. rest >>= λ vs. some (v ∷ vs)

-- `read_inode_entry`
unfoldable pub read_inode_entry : List ℕ → ℕ → Option InodeInfo
read_inode_entry table_block inode =
    let (block, off) = inode_block_and_offset inode in
    ru16 table_block off >>= λ mode. ru32 table_block (off + 0x04) >>= λ size.
    ru16 table_block (off + 0x1A) >>= λ links. ru32 table_block (off + 0x1C) >>= λ sectors.
    read_blocks table_block (off + 0x28) 12 >>= λ direct_blocks. some (record {
      mode = mode;
      size = size;
      links = links;
      blocks_count = sectors / (block_size / 512);
      direct_blocks = direct_blocks;
    })

-- `write_dir_entry`
unfoldable pub write_dir_entry : List ℕ → ℕ → ℕ → ℕ → ℕ → List ℕ → Option (List ℕ)
write_dir_entry block offset inode rec_len file_type name = wu32 block offset inode >>= λ b0.
    wu16 b0 (offset + 4) rec_len >>= λ b1. write_byte b1 (offset + 6) (u8 (length name)) >>= λ b2.
    write_byte b2 (offset + 7) file_type >>= λ b3. vcopy b3 (offset + 8) name

-- `init_dir_block`: the names are `.` and `..`, the type of a directory is 2.
unfoldable pub init_dir_block : List ℕ → ℕ → ℕ → Option (List ℕ)
init_dir_block b dir_inode parent_inode = vcopy b 0 (zeros (length b)) >>= λ b0.
    write_dir_entry b0 0 dir_inode 12 2 (46 ∷ []) >>= λ b1.
    write_dir_entry b1 12 parent_inode (u16 (block_size - 12)) 2 (46 ∷ 46 ∷ [])

-- An entry as the callback of `read_dir_entries` gets it.
pub record DirEntry : Type 0 where
  pub inode : ℕ
  pub file_type : ℕ
  pub name : List ℕ

-- The guard of the callback and the entry that it gets.
unfoldable pub reported : List ℕ → ℕ → ℕ → ℕ → ℕ → ℕ → List DirEntry → Option (List DirEntry)
reported b off inode rec_len name_len file_type later =
    if not (inode == 0) && ltb 0 name_len && leb (off + 8 + name_len) (off + rec_len)
    then (if leb (off + 8 + name_len) (length b)
        then some (
            record { inode = inode; file_type = file_type; name = take name_len (drop (off + 8) b) }
            ∷ later)
        else none)
    else some later

-- The loop of `read_dir_entries` from an offset, with fuel for its rounds: the calls of the
-- callback, in order. `none` is a panic or the end of the fuel.
unfoldable pub read_entries : ℕ → List ℕ → ℕ → Option (List DirEntry)
read_entries zero b off = none
read_entries (suc fuel) b off =
    let later = λ (next : ℕ). read_entries fuel b next in
    if leb (off + 8) block_size
    then (ru32 b off >>= λ inode. ru16 b (off + 4) >>= λ rec_len.
        if ltb rec_len 8 || ltb block_size (off + rec_len)
        then some []
        else (get_elem? b (off + 6) >>= λ name_len. get_elem? b (off + 7) >>= λ file_type.
            later (off + rec_len) >>= λ rest. reported b off inode rec_len name_len file_type rest))
    else some []

-- `read_dir_entries`: each round moves on by eight bytes at least, so 129 rounds are enough.
unfoldable pub read_dir_entries : List ℕ → Option (List DirEntry)
read_dir_entries dir_block = read_entries 129 dir_block 0

-- The equality of names.
unfoldable pub same_name : List ℕ → List ℕ → Bool
same_name [] [] = true
same_name [] (y ∷ ys) = false
same_name (x ∷ xs) [] = false
same_name (x ∷ xs) (y ∷ ys) = x == y && same_name xs ys

-- The closure of `find_dir_entry` over all entries: the first match stays.
unfoldable pub first_named : List DirEntry → List ℕ → Option (ℕ × ℕ)
first_named [] target_name = none
first_named (e ∷ entries) target_name =
    let rest = first_named entries target_name in
    if same_name e.name target_name then some (e.inode, e.file_type) else rest

-- `find_dir_entry`; the outer `none` is a panic.
unfoldable pub find_dir_entry : List ℕ → List ℕ → Option (Option (ℕ × ℕ))
find_dir_entry dir_block target_name =
    read_dir_entries dir_block >>= λ entries. some (first_named entries target_name)
