-- ===== src/FileSystem/Directory.antt =====
-- Adding and removing directory entries, kernel_common/src/ext2.rs. `none` is a panic, or the end of
-- the fuel of a loop, which moves on by eight bytes in each round.
use agentic_os.Base.{
  ℕ, zero, suc, ◌+◌, ◌-◌, ◌*◌, ◌/◌, List, Bool, true, false, not, ◌&&◌, ◌||◌, Option, none, some,
  ◌>>=◌, ltb, leb, ◌==◌, if◌then◌else◌, u16, length, get_elem?, take, drop,
}
use agentic_os.FileSystem.{block_size}
use agentic_os.FileSystem.Records.{ru16, ru32, wu16, wu32, write_dir_entry, same_name}

-- `(8 + len + 3) & !3`: the size of an entry, rounded up to a multiple of four.
abbrev pub entry_size : ℕ → ℕ
entry_size name_len = (8 + name_len + 3) / 4 * 4

-- The size that an entry takes up; an unused one takes none.
unfoldable pub actual_size : ℕ → ℕ → ℕ
actual_size inode name_len = if inode == 0 then 0 else entry_size name_len

-- What `add_dir_entry` does at the entry at `off`: the block that it returns with, none to go on.
unfoldable pub place_entry : List ℕ → ℕ → ℕ → ℕ → ℕ → ℕ → ℕ → List ℕ → Option (Option (List ℕ))
unfolding actual_size
place_entry b off cur_inode rec_len name_len inode file_type name =
    let actual = actual_size cur_inode name_len in
    let needed = entry_size (length name) in
    let reused =
      write_dir_entry b off inode (u16 rec_len) file_type name >>= λ b'. some (some b') in
    let split = wu16 b (off + 4) (u16 actual) >>= λ b1.
    write_dir_entry b1 (off + actual) inode (u16 (rec_len - actual)) file_type name >>= λ b2.
    some (some b2) in
    if cur_inode == 0 && leb needed rec_len
    then reused
    else if not (cur_inode == 0) && leb (actual + needed) rec_len
    then split
    else some none

-- The loop of `add_dir_entry`: the block and whether there was room.
unfoldable pub add_from : ℕ → List ℕ → ℕ → ℕ → ℕ → List ℕ → Option (List ℕ × Bool)
unfolding place_entry
add_from zero b off inode file_type name = none
add_from (suc fuel) b off inode file_type name =
    let later = λ (next : ℕ). add_from fuel b next inode file_type name in
    if leb (off + 8) block_size
    then (ru32 b off >>= λ cur_inode. ru16 b (off + 4) >>= λ rec_len.
        if ltb rec_len 8 || ltb block_size (off + rec_len)
        then some (b, false)
        else (get_elem? b (off + 6) >>= λ name_len.
            place_entry b off cur_inode rec_len name_len inode file_type name >>= λ placed.
            elim placed [ none ↦ later (off + rec_len) | some b' ↦ some (b', true) ]))
    else some (b, false)

unfoldable pub add_dir_entry : List ℕ → ℕ → ℕ → List ℕ → Option (List ℕ × Bool)
unfolding add_from
add_dir_entry dir_block inode file_type name = add_from 129 dir_block 0 inode file_type name

-- The removal of the entry at `off`: the entry before takes it in, or it is marked as unused.
unfoldable pub unlink_entry : List ℕ → Option ℕ → ℕ → ℕ → Option (List ℕ)
unlink_entry b none off rec_len = wu32 b off 0
unlink_entry b (some p_off) off rec_len =
    ru16 b (p_off + 4) >>= λ prev_rec_len. wu16 b (p_off + 4) (u16 (prev_rec_len + rec_len))

-- Whether the entry has the name; its bytes lie in the block.
unfoldable pub is_named : List ℕ → ℕ → ℕ → ℕ → ℕ → List ℕ → Option Bool
is_named b off cur_inode rec_len name_len target =
    if not (cur_inode == 0) && ltb 0 name_len && leb (off + 8 + name_len) (off + rec_len)
    then (if leb (off + 8 + name_len) (length b)
        then some (same_name (take name_len (drop (off + 8) b)) target)
        else none)
    else some false

-- The loop of `remove_dir_entry`: the block and the inode that the entry had.
unfoldable pub remove_from : ℕ → List ℕ → Option ℕ → ℕ → List ℕ → Option (List ℕ × Option ℕ)
unfolding unlink_entry is_named
remove_from zero b prev off target = none
remove_from (suc fuel) b prev off target =
    let later = λ (next : ℕ). remove_from fuel b (some off) next target in
    if leb (off + 8) block_size
    then (ru32 b off >>= λ cur_inode. ru16 b (off + 4) >>= λ rec_len.
        if ltb rec_len 8 || ltb block_size (off + rec_len)
        then some (b, none)
        else (get_elem? b (off + 6) >>= λ name_len.
            is_named b off cur_inode rec_len name_len target >>= λ found.
            if found
            then (unlink_entry b prev off rec_len >>= λ b'. some (b', some cur_inode))
            else later (off + rec_len)))
    else some (b, none)

unfoldable pub remove_dir_entry : List ℕ → List ℕ → Option (List ℕ × Option ℕ)
unfolding remove_from
remove_dir_entry dir_block target_name = remove_from 129 dir_block none 0 target_name
