-- ===== src/FileSystem/Scan.antt =====
-- `read_dir_entries` of kernel_common/src/ext2.rs on any bytes.
use agentic_os.Base.{
  ℕ, zero, suc, ◌+◌, ◌*◌, ◌≤◌, ◌<◌, ◌≡◌, refl, inl, inr, List, [], ◌∷◌, take, drop, true, not, ◌&&◌,
  ◌||◌, some, Bool-cases, ltb, leb, ◌==◌, length, get_elem?-some, arith,
}
use agentic_os.FileSystem.{block_size}
use agentic_os.FileSystem.Records.{DirEntry, ru16, ru32, reported, read_entries, read_dir_entries}

pub ru16-total : (b : List ℕ) (off : ℕ) → off + 2 ≤ length b → (v : ℕ) × (ru16 b off ≡ some v)
unfolding ru16
ru16-total b off h =
    let (b0, e0) = get_elem?-some b off (omega arith) in
    let (b1, e1) = get_elem?-some b (off + 1) (omega arith) in (b0 + 256 * b1, rw e0 (rw e1 refl))

pub ru32-total : (b : List ℕ) (off : ℕ) → off + 4 ≤ length b → (v : ℕ) × (ru32 b off ≡ some v)
unfolding ru32
ru32-total b off h =
    let (low, e) = ru16-total b off (omega arith) in
    let (high, e') = ru16-total b (off + 2) (omega arith) in (low + 65536 * high, rw e (rw e' refl))

reported-total :
    (b : List ℕ) (off inode rec_len name_len file_type : ℕ) (later : List DirEntry)
    → off + rec_len ≤ length b
    → (r : List DirEntry) × (reported b off inode rec_len name_len file_type later ≡ some r)
unfolding reported
reported-total b off inode rec_len name_len file_type later h =
    elim (Bool-cases
      (not (inode == 0) && ltb 0 name_len && leb (off + 8 + name_len) (off + rec_len))) [
        | inr skipped ↦ (later, rw skipped refl)
        | inl named ↦
            let inside : leb (off + 8 + name_len) (length b) ≡ true = ground arith in
            (
              record {
                inode = inode;
                file_type = file_type;
                name = take name_len (drop (off + 8) b);
              }
                  ∷ later,
              rw named (rw inside refl),
            )
      ]

read_entries-total :
    (fuel : ℕ) (b : List ℕ) (off : ℕ)
    → length b ≡ block_size
    → off ≤ block_size
    → block_size < 8 * fuel + off
    → (r : List DirEntry) × (read_entries fuel b off ≡ some r)
unfolding read_entries
read_entries-total zero b off size h enough = absurd (omega arith)
read_entries-total (suc fuel) b off size h enough = elim (Bool-cases (leb (off + 8) block_size)) [
  | inr stop ↦ ([], rw stop refl)
  | inl go ↦
      let (inode, e) = ru32-total b off (ground arith) in
      let (rec_len, e') = ru16-total b (off + 4) (ground arith) in
      elim (Bool-cases (ltb rec_len 8 || ltb block_size (off + rec_len))) [
        | inl bad ↦ ([], rw go (rw e (rw e' (rw bad refl))))
        | inr fine ↦
            let (name_len, n) = get_elem?-some b (off + 6) (ground arith) in
            let (file_type, t) = get_elem?-some b (off + 7) (ground arith) in
            let (rest, w) =
              read_entries-total fuel b (off + rec_len) size (ground arith) (ground arith) in
            let (r, d) =
              reported-total b off inode rec_len name_len file_type rest (ground arith) in
            (r, rw go (rw e (rw e' (rw fine (rw n (rw t (rw w d)))))))
      ]
]

-- On any block of 1024 bytes, malformed ones included, the walk over the directory entries ends
-- without reading out of bounds.
read_dir_entries-total :
    (b : List ℕ) → length b ≡ block_size → (r : List DirEntry) × (read_dir_entries b ≡ some r)
unfolding read_dir_entries
read_dir_entries-total b size = read_entries-total 129 b 0 size (omega arith) (omega arith)
