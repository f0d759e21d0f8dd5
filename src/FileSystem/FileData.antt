-- ===== src/FileSystem/FileData.antt =====
-- The one file of a new file system, kernel_common/src/ext2.rs: what is built is read back.
use agentic_os.Base.{
  ℕ, zero, suc, ◌+◌, ◌-◌, ◌*◌, ◌/◌, ◌%◌, ◌^◌, ◌≡◌, ◌≤◌, ◌<◌, refl, sym, ◌∙◌, ap, inl, min, List, [],
  ◌∷◌, Option, some, ltb, leb, if◌then◌else◌, u32, length, get_elem?, take, drop, bit_or, true,
  arith,
}
use agentic_os.FileSystem.{block_size, file_data_block}
use agentic_os.FileSystem.Records.{zeros, wu16, wu32, ru16, ru32}
use agentic_os.FileSystem.Copies.{Holds, Holds-agree, vcopy-Copied, length-zeros}
use agentic_os.FileSystem.Builders.{
  write_run, write_inode_entry_blocks, write_file_inode_blocks, write_file_inode,
  read_file_inode_size, build_file_data_block, read_file_data,
}

-- A write behind a place: the size and what is before the place are kept.
abbrev Later : ℕ → List ℕ → Option (List ℕ) → Type 0
Later place b o =
    (b' : List ℕ) × (o ≡ some b')
    × (length b' ≡ length b)
    × ((i : ℕ) → i < place → get_elem? b' i ≡ get_elem? b i)

wu16-Later :
    (b : List ℕ) (off v place : ℕ) → place ≤ off → off + 2 ≤ length b → Later place b (wu16 b off v)
unfolding wu16
wu16-Later b off v place p h =
    let (b', e, c) = vcopy-Copied _ b off h in (b', e, c.0, λ i low. c.2 i (inl (omega arith)))

wu32-Later :
    (b : List ℕ) (off v place : ℕ) → place ≤ off → off + 4 ≤ length b → Later place b (wu32 b off v)
unfolding wu32
wu32-Later b off v place p h =
    let (b', e, c) = vcopy-Copied _ b off h in (b', e, c.0, λ i low. c.2 i (inl (omega arith)))

write_run-Later :
    (left : ℕ) (b : List ℕ) (off start place : ℕ)
    → place ≤ off
    → off + 4 * left ≤ length b
    → Later place b (write_run b off start left)
unfolding write_run
write_run-Later zero b off start place p h = (b, refl, refl, λ i low. refl)
write_run-Later (suc left) b off start place p h =
    let (b1, e1, l1, k1) = wu32-Later b off (u32 start) place p (omega arith) in
    let (b2, e2, l2, k2) =
      write_run-Later left b1 (off + 4) (start + 1) place (omega arith) (omega arith) in
    (b2, rw e1 e2, l2 ∙ l1, λ i low. k2 i low ∙ k1 i low)

abbrev word : ℕ → List ℕ
word v = v % 256 ∷ v / 256 % 256 ∷ v / 65536 % 256 ∷ v / 16777216 % 256 ∷ []

-- The size of the file is the word at 260 of the table's block.
ru32-word : (b : List ℕ) (v : ℕ) → v < 2 ^ 32 → Holds b 260 (word v) → ru32 b 260 ≡ some v
unfolding ru32 ru16
ru32-word b v small (h0, (h1, (h2, (h3, done)))) =
    rw h0 (rw h1 (rw h2 (rw h3 (ap some (omega arith)))))

wu32-Holds :
    (b : List ℕ) (v : ℕ)
    → 264 ≤ length b
    → (b' : List ℕ) × (wu32 b 260 v ≡ some b') × (length b' ≡ length b) × Holds b' 260 (word v)
unfolding wu32
wu32-Holds b v h = let (b', e, c) = vcopy-Copied (word v) b 260 h in (b', e, c.0, c.1)

write_file_inode_lem :
    (b : List ℕ) (size : ℕ)
    → 384 ≤ length b
    → size < 2 ^ 32
    → (b' : List ℕ) × (write_file_inode b size ≡ some b') × (ru32 b' 260 ≡ some size)
unfolding write_file_inode write_file_inode_blocks write_inode_entry_blocks
write_file_inode_lem b size room small =
    let num = if ltb 0 size then u32 ((size + block_size - 1) / block_size) else 1 in
    let (b0, e0, c0) = vcopy-Copied (zeros 128) b 256 (omega arith) in
    let (b1, e1, l1, k1) =
      wu16-Later b0 256 (bit_or 0x8000 0x1A4) 256 (omega arith) (omega (arith, c0.0)) in
    let (b2, e2, l2, held) = wu32-Holds b1 size (omega (arith, c0.0)) in
    let (b3, e3, l3, k3) = wu16-Later b2 282 1 264 (omega arith) (omega (arith, c0.0)) in
    let (b4, e4, l4, k4) =
      wu32-Later b3 284 (u32 (num * block_size / 512)) 264 (omega arith) (omega (arith, c0.0)) in
    let (b5, e5, l5, k5) =
      write_run-Later (min num 12) b4 296 file_data_block 264 (omega arith) (omega (arith, c0.0)) in
    (
      b5,
      rw e0 (rw e1 (rw e2 (rw e3 (rw e4 e5)))),
      ru32-word b5 size small (
          Holds-agree b2 b5 260 (word size)
            (λ i low high. k5 i (omega arith) ∙ k4 i (omega arith) ∙ k3 i (omega arith)) held),
    )

length-take : (n : ℕ) (xs : List ℕ) → n ≤ length xs → length (take n xs) ≡ n
length-take zero xs h = refl
length-take (suc n) [] h = absurd (omega arith)
length-take (suc n) (x ∷ xs) h = ap suc (length-take n xs (omega arith))

drop-some : (b : List ℕ) (off v : ℕ) → get_elem? b off ≡ some v → drop off b ≡ v ∷ drop (off + 1) b
drop-some [] off v h = cc
drop-some (x ∷ xs) zero v h = let same : x ≡ v = cc in ap (λ y. y ∷ xs) same
drop-some (x ∷ xs) (suc off) v h =
    let shift : suc off + 1 ≡ suc (off + 1) = omega arith in
    drop-some xs off v h ∙ ap (λ n. v ∷ drop n (x ∷ xs)) (sym shift)

take-Holds :
    (xs b : List ℕ) (n k off : ℕ)
    → k ≤ n
    → n ≤ length xs
    → Holds b off (take n xs)
    → take k (drop off b) ≡ take k xs
take-Holds xs b n zero off h g held = refl
take-Holds xs b zero (suc k) off h g held = absurd (omega arith)
take-Holds [] b (suc n) (suc k) off h g held = absurd (omega arith)
take-Holds (x ∷ xs) b (suc n) (suc k) off h g (e, held) =
    ap (take (suc k)) (drop-some b off x e)
    ∙ ap (λ l. x ∷ l) (take-Holds xs b n k (off + 1) (omega arith) (omega arith) held)

build_file_data_block_lem :
    (b content : List ℕ)
    → length b ≡ block_size
    → let n = min (length content) block_size in
      (b' : List ℕ) × (build_file_data_block b content ≡ some (b', n))
      × (length b' ≡ block_size)
      × Holds b' 0 (take n content)
unfolding build_file_data_block
build_file_data_block_lem b content size =
    let n = min (length content) block_size in
    let (b0, e0, c0) =
      vcopy-Copied (zeros (length b)) b 0 (omega (arith, length-zeros (length b))) in
    let (b1, e1, c1) =
      vcopy-Copied (take n content) b0 0
        (omega (arith, c0.0, length-take n content (omega arith))) in
    (b1, rw e0 (rw e1 refl), omega (arith, c0.0, c1.0), c1.1)

-- The one file of a new file system: when its inode is written with the length of a content that is
-- shorter than 4 GB, and its data block is built from the content, reading it back into a slice
-- of any length gives the content, cut to one block of 1024 bytes and to the slice. The table block has
-- room for three entries.
pub read_file_data-build :
    (table block content : List ℕ) (room : ℕ)
    → 384 ≤ length table
    → length block ≡ block_size
    → length content < 2 ^ 32
    → (table' block' : List ℕ) × (write_file_inode table (length content) ≡ some table')
      × (build_file_data_block block content ≡ some (block', min (length content) block_size))
      × (read_file_inode_size table' ≡ some (length content))
      × (read_file_data table' block' room
          ≡ some (take (min (min (length content) block_size) room) content))
unfolding read_file_inode_size read_file_data
read_file_data-build table block content room t s c =
    let (table', e, size) = write_file_inode_lem table (length content) t c in
    let (block', e', len, held) = build_file_data_block_lem block content s in
    let n = min (min (length content) block_size) room in
    let inside : leb n (length block') ≡ true = ground arith in
    (
      table',
      block',
      e,
      e',
      size,
      rw size (
          rw inside (
            ap some (
              take-Holds content block' (min (length content) block_size) n 0 (omega arith)
                (omega arith) held))),
    )
