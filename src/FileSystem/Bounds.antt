-- ===== src/FileSystem/Bounds.antt =====
-- Directory changes of kernel_common/src/ext2.rs stay within the block, whatever bytes it holds.
use agentic_os.Base.{
  ℕ, zero, suc, ◌+◌, ◌-◌, ◌*◌, ◌≡◌, ◌≤◌, ◌<◌, refl, sym, ◌∙◌, ap, inl, inr, List, Bool, true, false,
  not, ◌&&◌, ◌||◌, take, drop, Option, none, some, Bool-cases, Option-cases, ltb, leb, ◌==◌, u8,
  u16, length, get_elem?-some, lt→ltb, length-set, set, arith,
}
use agentic_os.FileSystem.{block_size}
use agentic_os.FileSystem.Records.{wu16, wu32, write_byte, write_dir_entry, same_name}
use agentic_os.FileSystem.Copies.{vcopy-Copied}
use agentic_os.FileSystem.Scan.{ru16-total, ru32-total}
use agentic_os.FileSystem.Directory.{
  entry_size, actual_size, place_entry, add_from, add_dir_entry, unlink_entry, is_named,
  remove_from, remove_dir_entry,
}

-- A change that does not panic and keeps the size of the block.
abbrev Written : List ℕ → Option (List ℕ) → Type 0
Written b o = (b' : List ℕ) × (o ≡ some b') × (length b' ≡ length b)

wu16-Written : (b : List ℕ) (off v : ℕ) → off + 2 ≤ length b → Written b (wu16 b off v)
unfolding wu16
wu16-Written b off v h = let (b', e, c) = vcopy-Copied _ b off h in (b', e, c.0)

wu32-Written : (b : List ℕ) (off v : ℕ) → off + 4 ≤ length b → Written b (wu32 b off v)
unfolding wu32
wu32-Written b off v h = let (b', e, c) = vcopy-Copied _ b off h in (b', e, c.0)

write_byte-Written : (b : List ℕ) (off v : ℕ) → off < length b → Written b (write_byte b off v)
unfolding write_byte
write_byte-Written b off v h = (set b off v, rw (lt→ltb off (length b) h) refl, length-set b off v)

write_dir_entry-Written :
    (b : List ℕ) (off inode rec_len file_type : ℕ) (name : List ℕ)
    → off + 8 + length name ≤ length b
    → Written b (write_dir_entry b off inode rec_len file_type name)
unfolding write_dir_entry
write_dir_entry-Written b off inode rec_len file_type name h =
    let (b0, e0, l0) = wu32-Written b off inode (omega arith) in
    let (b1, e1, l1) = wu16-Written b0 (off + 4) rec_len (omega arith) in
    let (b2, e2, l2) = write_byte-Written b1 (off + 6) (u8 (length name)) (omega arith) in
    let (b3, e3, l3) = write_byte-Written b2 (off + 7) file_type (omega arith) in
    let (b4, e4, c) = vcopy-Copied name b3 (off + 8) (omega arith) in
    (b4, rw e0 (rw e1 (rw e2 (rw e3 e4))), omega (arith, c.0))

-- Placing an entry ends with a block of the same size, or goes on.
abbrev Placed : List ℕ → Option (Option (List ℕ)) → Type 0
Placed b o =
    (r : Option (List ℕ)) × (o ≡ some r) × ((b' : List ℕ) → r ≡ some b' → length b' ≡ length b)

place_entry-Placed :
    (b : List ℕ) (off cur_inode rec_len name_len inode file_type : ℕ) (name : List ℕ)
    → off + 8 ≤ length b
    → off + rec_len ≤ length b
    → Placed b (place_entry b off cur_inode rec_len name_len inode file_type name)
unfolding place_entry actual_size
place_entry-Placed b off cur_inode rec_len name_len inode file_type name g h =
    let actual = actual_size cur_inode name_len in
    let needed = entry_size (length name) in
    elim (Bool-cases (cur_inode == 0 && leb needed rec_len)) [
      | inl reuse ↦
          let (b', e, l) =
            write_dir_entry-Written b off inode (u16 rec_len) file_type name (ground arith) in
          (some b', rw reuse (rw e refl), λ c q. let same : b' ≡ c = cc in ap length (sym same) ∙ l)
      | inr used ↦ elim (Bool-cases (not (cur_inode == 0) && leb (actual + needed) rec_len)) [
        | inr full ↦ (none, rw used (rw full refl), λ c q. cc)
        | inl split ↦
            let (b1, e1, l1) = wu16-Written b (off + 4) (u16 actual) (omega arith) in
            let (b2, e2, l2) =
              write_dir_entry-Written b1 (off + actual) inode (u16 (rec_len - actual)) file_type
                name (ground arith) in
            (
              some b2,
              rw used (rw split (rw e1 (rw e2 refl))),
              λ c q. let same : b2 ≡ c = cc in ap length (sym same) ∙ l2 ∙ l1,
            )
      ]
    ]

-- The end of a loop: a block of the same size and an answer.
abbrev Ended {ℓ} : {A : Type ℓ} → List ℕ → Option (List ℕ × A) → Type ℓ
Ended {A = A} b o = (r : List ℕ × A) × (o ≡ some r) × (length r.0 ≡ length b)

add_from-Ended :
    (fuel : ℕ) (b : List ℕ) (off inode file_type : ℕ) (name : List ℕ)
    → length b ≡ block_size
    → off ≤ block_size
    → block_size < 8 * fuel + off
    → Ended b (add_from fuel b off inode file_type name)
unfolding add_from
add_from-Ended zero b off inode file_type name size h enough = absurd (omega arith)
add_from-Ended (suc fuel) b off inode file_type name size h enough =
    elim (Bool-cases (leb (off + 8) block_size)) [
      | inr stop ↦ ((b, false), rw stop refl, refl)
      | inl go ↦
          let (cur_inode, e) = ru32-total b off (ground arith) in
          let (rec_len, e') = ru16-total b (off + 4) (ground arith) in
          elim (Bool-cases (ltb rec_len 8 || ltb block_size (off + rec_len))) [
            | inl bad ↦ ((b, false), rw go (rw e (rw e' (rw bad refl))), refl)
            | inr fine ↦
                let (name_len, n) = get_elem?-some b (off + 6) (ground arith) in
                let (placed, p, l) =
                  place_entry-Placed b off cur_inode rec_len name_len inode file_type name
                    (ground arith) (ground arith) in
                let (r, w, k) =
                  add_from-Ended fuel b (off + rec_len) inode file_type name size (ground arith)
                    (ground arith) in
                elim (Option-cases placed) [
                  | inl q ↦ (r, rw go (rw e (rw e' (rw fine (rw n (rw p (rw q w)))))), k)
                  | inr (b', q) ↦
                      ((b', true), rw go (rw e (rw e' (rw fine (rw n (rw p (rw q refl)))))), l b' q)
                ]
          ]
    ]

-- On any block of 1024 bytes, malformed ones included, adding an entry with any name ends without
-- reading or writing out of bounds, and keeps the size of the block.
pub add_dir_entry-total :
    (b : List ℕ) (inode file_type : ℕ) (name : List ℕ)
    → length b ≡ block_size
    → (r : List ℕ × Bool) × (add_dir_entry b inode file_type name ≡ some r)
      × (length r.0 ≡ length b)
unfolding add_dir_entry
add_dir_entry-total b inode file_type name size =
    add_from-Ended 129 b 0 inode file_type name size (omega arith) (omega arith)

is_named-total :
    (b : List ℕ) (off cur_inode rec_len name_len : ℕ) (target : List ℕ)
    → off + rec_len ≤ length b
    → (r : Bool) × (is_named b off cur_inode rec_len name_len target ≡ some r)
unfolding is_named
is_named-total b off cur_inode rec_len name_len target h =
    elim (Bool-cases
      (not (cur_inode == 0) && ltb 0 name_len && leb (off + 8 + name_len) (off + rec_len))) [
        | inr skipped ↦ (false, rw skipped refl)
        | inl named ↦
            let inside : leb (off + 8 + name_len) (length b) ≡ true = ground arith in
            (same_name (take name_len (drop (off + 8) b)) target, rw named (rw inside refl))
      ]

unlink_entry-Written :
    (b : List ℕ) (prev : Option ℕ) (off rec_len : ℕ)
    → off + 8 ≤ length b
    → ((p : ℕ) → prev ≡ some p → p + 8 ≤ length b)
    → Written b (unlink_entry b prev off rec_len)
unfolding unlink_entry
unlink_entry-Written b none off rec_len h before = wu32-Written b off 0 (omega arith)
unlink_entry-Written b (some p) off rec_len h before =
    let room = before p refl in
    let (prev_len, e) = ru16-total b (p + 4) (omega arith) in
    let (b', e', l) = wu16-Written b (p + 4) (u16 (prev_len + rec_len)) (omega arith) in
    (b', rw e e', l)

remove_from-Ended :
    (fuel : ℕ) (b : List ℕ) (prev : Option ℕ) (off : ℕ) (target : List ℕ)
    → length b ≡ block_size
    → off ≤ block_size
    → ((p : ℕ) → prev ≡ some p → p + 8 ≤ length b)
    → block_size < 8 * fuel + off
    → Ended b (remove_from fuel b prev off target)
unfolding remove_from
remove_from-Ended zero b prev off target size h before enough = absurd (omega arith)
remove_from-Ended (suc fuel) b prev off target size h before enough =
    elim (Bool-cases (leb (off + 8) block_size)) [
      | inr stop ↦ ((b, none), rw stop refl, refl)
      | inl go ↦
          let (cur_inode, e) = ru32-total b off (ground arith) in
          let (rec_len, e') = ru16-total b (off + 4) (ground arith) in
          elim (Bool-cases (ltb rec_len 8 || ltb block_size (off + rec_len))) [
            | inl bad ↦ ((b, none), rw go (rw e (rw e' (rw bad refl))), refl)
            | inr fine ↦
                let (name_len, n) = get_elem?-some b (off + 6) (ground arith) in
                let (found, p) =
                  is_named-total b off cur_inode rec_len name_len target (ground arith) in
                let here : off + 8 ≤ length b = ground arith in
                let (b', u, l) = unlink_entry-Written b prev off rec_len here before in
                let (r, w, k) =
                  remove_from-Ended fuel b (some off) (off + rec_len) target size (ground arith)
                    (λ q same. let eq : off ≡ q = cc in omega arith) (ground arith) in
                elim (Bool-cases found) [
                  | inl y ↦ (
                    (b', some cur_inode),
                    rw go (rw e (rw e' (rw fine (rw n (rw p (rw y (rw u refl))))))),
                    l,
                  )
                  | inr other ↦ (r, rw go (rw e (rw e' (rw fine (rw n (rw p (rw other w)))))), k)
                ]
          ]
    ]

-- On any block of 1024 bytes, malformed ones included, removing an entry by any name ends without
-- reading or writing out of bounds, and keeps the size of the block.
pub remove_dir_entry-total :
    (b : List ℕ) (target : List ℕ)
    → length b ≡ block_size
    → (r : List ℕ × Option ℕ) × (remove_dir_entry b target ≡ some r) × (length r.0 ≡ length b)
unfolding remove_dir_entry
remove_dir_entry-total b target size =
    remove_from-Ended 129 b none 0 target size (omega arith) (λ p e. cc) (omega arith)
