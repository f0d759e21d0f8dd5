-- ===== src/Discovery/Processors.antt =====
-- `parse_cpus` of kernel_common/src/madt.rs on any bytes.
use agentic_os.Base.{
  ℕ, zero, suc, ◌+◌, ◌*◌, ◌≤◌, ◌<◌, ◌≡◌, refl, inl, inr, List, [], Option, none, some, Bool-cases,
  ltb, leb, ◌==◌, ◌&&◌, length, get_elem?-some, arith,
}
use agentic_os.Discovery.{
  CpuEntry, read_u32, is_enabled, local_apic, local_x2apic, decode_entry, written, room_after, walk,
  parse_cpus,
}

read_u32-total :
    (body : List ℕ) (i : ℕ) → i + 4 ≤ length body → (v : ℕ) × (read_u32 body i ≡ some v)
read_u32-total body i h =
    let (b0, e0) = get_elem?-some body i (omega arith) in
    let (b1, e1) = get_elem?-some body (i + 1) (omega arith) in
    let (b2, e2) = get_elem?-some body (i + 2) (omega arith) in
    let (b3, e3) = get_elem?-some body (i + 3) (omega arith) in
    (b0 + 256 * b1 + 65536 * b2 + 16777216 * b3, rw e0 (rw e1 (rw e2 (rw e3 refl))))

local_apic-total :
    (body : List ℕ) (i : ℕ) → i + 8 ≤ length body → (c : CpuEntry) × (local_apic body i ≡ some c)
unfolding local_apic
local_apic-total body i h =
    let (b2, e2) = get_elem?-some body (i + 2) (omega arith) in
    let (b3, e3) = get_elem?-some body (i + 3) (omega arith) in
    let (v, e) = read_u32-total body (i + 4) (omega arith) in
    (record { apic_id = b3; processor_uid = b2; enabled = is_enabled v }, rw e2 (rw e3 (rw e refl)))

local_x2apic-total :
    (body : List ℕ) (i : ℕ) → i + 16 ≤ length body → (c : CpuEntry) × (local_x2apic body i ≡ some c)
unfolding local_x2apic
local_x2apic-total body i h =
    let (v, e) = read_u32-total body (i + 4) (omega arith) in
    let (w, e') = read_u32-total body (i + 8) (omega arith) in
    let (x, e'') = read_u32-total body (i + 12) (omega arith) in
    (record { apic_id = v; processor_uid = x; enabled = is_enabled w }, rw e (rw e' (rw e'' refl)))

decode_entry-total :
    (body : List ℕ) (i entry_type entry_len : ℕ)
    → i + entry_len ≤ length body
    → (found : Option CpuEntry) × (decode_entry body i entry_type entry_len ≡ some found)
unfolding decode_entry
decode_entry-total body i entry_type entry_len h =
    elim (Bool-cases (entry_type == 0 && leb 8 entry_len)) [
      | inl a ↦ let (c, e) = local_apic-total body i (ground arith) in (some c, rw a (rw e refl))
      | inr n ↦ elim (Bool-cases (entry_type == 9 && leb 16 entry_len)) [
        | inl a ↦
            let (c, e) = local_x2apic-total body i (ground arith) in
            (some c, rw n (rw a (rw e refl)))
        | inr m ↦ (none, rw n (rw m refl))
      ]
    ]

length-written :
    (found : Option CpuEntry) (rest : List CpuEntry) (room : ℕ)
    → 0 < room
    → length rest ≤ room_after found room
    → length (written found rest) ≤ room
unfolding written room_after
length-written none rest room h b = b
length-written (some cpu) rest room h b = omega arith

-- The walk from within the bytes, with enough fuel.
walk-total :
    (fuel : ℕ) (body : List ℕ) (i room : ℕ)
    → i ≤ length body
    → length body < fuel + i
    → (r : List CpuEntry) × (walk fuel body i room ≡ some r) × (length r ≤ room)
unfolding walk
walk-total zero body i room h enough = absurd (omega arith)
walk-total (suc fuel) body i room h enough =
    elim (Bool-cases (leb (i + 2) (length body) && ltb 0 room)) [
      | inr stop ↦ ([], rw stop refl, omega arith)
      | inl go ↦
          let (entry_type, e) = get_elem?-some body i (ground arith) in
          let (entry_len, e') = get_elem?-some body (i + 1) (ground arith) in
          elim (Bool-cases (ltb entry_len 2)) [
            | inl short ↦ ([], rw go (rw e (rw e' (rw short refl))), omega arith)
            | inr fine ↦ elim (Bool-cases (ltb (length body) (i + entry_len))) [
              | inl cut ↦ ([], rw go (rw e (rw e' (rw fine (rw cut refl)))), omega arith)
              | inr whole ↦
                  let (found, d) = decode_entry-total body i entry_type entry_len (ground arith) in
                  let (rest, w, b) =
                    walk-total fuel body (i + entry_len) (room_after found room) (ground arith)
                      (ground arith) in
                  (
                    written found rest,
                    rw go (rw e (rw e' (rw fine (rw whole (rw d (rw w refl)))))),
                    length-written found rest room (ground arith) b,
                  )
            ]
          ]
    ]

-- Whatever the bytes of the table are, malformed ones included, the parser ends without reading
-- out of bounds, and it writes at most as many entries as there is room for.
pub parse_cpus-total :
    (body : List ℕ) (room : ℕ)
    → (r : List CpuEntry) × (parse_cpus body room ≡ some r) × (length r ≤ room)
unfolding parse_cpus
parse_cpus-total body room = elim (Bool-cases (ltb (length body) 8)) [
  | inl short ↦ ([], rw short refl, omega arith)
  | inr fine ↦
      let (r, e, b) = walk-total (length body) body 8 room (ground arith) (ground arith) in
      (r, rw fine e, b)
]
