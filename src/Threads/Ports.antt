-- ===== src/Threads/Ports.antt =====
-- The I/O permission bitmaps of kernel_rs/src/gdt.rs, one for each thread, and the calls of
-- kernel_rs/src/thread.rs that change the current thread's and load it. A set bit denies.
use agentic_os.Base.{
  ℕ, ◌≡◌, ◌<◌, refl, ◌∙◌, inl, inr, List, Bool, true, false, not, ◌&&◌, Option, none, some, ◌>>=◌,
  ◌==◌, leb, Bool-cases, if◌then◌else◌, length, zero, suc, replicate, length-replicate, get_elem?,
  set, arith,
}
use agentic_os.Bitmap.{set_bit, clear_bit, test_bit}
use agentic_os.Bitmap.Laws.{IsBytes, bit_at, test_bit_lem, set_bit_lem, clear_bit_lem}
use agentic_os.Threads.{Thread, Cpu, Scheduler, iopb_bytes, denied_ports}

-- `IOPB_PORTS`
abbrev pub iopb_ports : ℕ
iopb_ports = 1024

unfoldable pub allow_port_bits : List ℕ → ℕ → Option (List ℕ)
allow_port_bits bitmap port = if leb iopb_ports port then some bitmap else clear_bit bitmap port

unfoldable pub deny_port_bits : List ℕ → ℕ → Option (List ℕ)
deny_port_bits bitmap port = if leb iopb_ports port then some bitmap else set_bit bitmap port

unfoldable pub is_port_allowed : List ℕ → ℕ → Option Bool
is_port_allowed bitmap port =
    if leb iopb_ports port
    then some false
    else (test_bit bitmap port >>= λ denied. some (not denied))

-- The state with the bitmap of each processor's TSS, which `set_iopb` overwrites.
pub record PortState : Type 0 where
  pub scheduler : Scheduler
  pub tss_iopb : List (List ℕ)

-- A change of the current thread's bitmap, which is then loaded.
unfoldable pub change_ports :
    (List ℕ → Option (List ℕ)) → PortState → ℕ → Cpu → Option Thread → Option PortState
change_ports change p me c none = some p
change_ports change p me c (some t) = do
  bitmap ← change t.iopb
  let c' : Cpu = record c { current = some (record t { iopb = bitmap }) }
  let s = p.scheduler
  some (record {
    scheduler = record s { cpus = set s.cpus me c' };
    tss_iopb = set p.tss_iopb me bitmap;
  })

unfoldable pub allow_port_for_current : PortState → ℕ → ℕ → Option PortState
unfolding change_ports allow_port_bits
allow_port_for_current p me port = do
  c ← get_elem? p.scheduler.cpus me
  change_ports (λ bitmap. allow_port_bits bitmap port) p me c c.current

unfoldable pub deny_port_for_current : PortState → ℕ → ℕ → Option PortState
unfolding change_ports deny_port_bits
deny_port_for_current p me port = do
  c ← get_elem? p.scheduler.cpus me
  change_ports (λ bitmap. deny_port_bits bitmap port) p me c c.current

unfoldable pub current_has_port_access : PortState → ℕ → ℕ → Option Bool
unfolding is_port_allowed
current_has_port_access p me port = do
  c ← get_elem? p.scheduler.cpus me
  elim c.current [ none ↦ some false | some t ↦ is_port_allowed t.iopb port ]

-- A bitmap of the size of the TSS's.
abbrev pub IsIopb : List ℕ → Type 0
IsIopb bitmap = IsBytes bitmap × (length bitmap ≡ iopb_bytes)

replicate-IsBytes : (n b : ℕ) → b < 256 → IsBytes (replicate n b)
replicate-IsBytes zero b h = tt
replicate-IsBytes (suc n) b h = (h, replicate-IsBytes n b h)

-- A new thread has such a bitmap.
pub denied_ports-IsIopb : IsIopb denied_ports
denied_ports-IsIopb =
    (replicate-IsBytes iopb_bytes 0xFF (omega arith), length-replicate {A = ℕ} iopb_bytes 0xFF)

is_port_allowed_lem :
    (bitmap : List ℕ) (port : ℕ)
    → IsIopb bitmap
    → is_port_allowed bitmap port ≡ some (not (leb iopb_ports port) && not (bit_at bitmap port))
unfolding is_port_allowed
is_port_allowed_lem bitmap port (bytes, size) = elim (Bool-cases (leb iopb_ports port)) [
  | inl beyond ↦ rw beyond refl
  | inr within ↦ rw within (rw (test_bit_lem bitmap port (ground arith)) refl)
]

-- Allowing a port on the bitmap of a thread makes that port allowed, when it is one of the 1024 that
-- the bitmap covers, and changes nothing for any other port.
pub is_port_allowed-allow :
    (bitmap : List ℕ) (port : ℕ)
    → IsIopb bitmap
    → (bitmap' : List ℕ) × (allow_port_bits bitmap port ≡ some bitmap')
      × IsIopb bitmap'
      × ((other : ℕ)
          → is_port_allowed bitmap' other ≡ (
              if port == other && not (leb iopb_ports port)
              then some true
              else is_port_allowed bitmap other))
unfolding allow_port_bits
is_port_allowed-allow bitmap port (bytes, size) = elim (Bool-cases (leb iopb_ports port)) [
  | inl beyond ↦ (bitmap, rw beyond refl, (bytes, size), λ other. ground arith)
  | inr within ↦
      let (bitmap', e, bytes', size', bits) = clear_bit_lem bitmap port bytes (ground arith) in
      (
        bitmap',
        rw within e,
        (bytes', size' ∙ size),
        λ other. ground (
          arith,
          bits other,
          is_port_allowed_lem bitmap' other (bytes', size' ∙ size),
          is_port_allowed_lem bitmap other (bytes, size),
        ),
      )
]

-- Denying a port makes that port denied and changes nothing for any other.
pub is_port_allowed-deny :
    (bitmap : List ℕ) (port : ℕ)
    → IsIopb bitmap
    → (bitmap' : List ℕ) × (deny_port_bits bitmap port ≡ some bitmap')
      × IsIopb bitmap'
      × ((other : ℕ)
          → is_port_allowed bitmap' other
            ≡ (if port == other then some false else is_port_allowed bitmap other))
unfolding deny_port_bits
is_port_allowed-deny bitmap port (bytes, size) = elim (Bool-cases (leb iopb_ports port)) [
  | inl beyond ↦ (
    bitmap,
    rw beyond refl,
    (bytes, size),
    λ other. ground (arith, is_port_allowed_lem bitmap other (bytes, size)),
  )
  | inr within ↦
      let (bitmap', e, bytes', size', bits) = set_bit_lem bitmap port bytes (ground arith) in
      (
        bitmap',
        rw within e,
        (bytes', size' ∙ size),
        λ other. ground (
          arith,
          bits other,
          is_port_allowed_lem bitmap' other (bytes', size' ∙ size),
          is_port_allowed_lem bitmap other (bytes, size),
        ),
      )
]
