-- ===== src/Manifest.antt =====
-- Manifests of applications, kernel_rs/src/manifest.rs: a 16-bit mask over the kinds of capability.
mod Tests
use agentic_os.Base.{
  ℕ, ◌^◌, ◌≡◌, ◌∙◌, sym, Bool, true, false, not, ◌||◌, ◌==◌, bit_and, bit_or, max, arith,
}
use agentic_os.Base.NthBit.{nth_bit, nth_bit-le-one, nth_bit-bit_or, nth_bit-pow, has_digit}
use agentic_os.Capability.{KernelObjectKind}

pub data CapKind : Type 0 where
  ipc_endpoint mmio_region interrupt_line port_io_range file_object introspection_handle : CapKind
  audit_query_handle socket surface user_session crypto_key dns_resolver exec_handle : CapKind

-- The discriminants.
abbrev pub kind_number : CapKind → ℕ
kind_number CapKind.ipc_endpoint = 0
kind_number CapKind.mmio_region = 1
kind_number CapKind.interrupt_line = 2
kind_number CapKind.port_io_range = 3
kind_number CapKind.file_object = 4
kind_number CapKind.introspection_handle = 5
kind_number CapKind.audit_query_handle = 6
kind_number CapKind.socket = 7
kind_number CapKind.surface = 8
kind_number CapKind.user_session = 9
kind_number CapKind.crypto_key = 10
kind_number CapKind.dns_resolver = 11
kind_number CapKind.exec_handle = 12

unfoldable pub kind_of : KernelObjectKind → CapKind
kind_of KernelObjectKind.ipc_endpoint = CapKind.ipc_endpoint
kind_of (KernelObjectKind.mmio_region base length) = CapKind.mmio_region
kind_of (KernelObjectKind.interrupt_line irq) = CapKind.interrupt_line
kind_of (KernelObjectKind.port_io_range base count) = CapKind.port_io_range
kind_of (KernelObjectKind.file_object inode) = CapKind.file_object
kind_of KernelObjectKind.introspection_handle = CapKind.introspection_handle
kind_of KernelObjectKind.audit_query_handle = CapKind.audit_query_handle
kind_of (KernelObjectKind.socket protocol port remote remote_port) = CapKind.socket
kind_of (KernelObjectKind.surface x y width height) = CapKind.surface
kind_of (KernelObjectKind.user_session uid) = CapKind.user_session
kind_of (KernelObjectKind.crypto_key slot) = CapKind.crypto_key
kind_of (KernelObjectKind.dns_resolver server) = CapKind.dns_resolver
kind_of KernelObjectKind.exec_handle = CapKind.exec_handle

abbrev pub Manifest : Type 0
Manifest = ℕ

-- `Manifest::NONE`
abbrev pub empty_manifest : Manifest
empty_manifest = 0

unfoldable pub allow : Manifest → CapKind → Manifest
allow m kind = bit_or m (2 ^ kind_number kind)

unfoldable pub declares : Manifest → CapKind → Bool
declares m kind = not (bit_and m (2 ^ kind_number kind) == 0)

-- After `allow` a manifest declares the new kind, and otherwise what it declared before, for any
-- manifest and any two kinds.
declares-allow :
    (m : Manifest) (kind other : CapKind)
    → declares (allow m kind) other ≡ (kind_number kind == kind_number other) || declares m other
unfolding declares allow
declares-allow m kind other =
    let k = kind_number kind in
    let o = kind_number other in
    ground (
      arith,
      has_digit (bit_or m (2 ^ k)) o,
      has_digit m o,
      nth_bit-bit_or m (2 ^ k) o,
      nth_bit-pow k o,
      nth_bit-le-one m o,
    )
