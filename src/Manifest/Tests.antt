-- ===== src/Manifest/Tests.antt =====
-- Runs of the definitions of kernel_rs/src/manifest.rs, and examples of the theorems about it.
use agentic_os.Base.{◌≡◌, refl, true}
use agentic_os.Manifest.{CapKind, allow, declares, empty_manifest}

two_kinds :
    declares (allow (allow empty_manifest CapKind.socket) CapKind.surface) CapKind.socket ≡ true
unfolding declares allow
two_kinds = refl
