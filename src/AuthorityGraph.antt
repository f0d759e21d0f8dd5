-- ===== src/AuthorityGraph.antt =====
-- The authority graph, kernel_common/src/authority_graph.rs, with the certificates of
-- kernel_common/src/impossibility_certificate.rs and the envelopes of
-- kernel_common/src/discovered_envelope.rs. A graph is a slice of slots. An output slice is
-- modelled by its length `room` and the entries written to its front, in order.
pub mod Reach
pub mod Projection
pub mod Checksum
pub mod Certificates
pub mod Envelope
mod Tests
use agentic_os.Base.{
  ℕ, zero, suc, ◌+◌, ◌-◌, ◌*◌, ◌/◌, ◌%◌, ◌^◌, List, [], ◌∷◌, ◌++◌, Bool, true, false, ◌&&◌, Option,
  none, some, ltb, leb, ◌==◌, if◌then◌else◌, u64, length, bit_or, bit_xor,
}

pub data Principal : Type 0 where
  cpu_process : (id : ℕ) → Principal
  pci_device : (bus device function : ℕ) → Principal

-- The derived equality of `Principal`.
unfoldable pub same_principal : Principal → Principal → Bool
same_principal (cpu_process a) (cpu_process b) = a == b
same_principal (cpu_process a) (pci_device b d f) = false
same_principal (pci_device b d f) (cpu_process a) = false
same_principal (pci_device b d f) (pci_device b' d' f') = b == b' && d == d' && f == f'

pub record Grant : Type 0 where
  pub principal : Principal
  pub phys_base : ℕ
  pub len : ℕ
  pub writable : Bool
  pub executable : Bool

pub record Entry : Type 0 where
  pub phys_page : ℕ
  pub writable : Bool
  pub executable : Bool

abbrev pub page_size : ℕ
page_size = 4096

abbrev pub Graph : Type 0
Graph = List (Option Grant)

-- `pages_for`, which wraps in a release build.
abbrev pub pages_for : ℕ → ℕ
pages_for len = (len + page_size + 2 ^ 64 - 1) % 2 ^ 64 / page_size

-- `grant`
unfoldable pub grant : Graph → Grant → Graph × Bool
grant [] g = ([], false)
grant (none ∷ slots) g = (some g ∷ slots, true)
grant (some old ∷ slots) g = let (rest, added) = grant slots g in (some old ∷ rest, added)

-- The test of the loop of `revoke`.
abbrev pub is_revoked : Principal → ℕ → Grant → Bool
is_revoked principal base g = same_principal g.principal principal && g.phys_base == base

-- `revoke`, with the number of grants removed.
unfoldable pub revoke : Graph → Principal → ℕ → Graph × ℕ
revoke [] principal base = ([], 0)
revoke (none ∷ slots) principal base =
    let (rest, removed) = revoke slots principal base in (none ∷ rest, removed)
revoke (some g ∷ slots) principal base =
    let (rest, removed) = revoke slots principal base in
    if is_revoked principal base g then (none ∷ rest, removed + 1) else (some g ∷ rest, removed)

-- The inner loop of `project` from page `p` with `left` pages to go and `room` entries free.
unfoldable pub project_pages : Grant → ℕ → ℕ → ℕ → List Entry
project_pages g p zero room = []
project_pages g p (suc left) zero = []
project_pages g p (suc left) (suc room) =
    record {
      phys_page = u64 (g.phys_base + p * page_size);
      writable = g.writable;
      executable = g.executable;
    }
    ∷ project_pages g (p + 1) left room

-- `project`: with no room left nothing more is written, which is its `break`.
unfoldable pub project : Graph → Principal → ℕ → List Entry
project [] principal room = []
project (none ∷ slots) principal room = project slots principal room
project (some g ∷ slots) principal room =
    let here = project_pages g 0 (pages_for g.len) room in
    let after = project slots principal (room - length here) in
    let skipped = project slots principal room in
    if same_principal g.principal principal then here ++ after else skipped

-- `project_page_table`
unfoldable pub project_page_table : Graph → Principal → ℕ → List Entry
project_page_table graph (cpu_process id) room = project graph (cpu_process id) room
project_page_table graph (pci_device b d f) room = []

-- `project_iommu_table`
unfoldable pub project_iommu_table : Graph → Principal → ℕ → List Entry
project_iommu_table graph (pci_device b d f) room = project graph (pci_device b d f) room
project_iommu_table graph (cpu_process id) room = []

-- The test of the loop of `is_reachable` at a grant.
abbrev pub reaches : Principal → ℕ → Grant → Bool
reaches principal phys_page g =
    same_principal g.principal principal
    && (leb g.phys_base phys_page
        && ltb phys_page (u64 (g.phys_base + u64 (pages_for g.len * page_size))))

-- `is_reachable`
unfoldable pub is_reachable : Graph → Principal → ℕ → Bool
is_reachable [] principal phys_page = false
is_reachable (none ∷ slots) principal phys_page = is_reachable slots principal phys_page
is_reachable (some g ∷ slots) principal phys_page =
    let rest = is_reachable slots principal phys_page in
    if reaches principal phys_page g then true else rest

pub record Certificate : Type 0 where
  pub principal : Principal
  pub phys_page : ℕ
  pub graph_checksum : ℕ

pub data Verdict : Type 0 where
  valid stale : Verdict

-- The closure `mix` of `checksum_graph`.
abbrev pub mix : ℕ → ℕ → ℕ
mix h v = u64 (bit_xor h v * 0x100000001b3)

abbrev pub bit_of : Bool → ℕ
bit_of true = 1
bit_of false = 0

pub mix_principal : ℕ → Principal → ℕ
mix_principal h (cpu_process id) = mix (mix (mix h 0) id) 0
mix_principal h (pci_device bus device function) =
    mix (mix (mix h 1) bus) (bit_or (u64 (device * 2 ^ 8)) function)

-- The loop of `checksum_graph`.
pub checksum_from : ℕ → Graph → ℕ
unfolding mix_principal
checksum_from h [] = h
checksum_from h (none ∷ slots) = checksum_from h slots
checksum_from h (some g ∷ slots) =
    checksum_from
      (mix (mix (mix (mix (mix_principal h g.principal) g.phys_base) g.len) (bit_of g.writable))
        (bit_of g.executable))
      slots

-- `checksum_graph`
unfoldable pub checksum_graph : Graph → ℕ
unfolding checksum_from
checksum_graph graph = checksum_from 0xcbf29ce484222325 graph

-- `issue`
unfoldable pub issue : Graph → Principal → ℕ → Option Certificate
issue graph principal phys_page =
    if is_reachable graph principal phys_page
    then none
    else some (record {
      principal = principal;
      phys_page = phys_page;
      graph_checksum = checksum_graph graph;
    })

-- `verify`
unfoldable pub verify : Graph → Certificate → Verdict
verify graph cert = if checksum_graph graph == cert.graph_checksum then valid else stale

-- The search of `discover_envelope` in what it has written.
unfoldable pub already_seen : List ℕ → ℕ → Bool
already_seen [] addr = false
already_seen (a ∷ seen) addr = let rest = already_seen seen addr in if a == addr then true else rest

-- The loop of `discover_envelope` with the entries written so far.
unfoldable pub discover_from : List ℕ → ℕ → List ℕ → List ℕ
discover_from written room [] = written
discover_from written room (addr ∷ attempts) =
    let kept = discover_from written room attempts in
    let added = discover_from (written ++ addr ∷ []) room attempts in
    if leb room (length written) then written else if already_seen written addr then kept else added

-- `discover_envelope`
unfoldable pub discover_envelope : List ℕ → ℕ → List ℕ
discover_envelope attempts room = discover_from [] room attempts

-- `freeze_envelope`
unfoldable pub freeze_envelope : Graph → Principal → List ℕ → Graph × ℕ
freeze_envelope graph principal [] = (graph, 0)
freeze_envelope graph principal (phys_page ∷ envelope) =
    let (graph, added) = grant graph (record {
      principal = principal;
      phys_base = phys_page;
      len = 4096;
      writable = true;
      executable = false;
    }) in
    let (graph, granted) = freeze_envelope graph principal envelope in
    (graph, if added then granted + 1 else granted)
