-- ===== src/Discovery/Tests.antt =====
-- The theorems on discovery at concrete inputs.
use agentic_os.Base.{ℕ, ◌≤◌, ◌≡◌, List, [], ◌∷◌, some, length}
use agentic_os.Discovery.{PciId, DriverEntry, vendor_device, class_triple, CpuEntry, parse_cpus}
use agentic_os.Discovery.Processors.{parse_cpus-total}

abbrev nvme : PciId
nvme = record {
  bus = 0;
  device_slot = 4;
  function = 0;
  vendor = 0x1b36;
  device = 16;
  class = 1;
  subclass = 8;
  prog_if = 2;
}

abbrev drivers : List (DriverEntry ℕ)
drivers =
    record { rule = vendor_device 0x1af4 0x1000; handler = 10 }
    ∷ record { rule = class_triple 1 8 2; handler = 20 }
    ∷ []

-- One local APIC entry, then an entry of length 0.
abbrev table : List ℕ
table = 0 ∷ 0 ∷ 224 ∷ 254 ∷ 1 ∷ 0 ∷ 0 ∷ 0 ∷ 0 ∷ 8 ∷ 0 ∷ 3 ∷ 1 ∷ 0 ∷ 0 ∷ 0 ∷ 5 ∷ 0 ∷ []

parse_cpus-total_example : (r : List CpuEntry) × (parse_cpus table 4 ≡ some r) × (length r ≤ 4)
parse_cpus-total_example = parse_cpus-total table 4
