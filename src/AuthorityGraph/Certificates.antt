-- ===== src/AuthorityGraph/Certificates.antt =====
-- The certificates of kernel_common/src/impossibility_certificate.rs: what makes one stale.
use agentic_os.Base.{ℕ, ◌≡◌, ◌≢◌, Bool}
use agentic_os.AuthorityGraph.{Grant, cpu_process, pci_device, mix_principal}
use agentic_os.AuthorityGraph.Checksum.{mix_fields}

-- A grant with another value in one field.
pub data Changes (g : Grant) : Grant → Type 0 where
  phys_base : (v : ℕ) → v ≢ g.phys_base → Changes g (record g { phys_base = v })
  len : (v : ℕ) → v ≢ g.len → Changes g (record g { len = v })
  writable : (v : Bool) → v ≢ g.writable → Changes g (record g { writable = v })
  executable : (v : Bool) → v ≢ g.executable → Changes g (record g { executable = v })
  process :
      (id v : ℕ)
      → g.principal ≡ cpu_process id
      → v ≢ id
      → Changes g (record g { principal = cpu_process v })
  bus :
      (b d f v : ℕ)
      → g.principal ≡ pci_device b d f
      → v ≢ b
      → Changes g (record g { principal = pci_device v d f })
  device :
      (b d f v : ℕ)
      → g.principal ≡ pci_device b d f
      → v ≢ d
      → Changes g (record g { principal = pci_device b v f })
  function :
      (b d f v : ℕ)
      → g.principal ≡ pci_device b d f
      → v ≢ f
      → Changes g (record g { principal = pci_device b d v })

abbrev mix_grant : ℕ → Grant → ℕ
mix_grant h g = mix_fields (mix_principal h g.principal) g
