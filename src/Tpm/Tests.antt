-- ===== src/Tpm/Tests.antt =====
-- Runs of the definitions of kernel_common/src/tpm.rs, and examples of the theorems about them.
use agentic_os.Base.{ℕ, ◌+◌, ◌≡◌, refl, min, List, [], ◌∷◌, some, length, take}
use agentic_os.Tpm.{max_tpm_events, new_log, zero_digest, compute_pcr}
use agentic_os.Tpm.Chain.{Measurement, record_all, chain, compute_pcr-chain}

-- A stand-in for the hash: the length and the sum of the bytes.
abbrev sum : List ℕ → ℕ
sum [] = 0
sum (b ∷ bs) = b + sum bs

abbrev checksum : List ℕ → List ℕ
checksum bytes = sum bytes ∷ length bytes ∷ []

abbrev boot_measurements : List Measurement
boot_measurements = (4, 5, 1 ∷ [], 98 ∷ []) ∷ (9, 13, 2 ∷ [], []) ∷ (4, 4, 3 ∷ [], []) ∷ []

compute_pcr-chain_example :
    (compute_pcr checksum (record_all new_log boot_measurements) 4
      ≡ some (chain checksum 4 zero_digest (take max_tpm_events boot_measurements)))
    × ((record_all new_log boot_measurements).count ≡ min (length boot_measurements) max_tpm_events)
compute_pcr-chain_example = compute_pcr-chain checksum 4 boot_measurements

-- The register of the loader holds its two measurements, and not the kernel's.
loader_register : chain checksum 4 zero_digest boot_measurements ≡ 37 ∷ 3 ∷ []
loader_register = refl
