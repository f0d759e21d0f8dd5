-- ===== src/Tpm.antt =====
-- The measured-boot log, kernel_common/src/tpm.rs. The hash of kernel_common/src/crypto.rs is a
-- parameter: the digest of the bytes that a fresh `Sha256` was updated with.
pub mod Chain
mod Tests
use agentic_os.Base.{
  ℕ, zero, suc, ◌+◌, ◌-◌, ◌≡◌, ◌≤◌, ◌<◌, refl, sym, ◌∙◌, ap, inl, inr, min, List, [], ◌∷◌, ◌++◌,
  Bool, true, false, Option, none, some, ◌>>=◌, ◌==◌, ltb, leb, u16, length, take, drop, get_elem?,
  set, replicate, length-append, length-set, length-replicate, get_elem?-set_self, get_elem?-set_ne,
  get_elem?-some, Bool-cases, if◌then◌else◌, arith,
}

abbrev pub max_tpm_events : ℕ
max_tpm_events = 16

pub record TcgEvent : Type 0 where
  pub pcr_index : ℕ
  pub event_type : ℕ
  pub digest : List ℕ
  pub event_data_len : ℕ
  pub event_data : List ℕ

abbrev pub zero_digest : List ℕ
zero_digest = replicate 32 0

-- `TcgEvent::empty`
abbrev pub empty_event : TcgEvent
empty_event = record {
  pcr_index = 0;
  event_type = 0;
  digest = zero_digest;
  event_data_len = 0;
  event_data = replicate 32 0;
}

-- `TcgEvent::new`: the first 32 bytes of the data, filled up with zeros.
unfoldable pub new_event : ℕ → ℕ → List ℕ → List ℕ → TcgEvent
new_event pcr_index event_type digest bytes =
    let copy_len = min (length bytes) 32 in
    record {
      pcr_index = pcr_index;
      event_type = event_type;
      digest = digest;
      event_data_len = u16 copy_len;
      event_data = take copy_len bytes ++ drop copy_len (replicate 32 0);
    }

pub record TcgEventLog : Type 0 where
  pub magic : List ℕ
  pub count : ℕ
  pub events : List TcgEvent

-- `*b"TCGLOG2\0"`
abbrev pub tpm_log_magic : List ℕ
tpm_log_magic = 84 ∷ 67 ∷ 71 ∷ 76 ∷ 79 ∷ 71 ∷ 50 ∷ 0 ∷ []

-- `TcgEventLog::new`
abbrev pub new_log : TcgEventLog
new_log = record { magic = tpm_log_magic; count = 0; events = replicate max_tpm_events empty_event }

-- `TcgEventLog::record`: the log and whether there was room. The index is in bounds of the array of
-- `max_tpm_events` events, and the count stays below it.
unfoldable pub record_measurement : TcgEventLog → ℕ → ℕ → List ℕ → List ℕ → TcgEventLog × Bool
unfolding new_event
record_measurement l pcr_index event_type digest bytes =
    if leb max_tpm_events l.count then (l, false) else (
      record l {
        events = set l.events l.count (new_event pcr_index event_type digest bytes);
        count = l.count + 1;
      },
      true,
    )

module _ (sha256 : List ℕ → List ℕ) where
  -- The extension of a register by a digest.
  unfoldable pub extend : List ℕ → List ℕ → List ℕ
  extend pcr digest = sha256 (pcr ++ digest)

  -- The loop of `compute_pcr` over `n` events from index `i` on; an index out of bounds panics.
  unfoldable pub replay : List TcgEvent → ℕ → List ℕ → ℕ → ℕ → Option (List ℕ)
  unfolding extend
  replay events pcr_index pcr i zero = some pcr
  replay events pcr_index pcr i (suc n) = do
    event ← get_elem? events i
    let pcr' = if event.pcr_index == pcr_index then extend pcr event.digest else pcr
    replay events pcr_index pcr' (i + 1) n

  unfoldable pub compute_pcr : TcgEventLog → ℕ → Option (List ℕ)
  unfolding replay
  compute_pcr l pcr_index = replay l.events pcr_index zero_digest 0 l.count
