-- ===== src/Tpm/Chain.antt =====
-- The registers that kernel_common/src/tpm.rs computes from its log are the hash chain over what was
-- measured.
use agentic_os.Base.{
  ℕ, zero, suc, ◌+◌, ◌-◌, ◌≡◌, ◌≢◌, ◌≤◌, ◌<◌, refl, sym, ◌∙◌, ap, inl, inr, min, List, [], ◌∷◌,
  ◌++◌, some, ◌>>=◌, ◌==◌, leb, length, take, get_elem?, set, length-set, length-replicate,
  get_elem?-set_self, get_elem?-set_ne, bind-some, Bool-cases, if◌then◌else◌, arith,
}
use native.Mathlib.Nat.{add-zero, zero-add}
use agentic_os.Tpm.{
  TcgEvent, TcgEventLog, max_tpm_events, empty_event, zero_digest, new_event, new_log,
  record_measurement, extend, replay, compute_pcr,
}

-- What is measured: register, type, digest and data.
abbrev pub Measurement : Type 0
Measurement = ℕ × ℕ × List ℕ × List ℕ

unfoldable pub record_all : TcgEventLog → List Measurement → TcgEventLog
record_all l [] = l
record_all l ((index, type, digest, bytes) ∷ ms) =
    record_all (record_measurement l index type digest bytes).0 ms

abbrev pub IsLog : TcgEventLog → Type 0
IsLog l = (length l.events ≡ max_tpm_events) × (l.count ≤ max_tpm_events)

module _ (sha256 : List ℕ → List ℕ) (register : ℕ) where
  -- The hash chain over measurements, without a log: a measurement of another register is skipped.
  abbrev pub chain : List ℕ → List Measurement → List ℕ
  chain pcr [] = pcr
  chain pcr ((index, type, digest, bytes) ∷ ms) =
      chain (if index == register then sha256 (pcr ++ digest) else pcr) ms

  abbrev extended : TcgEvent → List ℕ → List ℕ
  extended e pcr = if e.pcr_index == register then sha256 (pcr ++ e.digest) else pcr

  -- A write behind the events that are replayed changes nothing.
  replay-set :
      (n : ℕ) (events : List TcgEvent) (pcr : List ℕ) (i k : ℕ) (e : TcgEvent)
      → i + n ≤ k
      → replay sha256 (set events k e) register pcr i n ≡ replay sha256 events register pcr i n
  unfolding replay extend
  replay-set zero events pcr i k e h = refl
  replay-set (suc n) events pcr i k e h =
      let other : k ≢ i = omega arith in
      rw (get_elem?-set_ne events k i e other) (
        ap (λ f. get_elem? events i >>= f)
          (λ j x. replay-set n events (extended x pcr) (i + 1) k e (omega arith) j))

  -- One event more.
  replay-snoc :
      (n : ℕ) (events : List TcgEvent) (pcr : List ℕ) (i : ℕ) (p : List ℕ) (e : TcgEvent)
      → replay sha256 events register pcr i n ≡ some p
      → get_elem? events (i + n) ≡ some e
      → replay sha256 events register pcr i (suc n) ≡ some (extended e p)
  unfolding replay extend
  replay-snoc zero events pcr i p e h g =
      let at_i : get_elem? events i ≡ some e =
        ap (λ (n : ℕ). get_elem? events n) (sym (add-zero i)) ∙ g in
      let same : pcr ≡ p = cc in rw at_i (ap (λ p. some (extended e p)) same)
  replay-snoc (suc n) events pcr i p e h g =
      let (first, e1, h1) = bind-some (get_elem? events i) _ p h in
      let shift : i + 1 + n ≡ i + suc n = omega arith in
      rw e1 (
        replay-snoc n events (extended first pcr) (i + 1) p e h1
          (ap (λ (n : ℕ). get_elem? events n) shift ∙ g))

  -- One measurement that has room.
  recorded :
      (l : TcgEventLog) (p : List ℕ) (e : TcgEvent)
      → length l.events ≡ max_tpm_events
      → l.count < max_tpm_events
      → compute_pcr sha256 l register ≡ some p
      → compute_pcr sha256
          (record l { events = set l.events l.count e; count = l.count + 1 })
          register
        ≡ some (extended e p)
  unfolding compute_pcr
  recorded l p e size room h =
      let events = set l.events l.count e in
      let next : l.count + 1 ≡ suc l.count = omega arith in
      ap (λ n. replay sha256 events register zero_digest 0 n) next
      ∙ replay-snoc l.count events zero_digest 0 p e
          (replay-set l.count l.events zero_digest 0 l.count e (omega arith) ∙ h)
          (ap (λ (n : ℕ). get_elem? events n) (zero-add l.count)
            ∙ get_elem?-set_self l.events l.count e (omega arith))

  chain-take : (p : List ℕ) (n : ℕ) → chain p (take n []) ≡ p
  chain-take p zero = refl
  chain-take p (suc n) = refl

  record_all-chain :
      (ms : List Measurement) (l : TcgEventLog) (p : List ℕ)
      → IsLog l
      → compute_pcr sha256 l register ≡ some p
      → (compute_pcr sha256 (record_all l ms) register
          ≡ some (chain p (take (max_tpm_events - l.count) ms)))
        × ((record_all l ms).count ≡ min (l.count + length ms) max_tpm_events)
  unfolding record_all record_measurement new_event
  record_all-chain [] l p (size, bound) h = (h ∙ ap some (sym (chain-take p _)), omega arith)
  record_all-chain ((index, type, digest, bytes) ∷ ms) l p (size, bound) h =
      elim (Bool-cases (leb max_tpm_events l.count)) [
        | inl full ↦
            let (pcr, count) = record_all-chain ms l p (size, bound) h in
            let none_left : max_tpm_events - l.count ≡ 0 = ground arith in
            rw full (rw none_left (pcr ∙ rw none_left refl, ground (arith, count)))
        | inr room ↦
            let e = new_event index type digest bytes in
            let l' : TcgEventLog = record l {
              events = set l.events l.count e;
              count = l.count + 1;
            } in
            let (pcr, count) =
              record_all-chain ms l' (extended e p)
                (length-set l.events l.count e ∙ size, ground arith)
                (recorded l p e size (ground arith) h) in
            let left : max_tpm_events - l.count ≡ suc (max_tpm_events - (l.count + 1)) =
              ground arith in
            let step : record_all l ((index, type, digest, bytes) ∷ ms) ≡ record_all l' ms =
              rw room refl in
            (
              ap (λ k. compute_pcr sha256 k register) step ∙ rw left pcr,
              omega (arith, count, ap (λ (k : TcgEventLog). k.count) step),
            )
      ]

  -- After any sequence of measurements on a new log, the value computed for a register is the hash
  -- chain from zeros over the first 16 measurements, those of other registers skipped; later ones are
  -- not recorded, and the count stops at 16. The hash is any function of bytes.
  pub compute_pcr-chain :
      (ms : List Measurement)
      → (compute_pcr sha256 (record_all new_log ms) register
          ≡ some (chain zero_digest (take max_tpm_events ms)))
        × ((record_all new_log ms).count ≡ min (length ms) max_tpm_events)
  unfolding compute_pcr replay
  compute_pcr-chain ms =
      let (pcr, count) =
        record_all-chain ms new_log zero_digest
          (length-replicate max_tpm_events empty_event, omega arith) refl in
      (pcr, omega (arith, count))
