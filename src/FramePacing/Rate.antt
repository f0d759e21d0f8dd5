-- ===== src/FramePacing/Rate.antt =====
-- How often kernel_common/src/frame_pacing.rs presents, and when the next deadline is.
use agentic_os.Base.{
  ℕ, suc, ◌+◌, ◌-◌, ◌*◌, ◌/◌, ◌^◌, ◌≡◌, ◌≢◌, ◌≤◌, ◌<◌, refl, ap, inl, inr, List, [], ◌∷◌, true,
  false, leb, ◌==◌, ◌⊎◌, Bool-cases, if◌then◌else◌, arith,
}
use native.Mathlib.Nat.{
  zero-mul, suc-mul, div-add-mod', mod-lt, mod-eq_of_lt, le-div_iff_mul-le, mul-le-mul,
  mul-le-mul_left, mul-le-mul_right, div-le_self,
}
use agentic_os.FramePacing.{
  FramePacer, frame_interval_cycles, frame_interval_us, mark_damage, presented, dropped,
  request_presentation,
}

-- What clients do: damage the screen, or ask for a frame, unforced, at a time.
pub data PacerOp : Type 0 where
  damages : PacerOp
  requests : ℕ → PacerOp

-- The pacer after the operations and the number of frames that were presented.
unfoldable pub run_pacer : FramePacer → ℕ → List PacerOp → FramePacer × ℕ
run_pacer p cycles [] = (p, 0)
run_pacer p cycles (PacerOp.damages ∷ ops) = run_pacer (mark_damage p) cycles ops
run_pacer p cycles (PacerOp.requests now ∷ ops) =
    let (p', shown) = request_presentation p now cycles false in
    let (last, count) = run_pacer p' cycles ops in (last, if shown then suc count else count)

-- What an unforced request does once a frame has been presented.
request_cases :
    (p : FramePacer) (now cycles : ℕ)
    → p.last_present_tsc ≢ 0
    → (request_presentation p now cycles false ≡ (p, false))
      ⊎ (((request_presentation p now cycles false ≡ (presented p now, true))
            × (frame_interval_cycles p cycles ≤ now - p.last_present_tsc))
          ⊎ (request_presentation p now cycles false ≡ (dropped p, false)))
unfolding request_presentation
request_cases p now cycles h = elim (Bool-cases p.has_damage) [
  | inr clean ↦ inl (rw clean refl)
  | inl damaged ↦
      let running : (p.last_present_tsc == 0) ≡ false = ground arith in
      elim (Bool-cases (leb (frame_interval_cycles p cycles) (now - p.last_present_tsc))) [
        | inl due ↦ inr (inl (rw damaged (rw running (rw due refl)), ground arith))
        | inr early ↦ inr (inr (rw damaged (rw running (rw early refl))))
      ]
]

module _ (cycles : ℕ) where
  same_interval :
      (p : FramePacer) (now : ℕ)
      → (frame_interval_cycles (presented p now) cycles ≡ frame_interval_cycles p cycles)
        × (frame_interval_cycles (dropped p) cycles ≡ frame_interval_cycles p cycles)
        × (frame_interval_cycles (mark_damage p) cycles ≡ frame_interval_cycles p cycles)
  unfolding frame_interval_cycles frame_interval_us
  same_interval p now = (refl, refl, refl)

  run_pacer-interval :
      (ops : List PacerOp) (p : FramePacer)
      → p.last_present_tsc ≢ 0
      → 0 < frame_interval_cycles p cycles
      → p.last_present_tsc + (run_pacer p cycles ops).1 * frame_interval_cycles p cycles
        ≤ (run_pacer p cycles ops).0.last_present_tsc
  unfolding run_pacer
  run_pacer-interval [] p h i = omega (arith, zero-mul (frame_interval_cycles p cycles))
  run_pacer-interval (PacerOp.damages ∷ ops) p h i =
      let same = (same_interval p 0).2 in
      let ih = run_pacer-interval ops (mark_damage p) h (omega arith) in
      omega (arith, ih, ap (λ m. (run_pacer (mark_damage p) cycles ops).1 * m) same)
  run_pacer-interval (PacerOp.requests now ∷ ops) p h i =
      let n = frame_interval_cycles p cycles in
      let (s1, s2, s3) = same_interval p now in
      elim (request_cases p now cycles h) [
        | inl e ↦ rw e (run_pacer-interval ops p h i)
        | inr (inr e) ↦
            let ih = run_pacer-interval ops (dropped p) h (omega arith) in
            rw e (omega (arith, ih, ap (λ m. (run_pacer (dropped p) cycles ops).1 * m) s2))
        | inr (inl (e, due)) ↦
            let ih = run_pacer-interval ops (presented p now) (λ z. omega arith) (omega arith) in
            let count = (run_pacer (presented p now) cycles ops).1 in
            rw e (omega (arith, ih, ap (λ m. count * m) s1, suc-mul count n))
      ]

  -- An interval in microseconds falls short of the exact one by less than a microsecond.
  interval-fps :
      (p : FramePacer)
      → 0 < p.target_fps
      → p.target_fps ≤ 1000000
      → 0 < cycles
      → 1000000 * cycles < 2 ^ 64
      → (i : ℕ) × (frame_interval_cycles p cycles ≡ i * cycles)
        × (0 < i)
        × (1000000 < i * p.target_fps + p.target_fps)
  unfolding frame_interval_cycles frame_interval_us
  interval-fps p h g c b =
      let i = 1000000 / p.target_fps in
      let split = div-add-mod' 1000000 p.target_fps in
      let rest = mod-lt 1000000 {m = p.target_fps} h in
      let running : (p.target_fps == 0) ≡ false = ground arith in
      let some_time : 1 ≤ i = (le-div_iff_mul-le h).1 (omega arith) in
      let short : i * cycles ≤ 1000000 * cycles =
        mul-le-mul_right cycles (div-le_self 1000000 p.target_fps) in
      (i, rw running (mod-eq_of_lt (omega (arith, short))), some_time, omega (arith, split, rest))

  rate_bound :
      (count i fps elapsed : ℕ)
      → count * (i * cycles) ≤ elapsed
      → 1000000 < i * fps + fps
      → count * (1000000 * cycles) ≤ (elapsed + count * cycles) * fps
  rate_bound count i fps elapsed h g =
      let frames : count * (i * cycles) * fps ≤ elapsed * fps = mul-le-mul_right fps h in
      let seconds : count * cycles * 1000000 ≤ count * cycles * (i * fps + fps) =
        mul-le-mul_left (count * cycles) (omega (arith, g)) in
      omega (arith, frames, seconds)

  -- Once a frame has been presented, unforced requests present at most at the target rate, but for one
  -- microsecond less per frame, by which the interval in whole microseconds may be too short: the time
  -- from then to the last of `count` further frames and `count` microseconds together are at least
  -- `count` seconds over `target_fps`, whatever the times of the requests and however much is damaged.
  -- The target is between 1 and 1000000 frames a second, and the cycles of a second are below 2 ^ 64 and
  -- not 0.
  pub run_pacer_bound :
      (ops : List PacerOp) (p : FramePacer)
      → p.last_present_tsc ≢ 0
      → 0 < p.target_fps
      → p.target_fps ≤ 1000000
      → 0 < cycles
      → 1000000 * cycles < 2 ^ 64
      → let (last, count) = run_pacer p cycles ops in
        (p.last_present_tsc ≤ last.last_present_tsc)
        × (count * (1000000 * cycles)
            ≤ (last.last_present_tsc - p.last_present_tsc + count * cycles) * p.target_fps)
  run_pacer_bound ops p shown h g c b =
      let (i, e, some_time, exact) = interval-fps p h g c b in
      let count = (run_pacer p cycles ops).1 in
      let some_cycles : 1 * 1 ≤ i * cycles = mul-le-mul some_time c in
      let spaced = run_pacer-interval ops p shown (omega (arith, some_cycles, e)) in
      let same : count * frame_interval_cycles p cycles ≡ count * (i * cycles) =
        ap (λ n. count * n) e in
      (omega (arith, spaced), rate_bound count i p.target_fps _ (omega (arith, spaced, same)) exact)
