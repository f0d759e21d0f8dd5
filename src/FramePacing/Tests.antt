-- ===== src/FramePacing/Tests.antt =====
-- Runs of the definitions of kernel_common/src/frame_pacing.rs, and examples of the theorems about them.
use agentic_os.Base.{◌+◌, ◌-◌, ◌*◌, ◌≡◌, ◌≤◌, refl, List, [], ◌∷◌, false, arith}
use agentic_os.FramePacing.{FramePacer, request_presentation, DisplayTiming}
use agentic_os.FramePacing.Rate.{PacerOp, run_pacer, run_pacer_bound}

abbrev started : FramePacer
started = record {
  target_fps = 60;
  last_present_tsc = 1000;
  has_damage = false;
  dropped_frames = 0;
  presented_frames = 1;
}

abbrev frame_requests : List PacerOp
frame_requests =
    PacerOp.damages
    ∷ PacerOp.requests 2000
    ∷ PacerOp.requests 40000
    ∷ PacerOp.damages
    ∷ PacerOp.requests 41000
    ∷ []

-- The second request is the only one whose deadline has passed.
one_frame : (run_pacer started 1 frame_requests).1 ≡ 1
unfolding run_pacer request_presentation
one_frame = refl

run_pacer_bound_example :
    let (last, count) = run_pacer started 1 frame_requests in
    (1000 ≤ last.last_present_tsc)
    × (count * (1000000 * 1) ≤ (last.last_present_tsc - 1000 + count * 1) * 60)
run_pacer_bound_example =
    run_pacer_bound 1 frame_requests started (λ z. omega arith) (omega arith) (omega arith)
      (omega arith) (omega arith)

abbrev display : DisplayTiming
display = record { refresh_rate_hz = 50; last_vsync_tsc = 1000; total_vsync_events = 1 }
