-- ===== src/FramePacing.antt =====
-- Frame pacing and display timing, kernel_common/src/frame_pacing.rs, on u64 counters of cycles.
pub mod Rate
mod Tests
use agentic_os.Base.{
  ℕ, suc, ◌+◌, ◌-◌, ◌*◌, ◌/◌, List, [], ◌∷◌, Bool, true, false, not, ◌&&◌, ◌||◌, leb, ◌==◌, u64,
  if◌then◌else◌,
}

pub record FramePacer : Type 0 where
  pub target_fps : ℕ
  pub last_present_tsc : ℕ
  pub has_damage : Bool
  pub dropped_frames : ℕ
  pub presented_frames : ℕ

-- `FramePacer::new`
abbrev pub new_pacer : ℕ → FramePacer
new_pacer target_fps = record {
  target_fps = target_fps;
  last_present_tsc = 0;
  has_damage = false;
  dropped_frames = 0;
  presented_frames = 0;
}

unfoldable pub frame_interval_us : FramePacer → ℕ
frame_interval_us p = if p.target_fps == 0 then 0 else 1000000 / p.target_fps

unfoldable pub frame_interval_cycles : FramePacer → ℕ → ℕ
unfolding frame_interval_us
frame_interval_cycles p cycles_per_us = u64 (frame_interval_us p * cycles_per_us)

abbrev pub mark_damage : FramePacer → FramePacer
mark_damage p = record p { has_damage = true }

-- The pacer after a frame is presented, and after one is dropped.
abbrev pub presented : FramePacer → ℕ → FramePacer
presented p now_tsc = record p {
  last_present_tsc = now_tsc;
  has_damage = false;
  presented_frames = u64 (p.presented_frames + 1);
}

abbrev pub dropped : FramePacer → FramePacer
dropped p = record p { dropped_frames = u64 (p.dropped_frames + 1) }

-- `request_presentation`: the subtraction saturates at 0.
unfoldable pub request_presentation : FramePacer → ℕ → ℕ → Bool → FramePacer × Bool
unfolding frame_interval_cycles
request_presentation p now_tsc cycles_per_us force =
    let interval = frame_interval_cycles p cycles_per_us in
    let elapsed = now_tsc - p.last_present_tsc in
    if not p.has_damage && not force
    then (p, false)
    else if force || p.last_present_tsc == 0 || leb interval elapsed
    then (presented p now_tsc, true)
    else (dropped p, false)

pub record DisplayTiming : Type 0 where
  pub refresh_rate_hz : ℕ
  pub last_vsync_tsc : ℕ
  pub total_vsync_events : ℕ

unfoldable pub refresh_period_us : DisplayTiming → ℕ
refresh_period_us d = if d.refresh_rate_hz == 0 then 0 else 1000000 / d.refresh_rate_hz

unfoldable pub refresh_period_cycles : DisplayTiming → ℕ → ℕ
unfolding refresh_period_us
refresh_period_cycles d cycles_per_us = u64 (refresh_period_us d * cycles_per_us)

unfoldable pub next_deadline_tsc : DisplayTiming → ℕ → ℕ → ℕ
unfolding refresh_period_cycles
next_deadline_tsc d now_tsc cycles_per_us =
    let period = refresh_period_cycles d cycles_per_us in
    let elapsed = now_tsc - d.last_vsync_tsc in
    if period == 0 || d.last_vsync_tsc == 0
    then now_tsc
    else u64 (d.last_vsync_tsc + (elapsed / period + 1) * period)

unfoldable pub record_vsync : DisplayTiming → ℕ → DisplayTiming
record_vsync d now_tsc = record d {
  last_vsync_tsc = now_tsc;
  total_vsync_events = u64 (d.total_vsync_events + 1);
}

-- `PresentationFence::advance` and `is_reached` on the sequence number.
unfoldable pub advance : ℕ → ℕ
advance sequence = u64 (sequence + 1)

unfoldable pub is_reached : ℕ → ℕ → Bool
is_reached sequence target = leb target sequence
