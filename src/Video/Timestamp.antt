-- ===== src/Video/Timestamp.antt =====
-- nextFrameTimestamp of internal/session/video_proxy.go: the wall clock's steps in units of 1/90000 s.
use rtp_stream_cleaner.Prelude.{ℕ, ◌-◌, true, not, none, some, List, ltb, if◌then◌else◌}
use rtp_stream_cleaner.Prelude.Words.{add32}
use rtp_stream_cleaner.Float.{ticks}
use rtp_stream_cleaner.Rtp.{parse_rtp_header}
use rtp_stream_cleaner.Video.{VideoProxy}

-- The time since the last frame, held between 10 ms and 100 ms.
unfoldable pub clamped_step : ℕ → ℕ → ℕ
clamped_step now last =
    let dt : ℕ = now - last in
    let low : ℕ = if ltb dt 10_000_000 then 10_000_000 else dt in
    if ltb 100_000_000 low then 100_000_000 else low

-- The first frame takes the timestamp of its packet, every later one a step from the last.
unfoldable pub next_frame_timestamp : VideoProxy → ℕ → List ℕ → VideoProxy × ℕ
unfolding clamped_step
next_frame_timestamp p now seed_packet =
    if not p.frame_ts_initialized
    then (let ts : ℕ = elim (parse_rtp_header seed_packet) [ none ↦ p.frame_ts | some h ↦ h.ts ] in
        (record p { frame_ts = ts; frame_ts_initialized = true; last_frame_sent_time = now }, ts))
    else (let ts : ℕ = add32 p.frame_ts (ticks (clamped_step now p.last_frame_sent_time)) in
        (record p { frame_ts = ts; last_frame_sent_time = now }, ts))
