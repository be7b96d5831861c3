-- ===== src/Video/Frame.antt =====
-- The frame buffer of internal/session/video_proxy.go: start, fill, flush and reset.
use rtp_stream_cleaner.Prelude.{
  ℕ, ◌-◌, Bool, true, false, not, ◌||◌, Option, none, some, List, [], ◌∷◌, ◌++◌, leb, if◌then◌else◌,
}
use rtp_stream_cleaner.Prelude.Words.{add64}
use rtp_stream_cleaner.Net.{UdpAddr}
use rtp_stream_cleaner.Rtp.Rewrite.{set_marker, set_timestamp}
use rtp_stream_cleaner.Video.{VideoProxy}
use rtp_stream_cleaner.Video.Output.{send_packet}
use rtp_stream_cleaner.Video.Timestamp.{next_frame_timestamp}

abbrev pub is_empty : List (List ℕ) → Bool
is_empty [] = true
is_empty (packet ∷ rest) = false

unfoldable pub start_frame_buffer : VideoProxy → ℕ → List ℕ → VideoProxy
start_frame_buffer p now seed_packet =
    let (q, ts) =
      next_frame_timestamp
        (record p { frame_buffer = []; frame_buffer_start = now; frame_buffer_active = true }) now
        seed_packet in
    record q { current_frame_ts = ts; current_frame_ts_set = true }

unfoldable pub buffer_frame_packet : VideoProxy → List ℕ → VideoProxy
buffer_frame_packet p packet = record p { frame_buffer = p.frame_buffer ++ (packet ∷ []) }

unfoldable pub store_pending_parameter_set : VideoProxy → List ℕ → Bool → VideoProxy
store_pending_parameter_set p packet is_sps =
    if is_sps
    then record p { pending_sps = some packet }
    else record p { pending_pps = some packet }

unfoldable pub cache_parameter_set : VideoProxy → List ℕ → Bool → VideoProxy
cache_parameter_set p payload is_sps =
    if is_sps
    then record p { cached_sps = some payload }
    else record p { cached_pps = some payload }

abbrev pub listed : Option (List ℕ) → List (List ℕ)
listed none = []
listed (some packet) = packet ∷ []

-- A pending SPS goes before a pending PPS, and both are used up.
unfoldable pub append_pending_to_frame_buffer : VideoProxy → VideoProxy
append_pending_to_frame_buffer p = record p {
  frame_buffer = (p.frame_buffer ++ listed p.pending_sps) ++ listed p.pending_pps;
  pending_sps = none;
  pending_pps = none;
}

-- The loop of flushFrameBuffer: the marker goes on the last packet, the timestamp on all.
unfoldable pub flush_packets : VideoProxy → List (List ℕ) → ℕ → UdpAddr → VideoProxy
flush_packets p [] frame_ts dest = p
flush_packets p (packet ∷ rest) frame_ts dest =
    flush_packets (send_packet p (set_timestamp (set_marker packet (is_empty rest)) frame_ts) dest)
      rest frame_ts dest

-- The timestamp of the flush: that of the frame, or a new one where none is set.
abbrev pub flush_timestamp : VideoProxy → ℕ → List ℕ → VideoProxy × ℕ
flush_timestamp p now first =
    if not p.current_frame_ts_set then next_frame_timestamp p now first else (p, p.current_frame_ts)

-- The counters and the buffer after the loop.
abbrev pub finish_flush : VideoProxy → Bool → VideoProxy
finish_flush p forced = record p {
  counters = record c {
    video_frames_flushed = add64 c.video_frames_flushed 1;
    video_forced_flushes =
        if forced then add64 c.video_forced_flushes 1 else c.video_forced_flushes;
  };
  frame_buffer_active = false;
  current_frame_ts_set = false;
  frame_buffer = [];
}
  where
    open p use {counters as c}

unfoldable pub flush_frame_buffer : VideoProxy → ℕ → UdpAddr → Bool → VideoProxy
flush_frame_buffer p now dest forced = elim p.frame_buffer [
  | [] ↦ record p { frame_buffer_active = false }
  | first ∷ rest ↦
      let (q, frame_ts) = flush_timestamp p now first in
      finish_flush (flush_packets q (first ∷ rest) frame_ts dest) forced
]

unfoldable pub flush_on_timeout : VideoProxy → ℕ → UdpAddr → VideoProxy
flush_on_timeout p now dest =
    if not p.frame_buffer_active || is_empty p.frame_buffer
    then p
    else if leb (now - p.frame_buffer_start) p.config.max_frame_wait
    then p
    else flush_frame_buffer p now dest true

unfoldable pub reset_frame_buffer : VideoProxy → VideoProxy
reset_frame_buffer p = record p {
  frame_buffer_active = false;
  frame_buffer = [];
  frame_buffer_start = 0;
  current_frame_ts_set = false;
}
