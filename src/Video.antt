-- ===== src/Video.antt =====
-- The video proxy's frame pipeline on leg A to B (internal/session/video_proxy.go): the state of
-- videoProxy that it keeps, and the counters of the session that it writes.
-- Times are nanoseconds of one monotonic clock. Slices are values: the code clones each packet that
-- it keeps, and the loop reads a new packet after each call, so no write shows through another name.
-- Logging is left out.
pub mod Output
pub mod Timestamp
pub mod Frame
pub mod Handle
pub mod Flushed
pub mod Invariant
pub mod Steps
pub mod Parts
pub mod Order
pub mod Loops
pub mod Unfixed
pub mod Reach
pub mod Latency
use rtp_stream_cleaner.Prelude.{ℕ, Bool, false, Option, none, List, [], if◌then◌else◌}
use rtp_stream_cleaner.Net.{Write, Link}

pub record VideoCounters : Type 0 where
  pub a_in_pkts : ℕ
  pub a_in_bytes : ℕ
  pub b_out_pkts : ℕ
  pub b_out_bytes : ℕ
  pub b_in_pkts : ℕ
  pub b_in_bytes : ℕ
  pub a_out_pkts : ℕ
  pub a_out_bytes : ℕ
  pub video_frames_started : ℕ
  pub video_frames_ended : ℕ
  pub video_frames_flushed : ℕ
  pub video_forced_flushes : ℕ
  pub video_injected_sps : ℕ
  pub video_injected_pps : ℕ
  pub video_seq_delta : ℕ
  pub video_keyframes : ℕ
  pub video_nal_parse_errors : ℕ
  pub video_seq_gaps : ℕ
  pub drops : ℕ
  pub ignored_disabled : ℕ

-- The parts of videoProxy that its constructor sets for good.
pub record VideoConfig : Type 0 where
  pub max_frame_wait : ℕ
  pub peer_learning_window : ℕ
  pub fix_enabled : Bool
  pub inject_cached_sps_pps : Bool
  pub write_to_dest : Link

-- `wire` is the sequence of all calls of writeToDest so far, oldest first.
pub record VideoProxy : Type 0 where
  pub config : VideoConfig
  pub counters : VideoCounters
  pub wire : List Write
  pub frame_buffer : List (List ℕ)
  pub frame_buffer_start : ℕ
  pub frame_buffer_active : Bool
  pub last_frame_sent_time : ℕ
  pub frame_ts : ℕ
  pub frame_ts_initialized : Bool
  pub current_frame_ts : ℕ
  pub current_frame_ts_set : Bool
  pub pending_sps : Option (List ℕ)
  pub pending_pps : Option (List ℕ)
  pub cached_sps : Option (List ℕ)
  pub cached_pps : Option (List ℕ)
  pub seq_delta : ℕ
  pub last_out_seq : ℕ
  pub has_last_out_seq : Bool

abbrev pub no_counts : VideoCounters
no_counts = record {
  a_in_pkts = 0;
  a_in_bytes = 0;
  b_out_pkts = 0;
  b_out_bytes = 0;
  b_in_pkts = 0;
  b_in_bytes = 0;
  a_out_pkts = 0;
  a_out_bytes = 0;
  video_frames_started = 0;
  video_frames_ended = 0;
  video_frames_flushed = 0;
  video_forced_flushes = 0;
  video_injected_sps = 0;
  video_injected_pps = 0;
  video_seq_delta = 0;
  video_keyframes = 0;
  video_nal_parse_errors = 0;
  video_seq_gaps = 0;
  drops = 0;
  ignored_disabled = 0;
}

-- The constructor: no injection without the fix. The rest has Go's zero values.
abbrev pub new_video_proxy : ℕ → ℕ → Bool → Bool → Link → VideoProxy
new_video_proxy peer_learning_window max_frame_wait fix_enabled inject link = record {
  config = record {
    max_frame_wait = max_frame_wait;
    peer_learning_window = peer_learning_window;
    fix_enabled = fix_enabled;
    inject_cached_sps_pps = if fix_enabled then inject else false;
    write_to_dest = link;
  };
  counters = no_counts;
  wire = [];
  frame_buffer = [];
  frame_buffer_start = 0;
  frame_buffer_active = false;
  last_frame_sent_time = 0;
  frame_ts = 0;
  frame_ts_initialized = false;
  current_frame_ts = 0;
  current_frame_ts_set = false;
  pending_sps = none;
  pending_pps = none;
  cached_sps = none;
  cached_pps = none;
  seq_delta = 0;
  last_out_seq = 0;
  has_last_out_seq = false;
}
