-- ===== src/Session.antt =====
-- The session of internal/session/manager.go, which its two proxies and the manager share, and its
-- view in internal/session/session_view.go. The exported fields that nothing in the package writes
-- (LastActivity, State and the counters' copies) are left out; the proxies are modules of their own.
pub mod Coherent
use rtp_stream_cleaner.Prelude.{ℕ, Bool, true, false, Option, none, some, List, if◌then◌else◌, ◌==◌}
use rtp_stream_cleaner.Net.{UdpAddr}

-- A Go string as its bytes.
abbrev pub Text : Type 0
Text = List ℕ

pub data SessionState : Type 0 where
  created : SessionState
  active : SessionState
  closing : SessionState

-- The strings that the source stores: "" and "rtpengine_port_0".
pub data DisabledReason : Type 0 where
  no_reason : DisabledReason
  rtpengine_port_0 : DisabledReason

pub record Media : Type 0 where
  pub a_port : ℕ
  pub b_port : ℕ
  pub rtpengine_dest : Option UdpAddr
  pub enabled : Bool
  pub disabled_reason : DisabledReason

-- The two atomics that the proxies write.
pub record Activity : Type 0 where
  pub last_activity_nsec : ℕ
  pub state : SessionState

unfoldable pub mark_activity : Activity → ℕ → Activity
mark_activity a now = record {
  last_activity_nsec = now;
  state = elim a.state [ created ↦ active | active ↦ active | closing ↦ closing ];
}

-- The atomics that the proxies of one medium read.
pub record Leg : Type 0 where
  pub dest : Option UdpAddr
  pub is_enabled : Bool
  pub reason : DisabledReason

pub record Session : Type 0 where
  pub id : Text
  pub call_id : Text
  pub from_tag : Text
  pub to_tag : Text
  pub created_at : ℕ
  pub audio : Media
  pub video : Media
  pub audio_leg : Leg
  pub video_leg : Leg
  pub activity : Activity

-- An address with port 0 disables a medium, any other enables it, and none leaves it as it is.
abbrev pub apply_media : Media → Option UdpAddr → Media
apply_media m none = m
apply_media m (some addr) =
    if addr.port == 0
    then record m { rtpengine_dest = none; enabled = false; disabled_reason = rtpengine_port_0 }
    else record m { rtpengine_dest = some addr; enabled = true; disabled_reason = no_reason }

abbrev pub apply_leg : Leg → Option UdpAddr → Leg
apply_leg leg none = leg
apply_leg leg (some addr) =
    if addr.port == 0
    then record { dest = none; is_enabled = false; reason = rtpengine_port_0 }
    else record { dest = some addr; is_enabled = true; reason = no_reason }

unfoldable pub apply_rtp_dest : Session → Option UdpAddr → Option UdpAddr → Session
apply_rtp_dest s audio_dest video_dest = record s {
  audio = apply_media s.audio audio_dest;
  audio_leg = apply_leg s.audio_leg audio_dest;
  video = apply_media s.video video_dest;
  video_leg = apply_leg s.video_leg video_dest;
}

unfoldable pub audio_state : Session → Media
audio_state s = record {
  a_port = s.audio.a_port;
  b_port = s.audio.b_port;
  rtpengine_dest = s.audio_leg.dest;
  enabled = s.audio_leg.is_enabled;
  disabled_reason = s.audio_leg.reason;
}

unfoldable pub video_state : Session → Media
video_state s = record {
  a_port = s.video.a_port;
  b_port = s.video.b_port;
  rtpengine_dest = s.video_leg.dest;
  enabled = s.video_leg.is_enabled;
  disabled_reason = s.video_leg.reason;
}
