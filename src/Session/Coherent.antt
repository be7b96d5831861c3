-- ===== src/Session/Coherent.antt =====
-- The two records of a medium's destination, and what they agree on.
use rtp_stream_cleaner.Prelude.{
  ◌≤◌, ◌≡◌, ◌⊎◌, inl, inr, true, false, Option, none, some, ◌==◌, Bool-cases, arith,
}
use rtp_stream_cleaner.Net.{UdpAddr}
use rtp_stream_cleaner.Session.{
  Media, Session, no_reason, rtpengine_port_0, apply_media, apply_rtp_dest, audio_state,
  video_state,
}

-- Disabled, with the reason and without a destination; or enabled, without a reason, and with no
-- destination or one with a port.
abbrev pub HasOneMeaning : Media → Type 0
HasOneMeaning m =
    ((m.enabled ≡ false) × (m.rtpengine_dest ≡ none) × (m.disabled_reason ≡ rtpengine_port_0))
    ⊎ ((m.enabled ≡ true)
        × (m.disabled_reason ≡ no_reason)
        × ((m.rtpengine_dest ≡ none)
            ⊎ ((d : UdpAddr) × (m.rtpengine_dest ≡ some d) × (1 ≤ d.port))))

-- What the proxies load is what the owner wrote, and it has one meaning.
pub record IsCoherent (s : Session) : Type 0 where
  pub audio_agrees : audio_state s ≡ s.audio
  pub video_agrees : video_state s ≡ s.video
  pub audio_meaning : HasOneMeaning s.audio
  pub video_meaning : HasOneMeaning s.video

apply_media-HasOneMeaning :
    (m : Media) (dest : Option UdpAddr) → HasOneMeaning m → HasOneMeaning (apply_media m dest)
apply_media-HasOneMeaning m none h = h
apply_media-HasOneMeaning m (some addr) h = elim (Bool-cases (addr.port == 0)) [
  | inl zero_port ↦ inl (ground arith, ground arith, ground arith)
  | inr port ↦ inr (ground arith, ground arith, inr (addr, ground arith, ground arith))
]

apply_rtp_dest-audio_state :
    (s : Session) (audio_dest video_dest : Option UdpAddr)
    → audio_state s ≡ s.audio
    → audio_state (apply_rtp_dest s audio_dest video_dest) ≡ apply_media s.audio audio_dest
unfolding apply_rtp_dest audio_state
apply_rtp_dest-audio_state s none video_dest e = e
apply_rtp_dest-audio_state s (some addr) video_dest e = ground arith

apply_rtp_dest-video_state :
    (s : Session) (audio_dest video_dest : Option UdpAddr)
    → video_state s ≡ s.video
    → video_state (apply_rtp_dest s audio_dest video_dest) ≡ apply_media s.video video_dest
unfolding apply_rtp_dest video_state
apply_rtp_dest-video_state s audio_dest none e = e
apply_rtp_dest-video_state s audio_dest (some addr) e = ground arith

-- An update of the destinations keeps the atomics that the proxies read equal to the session's own
-- fields, and each medium either disabled for the reason "port 0" and without a destination, or
-- enabled, without a reason and with no destination that has port 0.
pub apply_rtp_dest-IsCoherent :
    (s : Session) (audio_dest video_dest : Option UdpAddr)
    → IsCoherent s
    → IsCoherent (apply_rtp_dest s audio_dest video_dest)
unfolding apply_rtp_dest
apply_rtp_dest-IsCoherent s audio_dest video_dest c = record {
  audio_agrees = apply_rtp_dest-audio_state s audio_dest video_dest c.audio_agrees;
  video_agrees = apply_rtp_dest-video_state s audio_dest video_dest c.video_agrees;
  audio_meaning = apply_media-HasOneMeaning s.audio audio_dest c.audio_meaning;
  video_meaning = apply_media-HasOneMeaning s.video video_dest c.video_meaning;
}
