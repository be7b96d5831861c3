-- ===== src/RtpPeer.antt =====
-- The test peer (cmd/rtppeer/main.go), which replays the RTP packets of a capture file and records
-- what it receives.
pub mod Extract
pub mod Inside
pub mod Replay
pub mod Send
pub mod Sent
pub mod Counted
pub mod Schedule
pub mod OnTime
pub mod EndToEnd
pub mod Sources
pub mod SourceCounts
pub mod Receive
pub mod Options
pub mod Flags
pub mod Ssrc
use rtp_stream_cleaner.Prelude.{ℕ}

pub data ExtractError : Type 0 where
  frame_too_short : ExtractError
  unsupported_linktype : ℕ → ExtractError
  frame_too_short_for_vlan : ExtractError
  unsupported_ethertype : ℕ → ExtractError
  ipv4_header_truncated : ExtractError
  invalid_ihl : ExtractError
  not_udp : ExtractError
  fragmented_packet : ExtractError
  udp_header_truncated : ExtractError
  invalid_udp_length : ExtractError
  udp_payload_truncated : ExtractError
