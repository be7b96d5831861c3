-- ===== src/Video/Parts.antt =====
-- What parseH264PacketDetailed answers, read backwards.
use rtp_stream_cleaner.Prelude.{
  ℕ, ◌<◌, ◌≡◌, inl, inr, some, Option-cases, List, length, drop, arith,
}
use rtp_stream_cleaner.Rtp.{parse_rtp_header}
use rtp_stream_cleaner.Rtp.H264.{parse_h264}
use rtp_stream_cleaner.Video.Handle.{H264Packet, complete, parse_h264_packet_detailed}

pub record IsParsed (packet : List ℕ) (i : H264Packet) : Type 0 where
  pub header_is : parse_rtp_header packet ≡ some i.header
  pub inside : i.header.header_len < length packet
  pub payload_is : i.payload ≡ drop i.header.header_len packet
  pub info_is : parse_h264 i.payload ≡ some i.info

pub detailed_inv :
    (packet : List ℕ) (i : H264Packet)
    → parse_h264_packet_detailed packet ≡ complete i
    → IsParsed packet i
unfolding parse_h264_packet_detailed
detailed_inv packet i e = elim (Option-cases (parse_rtp_header packet)) [
  | inl no_header ↦ ground arith
  | inr (h, header) ↦ elim (Option-cases (parse_h264 (drop h.header_len packet))) [
    | inl no_info ↦ ground arith
    | inr (info, known) ↦ ground arith
  ]
]
