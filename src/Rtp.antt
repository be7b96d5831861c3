-- ===== src/Rtp.antt =====
-- The RTP header as the fixing proxy reads it (internal/rtpfix/rtp.go).
pub mod Header
pub mod Parse
pub mod H264
pub mod Rewrite
use rtp_stream_cleaner.Prelude.{
  ℕ, ◌+◌, ◌*◌, ◌/◌, Bool, not, Option, none, some, List, length, bit_and, ltb, ◌==◌, if◌then◌else◌,
}
use rtp_stream_cleaner.Bytes.{byte, be16, be32}

pub record RtpHeader : Type 0 where
  pub pt : ℕ
  pub seq : ℕ
  pub ts : ℕ
  pub ssrc : ℕ
  pub marker : Bool
  pub header_len : ℕ

-- The fields that stand at fixed places of the first twelve bytes.
abbrev pub header_at : List ℕ → ℕ → RtpHeader
header_at packet header_len = record {
  pt = bit_and (byte packet 1) 0x7f;
  seq = be16 packet 2;
  ts = be32 packet 4;
  ssrc = be32 packet 8;
  marker = not (bit_and (byte packet 1) 0x80 == 0);
  header_len = header_len;
}

unfoldable pub parse_rtp_header : List ℕ → Option RtpHeader
parse_rtp_header packet =
    if ltb (length packet) 12
    then none
    else if not (byte packet 0 / 64 == 2)
    then none
    else (let header_len : ℕ = 12 + bit_and (byte packet 0) 0x0f * 4 in
        if ltb (length packet) header_len
        then none
        else if not (bit_and (byte packet 0) 0x10 == 0)
        then (if ltb (length packet) (header_len + 4)
            then none
            else (let extended : ℕ = header_len + (4 + be16 packet (header_len + 2) * 4) in
                if ltb (length packet) extended then none else some (header_at packet extended)))
        else some (header_at packet header_len))
