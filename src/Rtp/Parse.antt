-- ===== src/Rtp/Parse.antt =====
-- The RTP parser of the test peer (internal/rtpparse/rtp.go) and its agreement with the proxy's.
use rtp_stream_cleaner.Prelude.{
  ℕ, ◌+◌, ◌*◌, ◌/◌, ◌≡◌, Bool, not, Option, none, some, List, All, length, bit_and, bit_or, ltb,
  ◌==◌, if◌then◌else◌, Result, ok, err, arith,
}
use rtp_stream_cleaner.Bytes.{IsByte, byte, be16, be32}
use rtp_stream_cleaner.Bytes.Laws.{byte-IsByte}
use rtp_stream_cleaner.Bytes.Bits.{or_bytes, or_words}
use rtp_stream_cleaner.Rtp.{RtpHeader, parse_rtp_header}

pub record Packet : Type 0 where
  pub ssrc : ℕ
  pub payload_type : ℕ
  pub seq : ℕ
  pub ts : ℕ
  pub marker : Bool
  pub header_size : ℕ

-- The five errors of the parser, with the values that their messages carry.
pub data ParseError : Type 0 where
  too_short : ℕ → ParseError
  unsupported_version : ℕ → ParseError
  header_truncated : ParseError
  extension_truncated : ParseError
  extension_data_truncated : ParseError

-- int(p[i])<<8 | int(p[i+1])
abbrev pub shifted16 : List ℕ → ℕ → ℕ
shifted16 p i = bit_or (byte p i * 256) (byte p (i + 1))

-- uint32(p[i])<<24 | uint32(p[i+1])<<16 | uint32(p[i+2])<<8 | uint32(p[i+3])
abbrev pub shifted32 : List ℕ → ℕ → ℕ
shifted32 p i =
    bit_or (bit_or (bit_or (byte p i * 16777216) (byte p (i + 1) * 65536)) (byte p (i + 2) * 256))
      (byte p (i + 3))

abbrev pub packet_at : List ℕ → ℕ → Packet
packet_at payload header_size = record {
  ssrc = shifted32 payload 8;
  payload_type = bit_and (byte payload 1) 0x7f;
  seq = shifted16 payload 2;
  ts = shifted32 payload 4;
  marker = not (bit_and (byte payload 1) 0x80 == 0);
  header_size = header_size;
}

unfoldable pub parse : List ℕ → Result ParseError Packet
parse payload =
    if ltb (length payload) 12
    then err (too_short (length payload))
    else if not (byte payload 0 / 64 == 2)
    then err (unsupported_version (byte payload 0 / 64))
    else (let header_size : ℕ = 12 + bit_and (byte payload 0) 0x0f * 4 in
        if ltb (length payload) header_size
        then err header_truncated
        else if not (bit_and (byte payload 0) 0x10 == 0)
        then (if ltb (length payload) (header_size + 4)
            then err extension_truncated
            else (let extended : ℕ = header_size + (4 + shifted16 payload (header_size + 2) * 4) in
                if ltb (length payload) extended
                then err extension_data_truncated
                else ok (packet_at payload extended)))
        else ok (packet_at payload header_size))

-- The same record under the proxy's names, errors forgotten.
abbrev pub as_header : Result ParseError Packet → Option RtpHeader
as_header (ok p) = some (record {
  pt = p.payload_type;
  seq = p.seq;
  ts = p.ts;
  ssrc = p.ssrc;
  marker = p.marker;
  header_len = p.header_size;
})
as_header (err e) = none

module _ (p : List ℕ) (bytes : All IsByte p) where
  shifted16-be16 : (i : ℕ) → shifted16 p i ≡ be16 p i
  unfolding be16
  shifted16-be16 i = or_bytes _ _ (byte-IsByte p bytes (i + 1))

  shifted32-be32 : (i : ℕ) → shifted32 p i ≡ be32 p i
  unfolding be32
  shifted32-be32 i =
      or_words _ _ _ _ (byte-IsByte p bytes (i + 1)) (byte-IsByte p bytes (i + 2))
        (byte-IsByte p bytes (i + 3))

  -- The test peer's parser accepts exactly the packets that the proxy's accepts, and reads the
  -- same header from them.
  pub parse-parse_rtp_header : as_header (parse p) ≡ parse_rtp_header p
  unfolding parse parse_rtp_header
  parse-parse_rtp_header =
      let at : ℕ = 12 + bit_and (byte p 0) 0x0f * 4 + 2 in
      ground (arith, shifted16-be16 at, shifted16-be16 2, shifted32-be32 4, shifted32-be32 8)
