-- ===== src/Tests/Rtp.antt =====
-- Header and NAL parsing on concrete packets.
use rtp_stream_cleaner.Prelude
use rtp_stream_cleaner.Prelude.{
  ℕ, ◌≡◌, ◌⊎◌, refl, true, false, Option, none, some, List, [], ◌∷◌, drop, ok, err, arith,
}
use rtp_stream_cleaner.Bytes.{be16, be32}
use rtp_stream_cleaner.Rtp.{RtpHeader, parse_rtp_header}
use rtp_stream_cleaner.Rtp.Header.{IsWellFormed, parse_rtp_header-IsWellFormed}
use rtp_stream_cleaner.Rtp.Parse.{
  parse, as_header, header_truncated, too_short, unsupported_version, parse-parse_rtp_header,
}
use rtp_stream_cleaner.Rtp.H264.{
  H264Info, classify, parse_h264, is_cut, IsNal, IsConsistent, parse_h264_lem,
}
use rtp_stream_cleaner.Rtp.Rewrite.{set_marker, with_marker, parse_rtp_header-set_marker}

-- Version 2 with an extension of one word, payload type 96, sequence number 7, timestamp 100.
abbrev extended : List ℕ
extended =
    0x90 ∷ 0x60 ∷ 0 ∷ 7 ∷ 0 ∷ 0 ∷ 0 ∷ 100 ∷ 1 ∷ 2 ∷ 3 ∷ 4 ∷ 0xbe ∷ 0xde ∷ 0 ∷ 1 ∷ 9 ∷ 9 ∷ 9 ∷ 9
    ∷ 0x65 ∷ 0x88 ∷ []

abbrev extended_header : RtpHeader
extended_header = record {
  pt = 96;
  seq = 7;
  ts = 100;
  ssrc = 0x01020304;
  marker = false;
  header_len = 20;
}

parse_extended : parse_rtp_header extended ≡ some extended_header
unfolding parse_rtp_header be16 be32
parse_extended = refl

parse_cut : parse (0x82 ∷ 0 ∷ 0 ∷ 0 ∷ 0 ∷ 0 ∷ 0 ∷ 0 ∷ 0 ∷ 0 ∷ 0 ∷ 0 ∷ []) ≡ err header_truncated
unfolding parse
parse_cut = refl

parse_short : parse (0x80 ∷ []) ≡ err (too_short 1)
unfolding parse
parse_short = refl

parse_old : parse (0x40 ∷ drop 1 extended) ≡ err (unsupported_version 1)
unfolding parse
parse_old = refl

-- A FU-A packet that starts an IDR.
fu_start : parse_h264 (0x7c ∷ 0x85 ∷ 1 ∷ []) ≡ some (classify true true false 5)
unfolding parse_h264
fu_start = refl

parse_rtp_header-IsWellFormed_example : IsWellFormed extended extended_header
parse_rtp_header-IsWellFormed_example =
    parse_rtp_header-IsWellFormed extended extended_header (omega arith) parse_extended

parse-parse_rtp_header_example : as_header (parse extended) ≡ parse_rtp_header extended
parse-parse_rtp_header_example = parse-parse_rtp_header extended (omega arith)

-- A FU-A packet that starts an IDR.
abbrev idr_start : List ℕ
idr_start = 0x7c ∷ 0x85 ∷ 1 ∷ []

parse_h264_lem_example :
    ((is_cut idr_start ≡ true) × (parse_h264 idr_start ≡ none))
    ⊎ ((is_cut idr_start ≡ false)
        × (info : H264Info) × (parse_h264 idr_start ≡ some info)
        × IsNal idr_start info
        × IsConsistent info)
parse_h264_lem_example = parse_h264_lem idr_start (omega arith)

parse_rtp_header-set_marker_example :
    parse_rtp_header (set_marker extended true)
    ≡ Prelude.Option.map (with_marker true) (parse_rtp_header extended)
parse_rtp_header-set_marker_example = (parse_rtp_header-set_marker extended (omega arith) true).0
