-- ===== src/RtpPeer/Options.antt =====
-- parseSSRC and parsePacing of cmd/rtppeer/main.go. A string is the list of its runes.
use rtp_stream_cleaner.Prelude.{
  ℕ, ◌*◌, ◌%◌, ◌^◌, Bool, true, false, ◌||◌, Option, none, some, List, [], ◌∷◌, leb, if◌then◌else◌,
  Result, ok, err,
}
use rtp_stream_cleaner.Net.{bytes_equal}
use rtp_stream_cleaner.Strings.{between, is_empty, trim_space, cut_prefix, parse_uint, atoi}
use rtp_stream_cleaner.RtpPeer.Send.{pacing_capture, pacing_fast, pacing_fixed, PacingConfig}

pub data SsrcError : Type 0 where
  empty_ssrc : SsrcError
  not_a_number : SsrcError

abbrev pub number_or_error : Option ℕ → Result SsrcError ℕ
number_or_error none = err not_a_number
number_or_error (some n) = ok n

abbrev pub is_hex_letter : ℕ → Bool
is_hex_letter c = between 0x61 0x66 c || between 0x41 0x46 c

abbrev pub has_hex_letter : List ℕ → Bool
has_hex_letter [] = false
has_hex_letter (c ∷ text) = is_hex_letter c || has_hex_letter text

abbrev pub parse_trimmed : List ℕ → Option (List ℕ) → Option (List ℕ) → Option ℕ
parse_trimmed text (some behind_0x) capital = parse_uint 16 true 32 behind_0x
parse_trimmed text none (some behind_0X) = parse_uint 16 true 32 behind_0X
parse_trimmed text none none = parse_uint (if has_hex_letter text then 16 else 10) false 32 text

abbrev pub ssrc_of : List ℕ → Result SsrcError ℕ
ssrc_of trimmed =
    if is_empty trimmed
    then err empty_ssrc
    else number_or_error (
        parse_trimmed trimmed (cut_prefix (0x30 ∷ 0x78 ∷ []) trimmed)
          (cut_prefix (0x30 ∷ 0x58 ∷ []) trimmed))

unfoldable pub parse_ssrc : List ℕ → Result SsrcError ℕ
parse_ssrc value = ssrc_of (trim_space value)

pub data PacingError : Type 0 where
  invalid_fixed_pacing : PacingError
  unknown_pacing_mode : PacingError

abbrev pub fixed_config : Option ℕ → Result PacingError PacingConfig
fixed_config none = err invalid_fixed_pacing
fixed_config (some ms) =
    if leb (2 ^ 63) ms
    then err invalid_fixed_pacing
    else ok (record { mode = pacing_fixed; fixed = ms * 1_000_000 % 2 ^ 64 })

abbrev pub fixed_pacing : Option (List ℕ) → Result PacingError PacingConfig
fixed_pacing none = err unknown_pacing_mode
fixed_pacing (some ms_str) = fixed_config (atoi ms_str)

abbrev pub capture_text : List ℕ
capture_text = 0x63 ∷ 0x61 ∷ 0x70 ∷ 0x74 ∷ 0x75 ∷ 0x72 ∷ 0x65 ∷ []

abbrev pub fast_text : List ℕ
fast_text = 0x66 ∷ 0x61 ∷ 0x73 ∷ 0x74 ∷ []

abbrev pub fixed_prefix : List ℕ
fixed_prefix = 0x66 ∷ 0x69 ∷ 0x78 ∷ 0x65 ∷ 0x64 ∷ 0x3a ∷ []

unfoldable pub parse_pacing : List ℕ → Result PacingError PacingConfig
parse_pacing value =
    let trimmed = trim_space value in
    if is_empty trimmed || bytes_equal trimmed capture_text
    then ok (record { mode = pacing_capture; fixed = 0 })
    else if bytes_equal trimmed fast_text
    then ok (record { mode = pacing_fast; fixed = 0 })
    else fixed_pacing (cut_prefix fixed_prefix trimmed)
