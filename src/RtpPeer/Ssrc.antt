-- ===== src/RtpPeer/Ssrc.antt =====
-- The SSRC that listSources prints and the one that parseSSRC reads.
use mathlib.Core.List.{map}
use rtp_stream_cleaner.Prelude.{
  ℕ, ◌+◌, ◌*◌, ◌/◌, ◌%◌, ◌^◌, ◌<◌, ◌≤◌, ◌≡◌, refl, ap, ◌∙◌, Bool, true, false, Option, none, some,
  List, [], ◌∷◌, All, ◌-◌, ltb, ◌==◌, if◌then◌else◌, ok, arith,
}
use rtp_stream_cleaner.Strings.{is_space, trim_right, trim_space, digit, parse_digits, in_bits}
use rtp_stream_cleaner.RtpPeer.Options.{number_or_error, ssrc_of, parse_ssrc}

-- A digit of the verb %x.
abbrev pub hex_digit : ℕ → ℕ
hex_digit d = if ltb d 10 then 0x30 + d else 0x61 + d - 10

abbrev pub nibbles : ℕ → List ℕ
nibbles n =
    n / 268435456 % 16
    ∷ n / 16777216 % 16
    ∷ n / 1048576 % 16
    ∷ n / 65536 % 16
    ∷ n / 4096 % 16
    ∷ n / 256 % 16
    ∷ n / 16 % 16
    ∷ n % 16
    ∷ []

-- The verb 0x%08x, on 32 bits.
abbrev pub format_ssrc : ℕ → List ℕ
format_ssrc n = 0x30 ∷ 0x78 ∷ map hex_digit (nibbles n)

digit-hex_digit : (d : ℕ) → d < 16 → digit 16 (hex_digit d) ≡ some d
digit-hex_digit d h = ground arith

hex_digit_bounds : (d : ℕ) → d < 16 → (0x30 ≤ hex_digit d) × (hex_digit d ≤ 0x66)
hex_digit_bounds d h = (ground arith, ground arith)

hex_digit_plain : (d : ℕ) → d < 16 → (hex_digit d == 0x5f) ≡ false
hex_digit_plain d h = ground arith

is_space_printable : (c : ℕ) → 0x30 ≤ c → c ≤ 0x66 → is_space c ≡ false
is_space_printable c low high = ground arith

is_space-hex_digit : (d : ℕ) → d < 16 → is_space (hex_digit d) ≡ false
is_space-hex_digit d h =
    is_space_printable (hex_digit d) (hex_digit_bounds d h).0 (hex_digit_bounds d h).1

-- One digit is read.
parse_digits_step :
    (d n : ℕ) (text : List ℕ)
    → d < 16
    → parse_digits 16 true false (hex_digit d ∷ text) n
      ≡ parse_digits 16 true false text (n * 16 + d)
parse_digits_step d n text h = rw (hex_digit_plain d h, digit-hex_digit d h) refl

abbrev value : List ℕ → ℕ → ℕ
value [] n = n
value (d ∷ digits) n = value digits (n * 16 + d)

parse_digits-value :
    (digits : List ℕ) (n : ℕ)
    → All (λ (d : ℕ). d < 16) digits
    → parse_digits 16 true false (map hex_digit digits) n ≡ some (value digits n)
parse_digits-value [] n h = refl
parse_digits-value (d ∷ digits) n (small, h) =
    parse_digits_step d n (map hex_digit digits) small ∙ parse_digits-value digits (n * 16 + d) h

trim_right_plain :
    (text : List ℕ) → All (λ (c : ℕ). is_space c ≡ false) text → trim_right text ≡ text
trim_right_plain [] h = refl
trim_right_plain (c ∷ text) (plain, h) =
    let rest = trim_right_plain text h in rw plain (ap (λ (r : List ℕ). c ∷ r) rest)

no_space-hex_digit :
    (digits : List ℕ)
    → All (λ (d : ℕ). d < 16) digits
    → All (λ (c : ℕ). is_space c ≡ false) (map hex_digit digits)
no_space-hex_digit [] h = tt
no_space-hex_digit (d ∷ digits) (small, h) =
    (is_space-hex_digit d small, no_space-hex_digit digits h)

nibble : (n : ℕ) → n % 16 < 16
nibble n = omega arith

small_nibbles : (n : ℕ) → All (λ (d : ℕ). d < 16) (nibbles n)
small_nibbles n = (
  nibble _,
  (nibble _, (nibble _, (nibble _, (nibble _, (nibble _, (nibble _, (nibble _, tt))))))),
)

value-nibbles : (n : ℕ) → n < 4294967296 → value (nibbles n) 0 ≡ n
value-nibbles n h = omega arith

trim_space-format_ssrc : (n : ℕ) → trim_space (format_ssrc n) ≡ format_ssrc n
trim_space-format_ssrc n =
    trim_right_plain (format_ssrc n)
      (refl, (refl, no_space-hex_digit (nibbles n) (small_nibbles n)))

-- An SSRC that listSources prints is read back by parseSSRC, for every SSRC of 32 bits.
pub parse_ssrc-format_ssrc : (n : ℕ) → n < 4294967296 → parse_ssrc (format_ssrc n) ≡ ok n
unfolding parse_ssrc
parse_ssrc-format_ssrc n h =
    let below : ltb n (2 ^ 32) ≡ true = ground arith in
    ap ssrc_of (trim_space-format_ssrc n)
    ∙ ap (λ (o : Option ℕ). number_or_error (in_bits 32 o))
        (parse_digits-value (nibbles n) 0 (small_nibbles n) ∙ ap some (value-nibbles n h))
    ∙ ap (λ (b : Bool). number_or_error (if b then some n else none)) below
