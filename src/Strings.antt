-- ===== src/Strings.antt =====
-- What is used of Go's packages strings, unicode and strconv. A string is the list of its runes, and an
-- int the word of its 64 bits.
use rtp_stream_cleaner.Prelude.{
  ℕ, ◌+◌, ◌-◌, ◌*◌, ◌%◌, ◌^◌, Bool, true, false, ◌&&◌, ◌||◌, Option, none, some, List, [], ◌∷◌, leb,
  ltb, ◌==◌, if◌then◌else◌,
}

abbrev pub between : ℕ → ℕ → ℕ → Bool
between low high c = leb low c && leb c high

-- unicode.IsSpace
abbrev pub is_space : ℕ → Bool
is_space c =
    between 0x09 0x0d c
    || c == 0x20
    || c == 0x85
    || c == 0xa0
    || c == 0x1680
    || between 0x2000 0x200a c
    || c == 0x2028
    || c == 0x2029
    || c == 0x202f
    || c == 0x205f
    || c == 0x3000

abbrev pub is_empty : List ℕ → Bool
is_empty [] = true
is_empty (c ∷ text) = false

abbrev pub trim_left : List ℕ → List ℕ
trim_left [] = []
trim_left (c ∷ text) = if is_space c then trim_left text else c ∷ text

abbrev pub trim_right : List ℕ → List ℕ
trim_right [] = []
trim_right (c ∷ text) =
    let rest = trim_right text in if is_space c && is_empty rest then [] else c ∷ rest

-- strings.TrimSpace
abbrev pub trim_space : List ℕ → List ℕ
trim_space text = trim_right (trim_left text)

-- strings.TrimPrefix, where strings.HasPrefix holds.
abbrev pub cut_prefix : List ℕ → List ℕ → Option (List ℕ)
cut_prefix [] text = some text
cut_prefix (p ∷ prefix) [] = none
cut_prefix (p ∷ prefix) (c ∷ text) = if p == c then cut_prefix prefix text else none

-- The value of a digit; a digit that is too great for the base is refused.
abbrev pub digit : ℕ → ℕ → Option ℕ
digit base c =
    let d : ℕ =
      if between 0x30 0x39 c
      then c - 0x30
      else if between 0x61 0x7a c
      then c - 0x61 + 10
      else if between 0x41 0x5a c
      then c - 0x41 + 10
      else base in
    if ltb d base then some d else none

abbrev pub next_digit : (ℕ → Option ℕ) → ℕ → ℕ → Option ℕ → Option ℕ
next_digit again base n none = none
next_digit again base n (some d) = again (n * base + d)

-- Digits behind the number that is read so far, with underscores between them if base0 holds.
abbrev pub parse_digits : ℕ → Bool → Bool → List ℕ → ℕ → Option ℕ
parse_digits base base0 after_underscore [] n = if after_underscore then none else some n
parse_digits base base0 after_underscore (c ∷ text) n =
    let skip = parse_digits base base0 true text n in
    if c == 0x5f && base0
    then (if after_underscore then none else skip)
    else next_digit (parse_digits base base0 false text) base n (digit base c)

abbrev pub in_bits : ℕ → Option ℕ → Option ℕ
in_bits bits none = none
in_bits bits (some n) = if ltb n (2 ^ bits) then some n else none

-- strconv.ParseUint in base 10 or 16, and for a hexadecimal prefix in base 0; an error is none.
abbrev pub parse_uint : ℕ → Bool → ℕ → List ℕ → Option ℕ
parse_uint base base0 bits [] = none
parse_uint base base0 bits (c ∷ text) = in_bits bits (parse_digits base base0 false (c ∷ text) 0)

abbrev pub negated : Option ℕ → Option ℕ
negated none = none
negated (some n) = if leb n (2 ^ 63) then some ((2 ^ 64 - n) % 2 ^ 64) else none

-- strconv.Atoi; an error is none.
abbrev pub atoi : List ℕ → Option ℕ
atoi [] = none
atoi (c ∷ text) =
    if c == 0x2b
    then parse_uint 10 false 63 text
    else if c == 0x2d
    then negated (parse_uint 10 false 64 text)
    else parse_uint 10 false 63 (c ∷ text)
