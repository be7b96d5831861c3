-- ===== src/Float.antt =====
-- The one floating-point computation of the program, uint32((dt.Seconds() * 90000) + 0.5) of
-- nextFrameTimestamp (internal/session/video_proxy.go), in binary64 with rounding to nearest, ties
-- to even, after each operation, as on a machine that does not fuse the product with the sum.
use rtp_stream_cleaner.Prelude.{
  ℕ, zero, suc, ◌+◌, ◌*◌, ◌/◌, ◌%◌, ◌^◌, ◌≡◌, refl, ltb, leb, ◌==◌, if◌then◌else◌,
}

-- The number mantissa / 2 ^ shift. Values stay below 2 ^ 52 here, so no shift is negative.
pub record Double : Type 0 where
  pub mantissa : ℕ
  pub shift : ℕ

-- num / den to the nearest whole number, a tie to the even one.
unfoldable pub round_half_even : ℕ → ℕ → ℕ
round_half_even num den =
    let q = num / den in
    let twice = 2 * (num % den) in
    if ltb twice den then q else if ltb den twice then q + 1 else if q % 2 == 0 then q else q + 1

-- The least shift, from `shift` on, at which num / den has 53 binary digits before the point.
scale : ℕ → ℕ → ℕ → ℕ → ℕ
scale zero num den shift = shift
scale (suc fuel) num den shift =
    let more = scale fuel num den (shift + 1) in
    if leb (2 ^ 52 * den) (num * 2 ^ shift) then shift else more

-- The double nearest to num / den. A shift of 1074 reaches the smallest double.
unfoldable pub nearest : ℕ → ℕ → Double
unfolding scale
nearest num den =
    let shift = scale 1074 num den 0 in
    record { mantissa = round_half_even (num * 2 ^ shift) den; shift = shift }

-- time.Duration.Seconds of a duration in nanoseconds.
unfoldable pub seconds : ℕ → Double
seconds dt =
    let part = nearest (dt % 1_000_000_000) 1_000_000_000 in
    nearest (dt / 1_000_000_000 * 2 ^ part.shift + part.mantissa) (2 ^ part.shift)

-- The conversion to uint32 drops the digits behind the point.
unfoldable pub ticks : ℕ → ℕ
ticks dt =
    let s = seconds dt in
    let product = nearest (s.mantissa * 90000) (2 ^ s.shift) in
    let total = nearest (2 * product.mantissa + 2 ^ product.shift) (2 * 2 ^ product.shift) in
    total.mantissa / 2 ^ total.shift

ticks_10ms : ticks 10_000_000 ≡ 900
unfolding ticks seconds nearest round_half_even
ticks_10ms = refl

ticks_33ms : ticks 33_366_667 ≡ 3003
unfolding ticks seconds nearest round_half_even
ticks_33ms = refl

ticks_100ms : ticks 100_000_000 ≡ 9000
unfolding ticks seconds nearest round_half_even
ticks_100ms = refl
