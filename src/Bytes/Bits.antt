-- ===== src/Bytes/Bits.antt =====
-- Go's masks and shifts on bytes as arithmetic. A mask of one byte is a table of 256 entries,
-- checked by evaluation; `|` of a shifted value and one below the shift is a sum.
use mathlib.Core.Path.{subst}
use Prim.Native.Nat.{max, digits, bit_or-bitwise}
use native.Mathlib.Nat.{pow-suc}
use rtp_stream_cleaner.Prelude.{
  ℕ, zero, suc, ◌+◌, ◌*◌, ◌/◌, ◌%◌, ◌^◌, ◌≤◌, ◌<◌, ◌≡◌, refl, sym, ap, ◌∙◌, ◌-◌, inl, inr,
  Bool-cases, Bool, true, ◌&&◌, arith, bit_and, bit_or, ◌==◌, ==_iff,
}

module _ (f g : ℕ → ℕ) where
  -- Do the two functions agree on all numbers below a bound?
  agree : ℕ → Bool
  agree zero = true
  agree (suc bound) = f bound == g bound && agree bound

  agree_at : (b bound : ℕ) → b < bound → agree bound ≡ true → f b ≡ g b
  unfolding agree
  agree_at b (suc bound) inside same = elim (Bool-cases (b == bound)) [
    | inl last ↦
        let e : b ≡ bound = ground arith in rw e ((==_iff (f bound) (g bound)).0 (ground arith))
    | inr earlier ↦ agree_at b bound (ground arith) (ground arith)
  ]
  agree_at b zero inside same = absurd (omega arith)

  from_table : agree 256 ≡ true → (b : ℕ) → b < 256 → f b ≡ g b
  from_table table b h = agree_at b 256 h table

module _ (b : ℕ) (h : b < 256) where
  pub and_0x0f : bit_and b 0x0f ≡ b % 16
  unfolding agree
  and_0x0f = from_table (λ b. bit_and b 0x0f) (λ b. b % 16) refl b h

  pub and_0x10 : bit_and b 0x10 ≡ b / 16 % 2 * 16
  unfolding agree
  and_0x10 = from_table (λ b. bit_and b 0x10) (λ b. b / 16 % 2 * 16) refl b h

  pub and_0x1f : bit_and b 0x1f ≡ b % 32
  unfolding agree
  and_0x1f = from_table (λ b. bit_and b 0x1f) (λ b. b % 32) refl b h

  pub and_0x40 : bit_and b 0x40 ≡ b / 64 % 2 * 64
  unfolding agree
  and_0x40 = from_table (λ b. bit_and b 0x40) (λ b. b / 64 % 2 * 64) refl b h

  pub and_0x7f : bit_and b 0x7f ≡ b % 128
  unfolding agree
  and_0x7f = from_table (λ b. bit_and b 0x7f) (λ b. b % 128) refl b h

  pub and_0x80 : bit_and b 0x80 ≡ b / 128 * 128
  unfolding agree
  and_0x80 = from_table (λ b. bit_and b 0x80) (λ b. b / 128 * 128) refl b h

  pub or_0x80 : bit_or b 0x80 ≡ b % 128 + 128
  unfolding agree
  or_0x80 = from_table (λ b. bit_or b 0x80) (λ b. b % 128 + 128) refl b h

-- The native operation runs on fuel; what it has beyond its first argument is spare.
abbrev or_run : ℕ → ℕ → ℕ → ℕ
or_run fuel a b = digits (λ y. y) max fuel a b

or_run_nothing : (fuel b : ℕ) → or_run fuel 0 b ≡ b
or_run_nothing zero b = refl
or_run_nothing (suc fuel) b = refl

or_run_spare : (fuel spare a b : ℕ) → a ≤ fuel → or_run (fuel + spare) a b ≡ or_run fuel a b
or_run_spare fuel spare zero b h = or_run_nothing (fuel + spare) b ∙ sym (or_run_nothing fuel b)
or_run_spare (suc fuel) spare (suc a) b h =
    let e : suc fuel + spare ≡ suc (fuel + spare) = omega arith in
    rw e (omega (arith, or_run_spare fuel spare (suc a / 2) (b / 2) (omega arith)))
or_run_spare zero spare (suc a) b h = absurd (omega arith)

-- The lowest digit of `|`.
or_digit : (a b : ℕ) → bit_or a b ≡ bit_or (a / 2) (b / 2) * 2 + max (a % 2) (b % 2)
or_digit zero b = simp bit_or-bitwise (omega arith)
or_digit (suc a) b =
    let half : ℕ = suc a / 2 in
    let e : half + (a - half) ≡ a = omega arith in
    let spare : or_run a half (b / 2) ≡ or_run half half (b / 2) =
      subst (λ t. or_run t half (b / 2) ≡ or_run half half (b / 2)) e
        (or_run_spare half (a - half) half (b / 2) (omega arith)) in
    omega (arith, bit_or-bitwise (suc a) b, bit_or-bitwise half (b / 2), spare)

or_zero : (bound a : ℕ) → a < bound → bit_or a 0 ≡ a
or_zero (suc bound) zero h = refl
or_zero (suc bound) (suc a) h =
    omega (arith, or_digit (suc a) 0, or_zero bound (suc a / 2) (omega arith))
or_zero zero a h = absurd (omega arith)

-- hi << k | lo, where lo has at most k digits.
pub or_shifted : (k hi lo : ℕ) → lo < 2 ^ k → bit_or (hi * 2 ^ k) lo ≡ hi * 2 ^ k + lo
or_shifted zero hi lo h =
    let e : lo ≡ 0 = omega arith in
    rw e (omega (arith, or_zero (suc (hi * 2 ^ zero)) (hi * 2 ^ zero) (omega arith)))
or_shifted (suc k) hi lo h =
    let half : hi * 2 ^ suc k / 2 ≡ hi * 2 ^ k =
      omega (arith, ap (λ (t : ℕ). hi * t) (pow-suc 2 k)) in
    omega (
      arith,
      or_digit (hi * 2 ^ suc k) lo,
      ap (λ (t : ℕ). bit_or t (lo / 2)) half,
      or_shifted k hi (lo / 2) (omega (arith, pow-suc 2 k)),
      ap (λ (t : ℕ). hi * t) (pow-suc 2 k),
    )

-- uint16(a)<<8 | uint16(b)
pub or_bytes : (a b : ℕ) → b < 256 → bit_or (a * 256) b ≡ a * 256 + b
or_bytes a b h = or_shifted 8 a b h

-- uint32(a)<<24 | uint32(b)<<16 | uint32(c)<<8 | uint32(d)
pub or_words :
    (a b c d : ℕ)
    → b < 256
    → c < 256
    → d < 256
    → bit_or (bit_or (bit_or (a * 16777216) (b * 65536)) (c * 256)) d
      ≡ a * 16777216 + b * 65536 + c * 256 + d
or_words a b c d hb hc hd =
    let e : a * 16777216 + b * 65536 ≡ (a * 256 + b) * 65536 = omega arith in
    let f : (a * 256 + b) * 65536 + c * 256 ≡ (a * 65536 + b * 256 + c) * 256 = omega arith in
    rw
      (
        or_shifted 24 a (b * 65536) (omega arith),
        e,
        or_shifted 16 (a * 256 + b) (c * 256) (omega arith),
        f,
        or_shifted 8 (a * 65536 + b * 256 + c) d hd,
      )
      (omega arith)
