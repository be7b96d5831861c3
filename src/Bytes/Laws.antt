-- ===== src/Bytes/Laws.antt =====
-- Reads of a big-endian field after writes, and what the writes leave alone.
use rtp_stream_cleaner.Prelude.{
  ℕ, ◌+◌, ◌*◌, ◌/◌, ◌%◌, ◌≤◌, ◌<◌, ◌≡◌, ◌≢◌, ◌⊎◌, inl, ◌∙◌, List, arith, length, length-set,
  get_or-set, set, All, All-set, All-get_or, drop, drop-set,
}
use rtp_stream_cleaner.Bytes.{IsByte, byte, be16, be32, put_be16, put_be32}

pub byte-set_ne : (p : List ℕ) (i v j : ℕ) → i ≢ j → byte (set p i v) j ≡ byte p j
byte-set_ne p i v j h = ground (arith, get_or-set {A = ℕ} p i j v 0)

pub byte-set_self : (p : List ℕ) (i v : ℕ) → i < length p → byte (set p i v) i ≡ v
byte-set_self p i v h = ground (arith, get_or-set {A = ℕ} p i i v 0)

module _ (p : List ℕ) (i v : ℕ) where
  pub length-put_be16 : length (put_be16 p i v) ≡ length p
  unfolding put_be16
  length-put_be16 = length-set _ _ _ ∙ length-set p i _

  pub length-put_be32 : length (put_be32 p i v) ≡ length p
  unfolding put_be32
  length-put_be32 = length-set _ _ _ ∙ (length-set _ _ _ ∙ (length-set _ _ _ ∙ length-set p i _))

  -- A byte outside of the field is not written.
  pub byte-put_be16 : (j : ℕ) → (j < i) ⊎ (i + 2 ≤ j) → byte (put_be16 p i v) j ≡ byte p j
  unfolding put_be16
  byte-put_be16 j h = byte-set_ne _ _ _ j (omega arith) ∙ byte-set_ne p i _ j (omega arith)

  pub byte-put_be32 : (j : ℕ) → (j < i) ⊎ (i + 4 ≤ j) → byte (put_be32 p i v) j ≡ byte p j
  unfolding put_be32
  byte-put_be32 j h =
      byte-set_ne _ _ _ j (omega arith)
      ∙ (byte-set_ne _ _ _ j (omega arith)
          ∙ (byte-set_ne _ _ _ j (omega arith) ∙ byte-set_ne p i _ j (omega arith)))

  pub drop-put_be16 : (n : ℕ) → i + 2 ≤ n → drop n (put_be16 p i v) ≡ drop n p
  unfolding put_be16
  drop-put_be16 n h = drop-set _ _ n _ (omega arith) ∙ drop-set p i n _ (omega arith)

  pub drop-put_be32 : (n : ℕ) → i + 4 ≤ n → drop n (put_be32 p i v) ≡ drop n p
  unfolding put_be32
  drop-put_be32 n h =
      drop-set _ _ n _ (omega arith)
      ∙ (drop-set _ _ n _ (omega arith)
          ∙ (drop-set _ _ n _ (omega arith) ∙ drop-set p i n _ (omega arith)))

  pub put_be16-IsByte : All IsByte p → All IsByte (put_be16 p i v)
  unfolding put_be16
  put_be16-IsByte h = All-set IsByte _ _ _ (All-set IsByte p i _ h (omega arith)) (omega arith)

  pub put_be32-IsByte : All IsByte p → All IsByte (put_be32 p i v)
  unfolding put_be32
  put_be32-IsByte h =
      All-set IsByte _ _ _
        (All-set IsByte _ _ _
          (All-set IsByte _ _ _ (All-set IsByte p i _ h (omega arith)) (omega arith)) (omega arith))
        (omega arith)

  module _ (inside : i + 2 ≤ length p) where
    high_byte : byte (put_be16 p i v) i ≡ v / 256 % 256
    unfolding put_be16
    high_byte = byte-set_ne _ (i + 1) _ i (omega arith) ∙ byte-set_self p i _ (omega arith)

    low_byte : byte (put_be16 p i v) (i + 1) ≡ v % 256
    unfolding put_be16
    low_byte = byte-set_self _ (i + 1) _ (omega (arith, length-set {0} p i (v / 256 % 256)))

    -- A 16-bit field reads back what was written.
    pub be16-put_be16 : v < 65536 → be16 (put_be16 p i v) i ≡ v
    unfolding be16
    be16-put_be16 h = rw (high_byte, low_byte) (omega arith)

-- The 32-bit operations as pairs of 16-bit ones.
be32_halves : (p : List ℕ) (i : ℕ) → be32 p i ≡ be16 p i * 65536 + be16 p (i + 2)
unfolding be32 be16
be32_halves p i = let e : i + 2 + 1 ≡ i + 3 = omega arith in rw e (omega arith)

put_be32_halves :
    (p : List ℕ) (i v : ℕ)
    → put_be32 p i v ≡ put_be16 (put_be16 p i (v / 65536)) (i + 2) (v % 65536)
unfolding put_be32 put_be16
put_be32_halves p i v =
    let e : i + 2 + 1 ≡ i + 3 = omega arith in
    let a : v / 65536 / 256 % 256 ≡ v / 16777216 % 256 = omega arith in
    let b : v % 65536 / 256 % 256 ≡ v / 256 % 256 = omega arith in
    let c : v % 65536 % 256 ≡ v % 256 = omega arith in rw (e, a, b, c)

be16-put_be16_ne : (p : List ℕ) (i j v : ℕ) → j + 2 ≤ i → be16 (put_be16 p i v) j ≡ be16 p j
unfolding be16
be16-put_be16_ne p i j v h =
    rw (byte-put_be16 p i v j (inl (omega arith)), byte-put_be16 p i v (j + 1) (inl (omega arith)))

-- A 32-bit field reads back what was written.
pub be32-put_be32 :
    (p : List ℕ) (i v : ℕ) → i + 4 ≤ length p → v < 4294967296 → be32 (put_be32 p i v) i ≡ v
be32-put_be32 p i v inside h =
    rw
      (
        put_be32_halves,
        be32_halves,
        be16-put_be16 (put_be16 p i (v / 65536)) (i + 2) (v % 65536)
            (omega (arith, length-put_be16 p i (v / 65536))) (omega arith),
        be16-put_be16_ne (put_be16 p i (v / 65536)) (i + 2) i (v % 65536) (omega arith),
        be16-put_be16 p i (v / 65536) (omega arith) (omega arith),
      )
      (omega arith)

-- Writes leave every other field alone.
pub be16_untouched :
    (p q : List ℕ) (j : ℕ)
    → byte q j ≡ byte p j
    → byte q (j + 1) ≡ byte p (j + 1)
    → be16 q j ≡ be16 p j
unfolding be16
be16_untouched p q j a b = rw (a, b)

pub be32_untouched :
    (p q : List ℕ) (j : ℕ)
    → byte q j ≡ byte p j
    → byte q (j + 1) ≡ byte p (j + 1)
    → byte q (j + 2) ≡ byte p (j + 2)
    → byte q (j + 3) ≡ byte p (j + 3)
    → be32 q j ≡ be32 p j
unfolding be32
be32_untouched p q j a b c d = rw (a, b, c, d)

module _ (p : List ℕ) (h : All IsByte p) where
  pub byte-IsByte : (i : ℕ) → byte p i < 256
  byte-IsByte i = All-get_or IsByte p i 0 h (omega arith)

  pub be16-lt : (i : ℕ) → be16 p i < 65536
  unfolding be16
  be16-lt i = omega (arith, byte-IsByte i, byte-IsByte (i + 1))

  pub be32-lt : (i : ℕ) → be32 p i < 4294967296
  be32-lt i = rw be32_halves (omega (arith, be16-lt i, be16-lt (i + 2)))
