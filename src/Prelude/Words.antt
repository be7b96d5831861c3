-- ===== src/Prelude/Words.antt =====
-- Go's fixed-width unsigned integers as native numbers, with the wrap-around written out.
use Prim.Native.Nat.{ℕ, ◌+◌, ◌-◌, ◌%◌, ◌^◌}

-- uint16 a + b.
abbrev pub add16 : ℕ → ℕ → ℕ
add16 a b = (a + b) % 65536

-- uint16 a - b.
abbrev pub sub16 : ℕ → ℕ → ℕ
sub16 a b = (a + 65536 - b) % 65536

-- uint32 a + b.
abbrev pub add32 : ℕ → ℕ → ℕ
add32 a b = (a + b) % 4294967296

-- uint64 a + b.
abbrev pub add64 : ℕ → ℕ → ℕ
add64 a b = (a + b) % 2 ^ 64
