-- ===== src/Bytes.antt =====
-- Byte slices, and what the code uses of Go's encoding/binary.BigEndian.
-- A slice is the list of its bytes. Every read and write of the program stands behind a test of
-- the length, so the default of a read and the lost write out of bounds never show.
pub mod Laws
pub mod Bits
pub mod Order
use rtp_stream_cleaner.Prelude.{ℕ, ◌+◌, ◌*◌, ◌/◌, ◌%◌, ◌<◌, List, get_or, set}

abbrev pub IsByte : ℕ → Type 0
IsByte b = b < 256

-- packet[i]
abbrev pub byte : List ℕ → ℕ → ℕ
byte packet i = get_or packet i 0

-- binary.BigEndian.Uint16(packet[i:i+2])
unfoldable pub be16 : List ℕ → ℕ → ℕ
be16 packet i = byte packet i * 256 + byte packet (i + 1)

-- binary.BigEndian.Uint32(packet[i:i+4])
unfoldable pub be32 : List ℕ → ℕ → ℕ
be32 packet i =
    byte packet i * 16777216
    + byte packet (i + 1) * 65536
    + byte packet (i + 2) * 256
    + byte packet (i + 3)

-- binary.BigEndian.PutUint16(packet[i:i+2], v)
unfoldable pub put_be16 : List ℕ → ℕ → ℕ → List ℕ
put_be16 packet i v = set (set packet i (v / 256 % 256)) (i + 1) (v % 256)

-- binary.BigEndian.PutUint32(packet[i:i+4], v)
unfoldable pub put_be32 : List ℕ → ℕ → ℕ → List ℕ
put_be32 packet i v =
    set
      (set (set (set packet i (v / 16777216 % 256)) (i + 1) (v / 65536 % 256)) (i + 2)
        (v / 256 % 256))
      (i + 3) (v % 256)
