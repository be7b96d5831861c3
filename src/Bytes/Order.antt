-- ===== src/Bytes/Order.antt =====
-- encoding/binary.LittleEndian, and a byte order that is chosen at run time.
use rtp_stream_cleaner.Prelude.{ℕ, ◌+◌, ◌*◌, ◌/◌, ◌%◌, List, set}
use rtp_stream_cleaner.Bytes.{byte, be16, be32}

pub data ByteOrder : Type 0 where
  little_endian : ByteOrder
  big_endian : ByteOrder

-- binary.LittleEndian.Uint16(p[i:i+2])
abbrev pub le16 : List ℕ → ℕ → ℕ
le16 p i = byte p i + byte p (i + 1) * 256

-- binary.LittleEndian.Uint32(p[i:i+4])
abbrev pub le32 : List ℕ → ℕ → ℕ
le32 p i = byte p i + byte p (i + 1) * 256 + byte p (i + 2) * 65536 + byte p (i + 3) * 16777216

-- binary.LittleEndian.PutUint16(p[i:i+2], v)
abbrev pub put_le16 : List ℕ → ℕ → ℕ → List ℕ
put_le16 p i v = set (set p i (v % 256)) (i + 1) (v / 256 % 256)

-- binary.LittleEndian.PutUint32(p[i:i+4], v)
abbrev pub put_le32 : List ℕ → ℕ → ℕ → List ℕ
put_le32 p i v =
    set (set (set (set p i (v % 256)) (i + 1) (v / 256 % 256)) (i + 2) (v / 65536 % 256)) (i + 3)
      (v / 16777216 % 256)

abbrev pub uint16 : ByteOrder → List ℕ → ℕ → ℕ
uint16 little_endian p i = le16 p i
uint16 big_endian p i = be16 p i

abbrev pub uint32 : ByteOrder → List ℕ → ℕ → ℕ
uint32 little_endian p i = le32 p i
uint32 big_endian p i = be32 p i
