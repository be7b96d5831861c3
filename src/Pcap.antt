-- ===== src/Pcap.antt =====
-- Capture files (internal/pcapio/pcapio.go): what its reader and writer share. A file is the list of
-- its bytes, and a reader holds those that it has not read; a file that cannot be opened, or whose
-- bytes the system cannot deliver, is left out. A time is the count of nanoseconds since 1970, as a
-- 64-bit word where it comes from pcapng.
pub mod Checksum
pub mod Frame
pub mod Sums
pub mod Built
pub mod Udp
pub mod Writer
pub mod Ng
pub mod Reader
pub mod Ends
pub mod Written
pub mod RoundTrip
use rtp_stream_cleaner.Prelude.{
  ℕ, zero, suc, ◌+◌, Bool, true, false, List, [], ◌∷◌, length, take, drop, ltb, ◌==◌, if◌then◌else◌,
  set,
}

pub record Packet : Type 0 where
  pub timestamp : ℕ
  pub bytes : List ℕ

-- io.ReadFull fails with io.EOF where nothing was left, and with io.ErrUnexpectedEOF where too
-- little was.
pub data ReadError : Type 0 where
  eof : ReadError
  unexpected_eof : ReadError

pub data PcapError : Type 0 where
  end_of_file : PcapError
  read_magic : ReadError → PcapError
  unsupported_magic : ℕ → PcapError
  read_pcap_header : ReadError → PcapError
  invalid_block_length : PcapError
  read_block_payload : ReadError → PcapError
  read_block_trailer : ReadError → PcapError
  section_header_too_short : PcapError
  unknown_byte_order : PcapError
  interface_header_too_short : PcapError
  packet_header_too_short : PcapError
  packet_data_too_short : PcapError
  runtime_panic : PcapError
  out_of_fuel : PcapError

-- errors.Is(err, io.EOF), which looks through the errors that wrap another with %w.
abbrev pub is_eof : PcapError → Bool
is_eof end_of_file = true
is_eof (read_magic eof) = true
is_eof (read_pcap_header eof) = true
is_eof (read_block_payload eof) = true
is_eof (read_block_trailer eof) = true
is_eof e = false

pub data ReadFull : Type 0 where
  full : List ℕ → List ℕ → ReadFull
  short : ReadError → ReadFull

-- io.ReadFull(file, buffer of n bytes): the bytes and what is left.
unfoldable pub read_full : ℕ → List ℕ → ReadFull
read_full n file =
    if n == 0
    then full [] file
    else if length file == 0
    then short eof
    else if ltb (length file) n
    then short unexpected_eof
    else full (take n file) (drop n file)

-- make([]byte, n)
abbrev pub zeros : ℕ → List ℕ
zeros zero = []
zeros (suc n) = 0 ∷ zeros n

-- copy(p[i:i+n], bytes)
abbrev pub copy_at : List ℕ → ℕ → ℕ → List ℕ → List ℕ
copy_at p i zero bytes = p
copy_at p i (suc n) [] = p
copy_at p i (suc n) (x ∷ bytes) = copy_at (set p i x) (i + 1) n bytes

abbrev pub link_type_ether : ℕ
link_type_ether = 1
