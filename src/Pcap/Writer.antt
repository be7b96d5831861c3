-- ===== src/Pcap/Writer.antt =====
-- The writer of internal/pcapio/pcapio.go. Each method runs under the writer's mutex. A write puts
-- a front of its bytes into the file, how long a one the disk says, and fails if bytes are missing.
use rtp_stream_cleaner.Prelude.{
  ℕ, ◌/◌, ◌%◌, Bool, true, false, not, Option, none, some, List, [], ◌++◌, length, take, leb,
  if◌then◌else◌, Result, ok, err,
}
use rtp_stream_cleaner.Bytes.Order.{put_le16, put_le32}
use rtp_stream_cleaner.Pcap.{zeros, link_type_ether}
use rtp_stream_cleaner.Pcap.Frame.{build_ethernet_ipv4_udp}

pub record Writer : Type 0 where
  pub written : List ℕ
  pub closed : Bool

-- How many bytes of a write reach the file, after what it already holds.
abbrev pub Disk : Type 0
Disk = List ℕ → List ℕ → ℕ

pub data WriteError : Type 0 where
  writer_closed : WriteError
  write_pcap_header : WriteError
  write_record_header : WriteError
  write_record_data : WriteError

unfoldable pub write_file : Disk → Writer → List ℕ → Writer × Bool
write_file disk w bytes =
    let n : ℕ = disk w.written bytes in
    (record w { written = w.written ++ take n bytes }, leb (length bytes) n)

abbrev pub pcap_magic_little : ℕ
pcap_magic_little = 0xa1b2c3d4

abbrev pub default_snap : ℕ
default_snap = 65535

abbrev pub file_header : List ℕ
file_header =
    put_le32
      (put_le32
        (put_le32
          (put_le32 (put_le16 (put_le16 (put_le32 (zeros 24) 0 pcap_magic_little) 4 2) 6 4) 8 0) 12
          0)
        16 default_snap)
      20 link_type_ether

unfoldable pub new_writer : Disk → Result WriteError Writer
new_writer disk =
    let (w, done) = write_file disk (record { written = []; closed = false }) file_header in
    if not done then err write_pcap_header else ok w

unfoldable pub close : Writer → Writer
close w = record w { closed = true }

-- A datagram with its time and its two ends.
pub record Captured : Type 0 where
  pub ts : ℕ
  pub src_ip : List ℕ
  pub dst_ip : List ℕ
  pub src_port : ℕ
  pub dst_port : ℕ
  pub payload : List ℕ

abbrev pub frame_of : Captured → List ℕ
frame_of c = build_ethernet_ipv4_udp c.src_ip c.dst_ip c.src_port c.dst_port c.payload

-- Seconds and microseconds, and the size of the frame twice.
unfoldable pub record_header : ℕ → ℕ → List ℕ
record_header ts size =
    put_le32
      (put_le32
        (put_le32 (put_le32 (zeros 16) 0 (ts / 1_000_000_000 % 4294967296)) 4
          (ts % 1_000_000_000 / 1000))
        8 (size % 4294967296))
      12 (size % 4294967296)

unfoldable pub write_packet : Disk → Writer → Captured → Writer × Option WriteError
write_packet disk w c =
    let frame = frame_of c in
    let (q, header_done) = write_file disk w (record_header c.ts (length frame)) in
    let (r, data_done) = write_file disk q frame in
    if w.closed
    then (w, some writer_closed)
    else if not header_done
    then (q, some write_record_header)
    else if not data_done
    then (r, some write_record_data)
    else (r, none)
