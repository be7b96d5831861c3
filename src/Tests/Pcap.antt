-- ===== src/Tests/Pcap.antt =====
-- Capture files: frames, checksums, a file written and read.
use mathlib.Core.List.{map}
use rtp_stream_cleaner.Prelude.{
  ℕ, ◌≡◌, ◌↔◌, ◌%◌, ◌≤◌, refl, true, false, none, some, List, [], ◌∷◌, All, take, drop, err, arith,
}
use rtp_stream_cleaner.Bytes.{IsByte, be16, be32}
use rtp_stream_cleaner.Bytes.Order.{little_endian}
use rtp_stream_cleaner.Pcap.{read_full, end_of_file, unsupported_magic}
use rtp_stream_cleaner.Pcap.Checksum.{checksum}
use rtp_stream_cleaner.Pcap.Frame.{
  build_ethernet_ipv4_udp, ip_fields, ip_header, to4, udp_fields, udp_header,
}
use rtp_stream_cleaner.Pcap.Built.{checksum-build_ethernet_ipv4_udp}
use rtp_stream_cleaner.Pcap.Udp.{built_ip, received, to_cover, checksum-udp_header}
use rtp_stream_cleaner.Pcap.Writer.{Captured, new_writer}
use rtp_stream_cleaner.Pcap.Written.{takes_all}
use rtp_stream_cleaner.Pcap.Ng.{ts_resolution}
use rtp_stream_cleaner.Pcap.Reader.{new_reader, open_reader, read_packets}
use rtp_stream_cleaner.Pcap.Ends.{is_out_of_fuel, read_packets-ends}
use rtp_stream_cleaner.Pcap.RoundTrip.{
  reads_of, written_file, read_back, read_packets-write_packets,
}

abbrev first_ip : List ℕ
first_ip = 10 ∷ 0 ∷ 0 ∷ 1 ∷ []

abbrev second_ip : List ℕ
second_ip = 10 ∷ 0 ∷ 0 ∷ 2 ∷ []

first_ip_bytes : All IsByte first_ip
first_ip_bytes = (omega arith, (omega arith, (omega arith, (omega arith, tt))))

second_ip_bytes : All IsByte second_ip
second_ip_bytes = (omega arith, (omega arith, (omega arith, (omega arith, tt))))

abbrev two_captured : List Captured
two_captured =
    record {
      ts = 1_700_000_000_123_456_789;
      src_ip = first_ip;
      dst_ip = second_ip;
      src_port = 5004;
      dst_port = 5006;
      payload = 1 ∷ 2 ∷ 3 ∷ [];
    }
    ∷ record {
      ts = 1_700_000_000_143_456_789;
      src_ip = second_ip;
      dst_ip = first_ip;
      src_port = 5006;
      dst_port = 5004;
      payload = [];
    }
    ∷ []

checksum-build_ethernet_ipv4_udp_example :
    checksum (take 20 (drop 14 (build_ethernet_ipv4_udp first_ip second_ip 5004 5006 (7 ∷ [])))) ≡ 0
checksum-build_ethernet_ipv4_udp_example =
    checksum-build_ethernet_ipv4_udp first_ip second_ip 5004 5006 (7 ∷ []) first_ip_bytes
      second_ip_bytes

checksum-udp_header_example :
    let sum : ℕ = to_cover first_ip second_ip 5004 5006 (7 ∷ []) in
    let header = udp_header (built_ip first_ip second_ip (7 ∷ [])) 5004 5006 (7 ∷ []) in
    (be16 header 6 % 65535 ≡ sum % 65535)
    × (1 ≤ be16 header 6)
    × ((checksum (received first_ip second_ip 5004 5006 (7 ∷ [])) ≡ 0) ↔ (sum % 65535 ≡ 0))
checksum-udp_header_example =
    checksum-udp_header first_ip second_ip 5004 5006 (7 ∷ []) first_ip_bytes second_ip_bytes
      (omega arith, tt) (omega arith)

-- A section header of a pcapng file, then an interface whose resolution is out of range.
abbrev broken_ng : List ℕ
broken_ng =
    0x0a ∷ 0x0d ∷ 0x0d ∷ 0x0a ∷ 16 ∷ 0 ∷ 0 ∷ 0 ∷ 0x4d ∷ 0x3c ∷ 0x2b ∷ 0x1a ∷ 16 ∷ 0 ∷ 0 ∷ 0 ∷ 1 ∷ 0
    ∷ 0 ∷ 0 ∷ 28 ∷ 0 ∷ 0 ∷ 0 ∷ 1 ∷ 0 ∷ 0 ∷ 0 ∷ 0 ∷ 0 ∷ 0 ∷ 0 ∷ 9 ∷ 0 ∷ 1 ∷ 0 ∷ 64 ∷ 0 ∷ 0 ∷ 0 ∷ 28
    ∷ 0 ∷ 0 ∷ 0 ∷ []

read_packets-ends_example :
    is_out_of_fuel (read_packets (new_reader broken_ng little_endian true 0)).1 ≡ false
read_packets-ends_example = read_packets-ends (new_reader broken_ng little_endian true 0)

read_packets-write_packets_example :
    reads_of (open_reader (written_file (new_writer takes_all) two_captured))
    ≡ (map read_back two_captured, end_of_file)
unfolding build_ethernet_ipv4_udp ip_header udp_header ip_fields to4 udp_fields
read_packets-write_packets_example =
    read_packets-write_packets two_captured
      ((omega arith, omega arith), ((omega arith, omega arith), tt))

bad_magic : open_reader (1 ∷ 2 ∷ 3 ∷ 4 ∷ []) ≡ err (unsupported_magic 0x01020304)
unfolding open_reader read_full be32
bad_magic = refl

-- if_tsresol 6 says microseconds, but reads as a 64th of a second; 64 divides by zero.
resolution_of_six : ts_resolution 6 ≡ some 15_625_000
unfolding ts_resolution
resolution_of_six = refl

resolution_of_64 : ts_resolution 64 ≡ none
unfolding ts_resolution
resolution_of_64 = refl
