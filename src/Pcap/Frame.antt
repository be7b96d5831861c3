-- ===== src/Pcap/Frame.antt =====
-- buildEthernetIPv4UDP of internal/pcapio/pcapio.go. Its error is always nil.
use rtp_stream_cleaner.Prelude.{
  ℕ, ◌+◌, ◌%◌, ◌&&◌, Option, none, some, List, [], ◌∷◌, ◌++◌, length, take, drop, ◌==◌,
  if◌then◌else◌, set,
}
use rtp_stream_cleaner.Bytes.{put_be16}
use rtp_stream_cleaner.Net.{bytes_equal, v4_in_v6_prefix}
use rtp_stream_cleaner.Pcap.{zeros, copy_at}
use rtp_stream_cleaner.Pcap.Checksum.{checksum, udp_checksum}

-- net.IP.To4
unfoldable pub to4 : List ℕ → Option (List ℕ)
to4 ip =
    if length ip == 4
    then some ip
    else if length ip == 16 && bytes_equal (take 12 ip) v4_in_v6_prefix
    then some (drop 12 ip)
    else none

-- net.IPv4(a, b, c, d), which has sixteen bytes.
abbrev pub ipv4 : ℕ → ℕ → ℕ → ℕ → List ℕ
ipv4 a b c d = v4_in_v6_prefix ++ (a ∷ b ∷ c ∷ d ∷ [])

abbrev pub or_default : Option (List ℕ) → List ℕ → List ℕ
or_default none fallback = fallback
or_default (some ip) fallback = ip

abbrev pub ethernet_header : List ℕ
ethernet_header = 2 ∷ 0 ∷ 0 ∷ 0 ∷ 0 ∷ 2 ∷ 2 ∷ 0 ∷ 0 ∷ 0 ∷ 0 ∷ 1 ∷ 0x08 ∷ 0x00 ∷ []

-- The IPv4 header before its checksum is written; the slices take four bytes of each address.
unfoldable pub ip_fields : List ℕ → List ℕ → ℕ → List ℕ
unfolding put_be16
ip_fields src4 dst4 size =
    copy_at
      (copy_at (set (set (put_be16 (set (zeros 20) 0 0x45) 2 (size % 65536)) 8 64) 9 17) 12 4 src4)
      16 4 dst4

unfoldable pub ip_header : List ℕ → List ℕ → ℕ → List ℕ
unfolding put_be16
ip_header src4 dst4 size = let ip = ip_fields src4 dst4 size in put_be16 ip 10 (checksum ip)

unfoldable pub udp_fields : ℕ → ℕ → ℕ → List ℕ
unfolding put_be16
udp_fields src_port dst_port size =
    put_be16 (put_be16 (put_be16 (zeros 8) 0 (src_port % 65536)) 2 (dst_port % 65536)) 4
      (size % 65536)

unfoldable pub udp_header : List ℕ → ℕ → ℕ → List ℕ → List ℕ
unfolding put_be16
udp_header ip src_port dst_port payload =
    let udp = udp_fields src_port dst_port (8 + length payload) in
    put_be16 udp 6 (udp_checksum ip udp payload)

unfoldable pub build_ethernet_ipv4_udp : List ℕ → List ℕ → ℕ → ℕ → List ℕ → List ℕ
build_ethernet_ipv4_udp src_ip dst_ip src_port dst_port payload =
    let src4 = or_default (to4 src_ip) (ipv4 192 0 2 1) in
    let dst4 = or_default (to4 dst_ip) (ipv4 192 0 2 2) in
    let ip = ip_header src4 dst4 (20 + 8 + length payload) in
    ethernet_header ++ (ip ++ (udp_header ip src_port dst_port payload ++ payload))
