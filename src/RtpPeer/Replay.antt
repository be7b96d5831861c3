-- ===== src/RtpPeer/Replay.antt =====
-- The extraction of the payload from a frame that the writer of captures built.
use rtp_stream_cleaner.Prelude.{
  ℕ, ◌+◌, ◌-◌, ◌<◌, ◌≡◌, refl, List, ◌++◌, All, length, take, take-length, drop, bit_and, ok, arith,
  ap, ◌∙◌,
}
use rtp_stream_cleaner.Bytes.{IsByte, byte, be16, put_be16}
use rtp_stream_cleaner.Pcap.{link_type_ether}
use rtp_stream_cleaner.Pcap.Frame.{
  ethernet_header, ip_fields, ip_header, udp_fields, udp_header, build_ethernet_ipv4_udp,
}
use rtp_stream_cleaner.Pcap.Sums.{Four}
use rtp_stream_cleaner.Pcap.Built.{source, destination, source-Four, destination-Four}
use rtp_stream_cleaner.RtpPeer.Extract.{
  udp_payload, ipv4_payload, tagged_payload, extract_udp_payload,
}

-- The fields of a frame that the extraction looks at.
record IsPlain (frame payload : List ℕ) : Type 0 where
  size : length frame ≡ 42 + length payload
  ether_type : be16 frame 12 ≡ 0x0800
  version : byte frame 14 ≡ 0x45
  protocol : byte frame 23 ≡ 17
  fragment : be16 frame 20 ≡ 0
  udp_len : be16 frame 38 ≡ 8 + length payload
  tail : drop 42 frame ≡ payload

module _ (frame payload : List ℕ) (p : IsPlain frame payload) where
  udp_plain : udp_payload frame 34 ≡ ok payload
  unfolding udp_payload
  udp_plain =
      let cut : take (length payload) (drop 42 frame) ≡ payload =
        ap (λ (b : List ℕ). take (length payload) b) p.tail ∙ take-length payload in
      let n : be16 frame 38 - 8 ≡ length payload = omega (arith, p.udp_len) in
      let same : take (be16 frame 38 - 8) (drop 42 frame) ≡ payload =
        ap (λ (k : ℕ). take k (drop 42 frame)) n ∙ cut in
      let size : length frame ≡ 42 + length payload = p.size in
      let udp_len : be16 frame 38 ≡ 8 + length payload = p.udp_len in ground arith

  ipv4_plain : ipv4_payload frame 14 ≡ ok payload
  unfolding ipv4_payload
  ipv4_plain =
      let five : bit_and (byte frame 14) 0x0f ≡ 5 = ap (λ (b : ℕ). bit_and b 0x0f) p.version in
      let whole : bit_and (be16 frame 20) 0x1fff ≡ 0 =
        ap (λ (b : ℕ). bit_and b 0x1fff) p.fragment in
      let size : length frame ≡ 42 + length payload = p.size in
      rw (five, p.protocol, whole) (ground (arith, udp_plain))

  extract_plain : extract_udp_payload frame link_type_ether ≡ ok payload
  unfolding extract_udp_payload tagged_payload
  extract_plain =
      let size : length frame ≡ 42 + length payload = p.size in
      rw p.ether_type (ground (arith, ipv4_plain))

built-IsPlain :
    (src4 dst4 : List ℕ) (src_port dst_port : ℕ) (payload : List ℕ)
    → Four src4
    → Four dst4
    → 8 + length payload < 65536
    → let ip = ip_header src4 dst4 (20 + 8 + length payload) in
      IsPlain
        (ethernet_header ++ (ip ++ (udp_header ip src_port dst_port payload ++ payload)))
        payload
unfolding ip_header ip_fields udp_header udp_fields put_be16 be16
built-IsPlain src4 dst4 src_port dst_port payload s t small =
    rw (s.parts, t.parts)
      (record {
        size = omega arith;
        ether_type = refl;
        version = refl;
        protocol = refl;
        fragment = refl;
        udp_len = omega arith;
        tail = refl;
      })

-- The payload of a built frame is extracted again, whatever its addresses and ports, as long as the
-- length field of the UDP header can hold its size.
pub extract_udp_payload-build_ethernet_ipv4_udp :
    (src_ip dst_ip : List ℕ) (src_port dst_port : ℕ) (payload : List ℕ)
    → All IsByte src_ip
    → All IsByte dst_ip
    → 8 + length payload < 65536
    → extract_udp_payload
        (build_ethernet_ipv4_udp src_ip dst_ip src_port dst_port payload)
        link_type_ether
      ≡ ok payload
unfolding build_ethernet_ipv4_udp
extract_udp_payload-build_ethernet_ipv4_udp src_ip dst_ip src_port dst_port payload hs hd small =
    extract_plain (build_ethernet_ipv4_udp src_ip dst_ip src_port dst_port payload) payload (
      built-IsPlain (source src_ip) (destination dst_ip) src_port dst_port payload
        (source-Four src_ip hs) (destination-Four dst_ip hd) small)
