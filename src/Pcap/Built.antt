-- ===== src/Pcap/Built.antt =====
-- The frames that the writer builds, as their receivers check them.
use rtp_stream_cleaner.Prelude.{
  ℕ, ◌+◌, ◌*◌, ◌/◌, ◌%◌, ◌≡◌, refl, ap, sym, ◌∙◌, List, [], ◌∷◌, ◌++◌, All, length, take,
  take-append, drop, zero, suc, arith,
}
use rtp_stream_cleaner.Bytes.{IsByte, put_be16}
use rtp_stream_cleaner.Pcap.Checksum.{checksum}
use rtp_stream_cleaner.Pcap.Frame.{
  to4, ipv4, or_default, ip_fields, ip_header, udp_header, build_ethernet_ipv4_udp,
}
use rtp_stream_cleaner.Pcap.Sums.{total, total-bound, checksum-total, Four, address_bytes}

-- Twenty bytes with a checksum in their sixth word.
abbrev twenty : ℕ → ℕ → ℕ → List ℕ → List ℕ
twenty size high low addresses =
    69
    ∷ 0
    ∷ (size % 65536 / 256 % 256)
    ∷ (size % 65536 % 256)
    ∷ 0
    ∷ 0
    ∷ 0
    ∷ 0
    ∷ 64
    ∷ 17
    ∷ high
    ∷ low
    ∷ addresses

module _ (size : ℕ) (addresses : List ℕ) (bytes : All IsByte addresses) where
  total-twenty :
      (high low : ℕ)
      → total (twenty size high low addresses)
        ≡ 69 * 256 + size % 65536 + (64 * 256 + 17) + (high * 256 + low) + total addresses
  total-twenty high low = omega arith

  twenty-checksum :
      length addresses ≡ 8
      → let c = checksum (twenty size 0 0 addresses) in
        checksum (twenty size (c / 256 % 256) (c % 256) addresses) ≡ 0
  twenty-checksum n =
      let c = checksum (twenty size 0 0 addresses) in
      let bound = total-bound addresses bytes in
      let (word, fills, full) =
        checksum-total (twenty size 0 0 addresses) (omega (arith, total-twenty 0 0)) in
      let (word', fills', full') =
        checksum-total (twenty size (c / 256 % 256) (c % 256) addresses)
          (omega (arith, total-twenty (c / 256 % 256) (c % 256))) in
      ground (arith, total-twenty 0 0, total-twenty (c / 256 % 256) (c % 256))

-- An IPv4 header with its own checksum in it has the checksum zero.
ip_header-checksum :
    (src4 dst4 : List ℕ) (size : ℕ)
    → Four src4
    → Four dst4
    → checksum (ip_header src4 dst4 size) ≡ 0
unfolding ip_header ip_fields put_be16
ip_header-checksum src4 dst4 size s t =
    let addresses = s.a ∷ s.b ∷ s.c ∷ s.d ∷ t.a ∷ t.b ∷ t.c ∷ t.d ∷ [] in
    rw (s.parts, t.parts)
      (twenty-checksum size addresses
        (
          s.bytes.0,
          (
            s.bytes.1,
            (s.bytes.2, (s.bytes.3, (t.bytes.0, (t.bytes.1, (t.bytes.2, (t.bytes.3, tt)))))),
          ),
        )
        refl)

abbrev pub source : List ℕ → List ℕ
source src_ip = or_default (to4 src_ip) (ipv4 192 0 2 1)

abbrev pub destination : List ℕ → List ℕ
destination dst_ip = or_default (to4 dst_ip) (ipv4 192 0 2 2)

pub source-Four : (ip : List ℕ) → All IsByte ip → Four (source ip)
source-Four ip h = address_bytes ip (ipv4 192 0 2 1) h (omega arith) (omega arith)

pub destination-Four : (ip : List ℕ) → All IsByte ip → Four (destination ip)
destination-Four ip h = address_bytes ip (ipv4 192 0 2 2) h (omega arith) (omega arith)

length-ip_header :
    (src4 dst4 : List ℕ) (size : ℕ) → Four src4 → Four dst4 → length (ip_header src4 dst4 size) ≡ 20
unfolding ip_header ip_fields put_be16
length-ip_header src4 dst4 size s t = rw (s.parts, t.parts) refl

-- Whatever the addresses, the ports and the payload, the IPv4 header of a built frame passes its
-- receiver's test: the checksum of its twenty bytes is zero.
pub checksum-build_ethernet_ipv4_udp :
    (src_ip dst_ip : List ℕ) (src_port dst_port : ℕ) (payload : List ℕ)
    → All IsByte src_ip
    → All IsByte dst_ip
    → checksum (take 20 (drop 14 (build_ethernet_ipv4_udp src_ip dst_ip src_port dst_port payload)))
      ≡ 0
unfolding build_ethernet_ipv4_udp
checksum-build_ethernet_ipv4_udp src_ip dst_ip src_port dst_port payload hs hd =
    let s = source-Four src_ip hs in
    let t = destination-Four dst_ip hd in
    let size : ℕ = 20 + 8 + length payload in
    let ip = ip_header (source src_ip) (destination dst_ip) size in
    let front =
      take-append 20 ip (udp_header ip src_port dst_port payload ++ payload)
        (sym (length-ip_header (source src_ip) (destination dst_ip) size s t)) in
    ap checksum front ∙ ip_header-checksum (source src_ip) (destination dst_ip) size s t

-- The sums of a front of an even number of bytes and of the rest.
pub total-append :
    (k : ℕ) (xs ys : List ℕ) → length xs ≡ k + k → total (xs ++ ys) ≡ total xs + total ys
total-append k [] ys e = omega arith
total-append k (x ∷ []) ys e = absurd (omega arith)
total-append zero (x ∷ y ∷ rest) ys e = absurd (omega arith)
total-append (suc k) (x ∷ y ∷ rest) ys e = omega (arith, total-append k rest ys (omega arith))
