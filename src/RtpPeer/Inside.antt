-- ===== src/RtpPeer/Inside.antt =====
-- Where an extracted payload stands in its frame.
use rtp_stream_cleaner.Prelude.{
  ℕ, ◌+◌, ◌-◌, ◌*◌, ◌≤◌, ◌≡◌, refl, ap, sym, ◌∙◌, length-take, length-drop, Bool-cases, inl, inr,
  List, length, take, drop, bit_and, ◌==◌, ok, arith, ◌⊎◌, ◌↔◌, ==_iff, true,
}
use rtp_stream_cleaner.Bytes.{byte, be16}
use rtp_stream_cleaner.RtpPeer.Extract.{
  udp_payload, ipv4_payload, untagged_payload, tagged_payload, extract_udp_payload,
}

-- What stands before an IPv4 header at `offset`: the link layer's header, whose size and whose place
-- of the EtherType follow from the link type, and a VLAN tag if that EtherType says so.
pub data Link : ℕ → ℕ → ℕ → Type 0 where
  ethernet : Link 1 14 12
  linux_cooked : Link 113 16 14
  linux_cooked2 : Link 276 20 0

abbrev pub IsBehind : List ℕ → ℕ → ℕ → ℕ → Type 0
IsBehind frame size place offset =
    ((be16 frame place ≡ 0x0800) × (offset ≡ size))
    ⊎ ((be16 frame place ≡ 0x8100) × (be16 frame (size + 2) ≡ 0x0800) × (offset ≡ size + 4))

-- The datagram at `udp_start` has the length that its header says, lies in the frame behind an IPv4
-- header of protocol UDP that starts at `offset`, and is no later fragment.
pub record IsDatagram (frame : List ℕ) (offset udp_start : ℕ) (payload : List ℕ) : Type 0 where
  pub header_size : udp_start ≡ offset + bit_and (byte frame offset) 0x0f * 4
  pub long_enough : offset + 20 ≤ udp_start
  pub protocol : byte frame (offset + 9) ≡ 17
  pub first_fragment : bit_and (be16 frame (offset + 6)) 0x1fff ≡ 0
  pub stated_length : be16 frame (udp_start + 4) ≡ 8 + length payload
  pub inside : udp_start + 8 + length payload ≤ length frame
  pub is_slice : payload ≡ take (length payload) (drop (udp_start + 8) frame)

length-slice :
    (frame : List ℕ) (start n : ℕ)
    → start + n ≤ length frame
    → length (take n (drop start frame)) ≡ n
length-slice frame start n h =
    omega (arith, length-take {0} n (drop start frame), length-drop {0} start frame)

-- A slice is the slice of its own length.
slice_self :
    (frame payload : List ℕ) (start n : ℕ)
    → start + n ≤ length frame
    → payload ≡ take n (drop start frame)
    → (length payload ≡ n) × (payload ≡ take (length payload) (drop start frame))
slice_self frame payload start n h e =
    let size : length payload ≡ n = ap length e ∙ length-slice frame start n h in
    (size, e ∙ ap (λ (k : ℕ). take k (drop start frame)) (sym size))

module _ (frame payload : List ℕ) where
  udp_payload_inv :
      (udp_start : ℕ)
      → udp_payload frame udp_start ≡ ok payload
      → (be16 frame (udp_start + 4) ≡ 8 + length payload)
        × (udp_start + 8 + length payload ≤ length frame)
        × (payload ≡ take (length payload) (drop (udp_start + 8) frame))
  unfolding udp_payload
  udp_payload_inv udp_start e =
      let n : ℕ = be16 frame (udp_start + 4) - 8 in
      let fits : udp_start + 8 + n ≤ length frame = ground arith in
      let enough : 8 ≤ be16 frame (udp_start + 4) = ground arith in
      let same : payload ≡ take n (drop (udp_start + 8) frame) = ground arith in
      let (size, slice) = slice_self frame payload (udp_start + 8) n fits same in
      (omega (arith, size), omega (arith, size), slice)

  ipv4_payload_inv :
      (offset : ℕ)
      → ipv4_payload frame offset ≡ ok payload
      → IsDatagram frame offset (offset + bit_and (byte frame offset) 0x0f * 4) payload
  unfolding ipv4_payload
  ipv4_payload_inv offset e =
      let start : ℕ = offset + bit_and (byte frame offset) 0x0f * 4 in
      let answer : udp_payload frame start ≡ ok payload = ground arith in
      let (stated, inside, slice) = udp_payload_inv start answer in
      record {
        header_size = refl;
        long_enough = ground arith;
        protocol = ground arith;
        first_fragment = ground arith;
        stated_length = stated;
        inside = inside;
        is_slice = slice;
      }

  untagged_payload_inv :
      (ether_type offset : ℕ)
      → untagged_payload frame ether_type offset ≡ ok payload
      → (ether_type ≡ 0x0800) × (ipv4_payload frame offset ≡ ok payload)
  untagged_payload_inv ether_type offset e = (ground arith, ground arith)

  tagged_payload_inv :
      (size place : ℕ)
      → tagged_payload frame (be16 frame place) size ≡ ok payload
      → (offset : ℕ) × IsBehind frame size place offset × (ipv4_payload frame offset ≡ ok payload)
  unfolding tagged_payload
  tagged_payload_inv size place e = elim (Bool-cases (be16 frame place == 0x8100)) [
    | inl tag ↦
        let inner = untagged_payload_inv (be16 frame (size + 2)) (size + 4) (ground arith) in
        (size + 4, inr (ground arith, inner.0, refl), inner.1)
    | inr plain ↦
        let inner = untagged_payload_inv (be16 frame place) size (ground arith) in
        (size, inl (inner.0, refl), inner.1)
  ]

  layer :
      (link_type : ℕ)
      → extract_udp_payload frame link_type ≡ ok payload
      → (size place : ℕ) × Link link_type size place
        × (tagged_payload frame (be16 frame place) size ≡ ok payload)
  unfolding extract_udp_payload
  layer link_type e = elim (Bool-cases (link_type == 1)) [
    | inl first ↦ (14, 12, rw (number link_type 1 first) ethernet, ground arith)
    | inr not_first ↦ elim (Bool-cases (link_type == 113)) [
      | inl second ↦ (16, 14, rw (number link_type 113 second) linux_cooked, ground arith)
      | inr not_second ↦
          let third : (link_type == 276) ≡ true = ground arith in
          (20, 0, rw (number link_type 276 third) linux_cooked2, ground arith)
    ]
  ]
    where
      number : (a b : ℕ) → (a == b) ≡ true → a ≡ b
      number a b h = (==_iff a b).0 h

  udp_payload_of :
      (offset udp_start : ℕ)
      → IsDatagram frame offset udp_start payload
      → udp_payload frame udp_start ≡ ok payload
  unfolding udp_payload
  udp_payload_of offset udp_start d =
      let n : be16 frame (udp_start + 4) - 8 ≡ length payload = omega (arith, d.stated_length) in
      let same : take (be16 frame (udp_start + 4) - 8) (drop (udp_start + 8) frame) ≡ payload =
        rw n (sym d.is_slice) in
      ground (arith, d.stated_length, d.inside, same)

  ipv4_payload_of :
      (offset udp_start : ℕ)
      → IsDatagram frame offset udp_start payload
      → ipv4_payload frame offset ≡ ok payload
  unfolding ipv4_payload
  ipv4_payload_of offset udp_start d =
      let answer : udp_payload frame (offset + bit_and (byte frame offset) 0x0f * 4) ≡ ok payload =
        ap (udp_payload frame) (sym d.header_size) ∙ udp_payload_of offset udp_start d in
      ground (arith, d.header_size, d.long_enough, d.protocol, d.first_fragment, d.inside, answer)

  tagged_payload_of :
      (size place offset udp_start : ℕ)
      → IsBehind frame size place offset
      → IsDatagram frame offset udp_start payload
      → tagged_payload frame (be16 frame place) size ≡ ok payload
  unfolding tagged_payload
  tagged_payload_of size place offset udp_start (inl (plain, here)) d =
      let answer : ipv4_payload frame size ≡ ok payload =
        ap (ipv4_payload frame) (sym here) ∙ ipv4_payload_of offset udp_start d in
      ground (arith, plain, answer)
  tagged_payload_of size place offset udp_start (inr (tag, plain, here)) d =
      let answer : ipv4_payload frame (size + 4) ≡ ok payload =
        ap (ipv4_payload frame) (sym here) ∙ ipv4_payload_of offset udp_start d in
      ground (arith, tag, plain, here, d.long_enough, d.inside, answer)

  reaches :
      (size place offset udp_start : ℕ)
      → IsBehind frame size place offset
      → IsDatagram frame offset udp_start payload
      → size ≤ length frame
  reaches size place offset udp_start (inl (plain, here)) d =
      omega (arith, here, d.long_enough, d.inside)
  reaches size place offset udp_start (inr (tag, plain, here)) d =
      omega (arith, here, d.long_enough, d.inside)

  layer_of :
      (link_type size place : ℕ)
      → Link link_type size place
      → size ≤ length frame
      → extract_udp_payload frame link_type ≡ tagged_payload frame (be16 frame place) size
  unfolding extract_udp_payload
  layer_of link_type size place ethernet long = ground (arith, long)
  layer_of link_type size place linux_cooked long = ground (arith, long)
  layer_of link_type size place linux_cooked2 long = ground (arith, long)

  -- A frame yields a payload just where all of this holds. The link type is one of the three that
  -- have a header known here; behind that header, and behind a VLAN tag if its EtherType says that
  -- there is one, the EtherType says IPv4; there stands an IPv4 header of at least 20 bytes and of
  -- protocol UDP that is no later fragment; and behind that header, inside the frame, stands the
  -- payload, with the length that its UDP header states.
  pub extract_udp_payload-IsDatagram :
      (link_type : ℕ)
      → (extract_udp_payload frame link_type ≡ ok payload) ↔ (
          (size place offset udp_start : ℕ) × Link link_type size place
          × IsBehind frame size place offset
          × IsDatagram frame offset udp_start payload)
  extract_udp_payload-IsDatagram link_type = (
    λ e.
        let (size, place, link, tagged) = layer link_type e in
        let (offset, behind, answer) = tagged_payload_inv size place tagged in
        (
          size,
          place,
          offset,
          offset + bit_and (byte frame offset) 0x0f * 4,
          link,
          behind,
          ipv4_payload_inv offset answer,
        ),
    λ (size, place, offset, udp_start, link, behind, d).
        layer_of link_type size place link (reaches size place offset udp_start behind d)
        ∙ tagged_payload_of size place offset udp_start behind d,
  )
