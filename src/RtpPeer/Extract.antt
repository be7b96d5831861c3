-- ===== src/RtpPeer/Extract.antt =====
-- extractUDPPayload of cmd/rtppeer/main.go, one function for each layer of a frame.
use rtp_stream_cleaner.Prelude.{
  ℕ, ◌+◌, ◌-◌, ◌*◌, not, List, length, take, drop, bit_and, ltb, ◌==◌, if◌then◌else◌, Result, ok,
  err,
}
use rtp_stream_cleaner.Bytes.{byte, be16}
use rtp_stream_cleaner.RtpPeer.{
  ExtractError, frame_too_short, unsupported_linktype, frame_too_short_for_vlan,
  unsupported_ethertype, ipv4_header_truncated, invalid_ihl, not_udp, fragmented_packet,
  udp_header_truncated, invalid_udp_length, udp_payload_truncated,
}

-- From `udp_start` on.
unfoldable pub udp_payload : List ℕ → ℕ → Result ExtractError (List ℕ)
udp_payload frame udp_start =
    if ltb (length frame) (udp_start + 8)
    then err udp_header_truncated
    else (let udp_len : ℕ = be16 frame (udp_start + 4) in
        if ltb udp_len 8
        then err invalid_udp_length
        else if ltb (length frame) (udp_start + 8 + (udp_len - 8))
        then err udp_payload_truncated
        else ok (take (udp_len - 8) (drop (udp_start + 8) frame)))

-- From the IPv4 header at `offset` on.
unfoldable pub ipv4_payload : List ℕ → ℕ → Result ExtractError (List ℕ)
ipv4_payload frame offset =
    if ltb (length frame) (offset + 20)
    then err ipv4_header_truncated
    else (let ihl : ℕ = bit_and (byte frame offset) 0x0f in
        if ltb ihl 5
        then err invalid_ihl
        else if ltb (length frame) (offset + ihl * 4)
        then err ipv4_header_truncated
        else if not (byte frame (offset + 9) == 17)
        then err not_udp
        else if not (bit_and (be16 frame (offset + 6)) 0x1fff == 0)
        then err fragmented_packet
        else udp_payload frame (offset + ihl * 4))

abbrev pub untagged_payload : List ℕ → ℕ → ℕ → Result ExtractError (List ℕ)
untagged_payload frame ether_type offset =
    if not (ether_type == 0x0800)
    then err (unsupported_ethertype ether_type)
    else ipv4_payload frame offset

-- Behind the link layer, with one VLAN tag skipped.
unfoldable pub tagged_payload : List ℕ → ℕ → ℕ → Result ExtractError (List ℕ)
tagged_payload frame ether_type offset =
    if ether_type == 0x8100
    then (if ltb (length frame) (offset + 4)
        then err frame_too_short_for_vlan
        else untagged_payload frame (be16 frame (offset + 2)) (offset + 4))
    else untagged_payload frame ether_type offset

-- Ethernet, and the two "cooked" captures of Linux.
unfoldable pub extract_udp_payload : List ℕ → ℕ → Result ExtractError (List ℕ)
extract_udp_payload frame link_type =
    if link_type == 1
    then (if ltb (length frame) 14
        then err frame_too_short
        else tagged_payload frame (be16 frame 12) 14)
    else if link_type == 113
    then (if ltb (length frame) 16
        then err frame_too_short
        else tagged_payload frame (be16 frame 14) 16)
    else if link_type == 276
    then (if ltb (length frame) 20
        then err frame_too_short
        else tagged_payload frame (be16 frame 0) 20)
    else err (unsupported_linktype link_type)
