-- ===== src/Video/Order.antt =====
-- The order of the packets on their way: what is on the wire, then what is buffered.
use mathlib.Core.List.{map, map-append}
use rtp_stream_cleaner.Prelude.{
  ℕ, ◌≡◌, inl, inr, refl, sym, ap, ◌∙◌, Bool, true, false, not, ◌&&◌, Option, none, List, [], ◌∷◌,
  ◌++◌, append_assoc, append-nil, All, All-drop, drop, if◌then◌else◌, if_cases, if_split, arith,
  Bool-cases,
}
use rtp_stream_cleaner.Bytes.{IsByte}
use rtp_stream_cleaner.Net.{UdpAddr}
use rtp_stream_cleaner.Rtp.{RtpHeader}
use rtp_stream_cleaner.Rtp.H264.{parse_h264-IsConsistent, is_frame_start, is_frame_end}
use rtp_stream_cleaner.Video.{VideoProxy}
use rtp_stream_cleaner.Video.Output.{send_packet, inject_cached_parameter_sets}
use rtp_stream_cleaner.Video.Frame.{
  is_empty, listed, start_frame_buffer, buffer_frame_packet, append_pending_to_frame_buffer,
  flush_frame_buffer, flush_on_timeout,
}
use rtp_stream_cleaner.Video.Handle.{
  H264Packet, complete, pass_through, count_parse_error, open_frame, take_slice, add_to_frame,
  handle_parsed, handle_video_packet, parse_h264_packet_detailed,
}
use rtp_stream_cleaner.Video.Parts.{detailed_inv}
use rtp_stream_cleaner.Video.Flushed.{
  bodies, outgoing_body, flush_frame_buffer-wire, flush_frame_buffer_set, flush_packets-Sent,
  send_packet-bodies, send_packet-Sent,
}
use rtp_stream_cleaner.Video.Steps.{take_slice-state, ready-IsOpen, ready-IsValid}
use rtp_stream_cleaner.Video.Invariant.{
  IsSound, IsValid, IsOpen, buffer_frame_packet-IsValid, buffered_full, buffered_stamped,
  flush_on_timeout-IsValid, next_frame_timestamp-Stamped,
}

-- The bytes behind the rewritten fields of every packet written or buffered, oldest first.
abbrev pub stream : VideoProxy → List (List ℕ)
stream p = bodies p.wire ++ map (drop 8) p.frame_buffer

-- The packets that wait for the next frame, in the order in which they join it.
abbrev pub waiting : VideoProxy → List (List ℕ)
waiting p = listed p.pending_sps ++ listed p.pending_pps

-- A flush moves packets from the buffer to the wire.
flush_frame_buffer-stream :
    (p : VideoProxy) (now : ℕ) (dest : UdpAddr) (forced : Bool)
    → IsSound p
    → is_empty p.frame_buffer ≡ false
    → p.current_frame_ts_set ≡ true
    → stream (flush_frame_buffer p now dest forced) ≡ stream p
flush_frame_buffer-stream p now dest forced s full set_before =
    let (h, b, cleared, closed) =
      flush_frame_buffer-wire p now dest forced s.buffered s.current_range full set_before in
    rw (b, cleared) (append-nil (stream p))

flush_on_timeout-stream :
    (p : VideoProxy) (now : ℕ) (dest : UdpAddr)
    → IsValid p
    → stream (flush_on_timeout p now dest) ≡ stream p
unfolding flush_on_timeout
flush_on_timeout-stream p now dest v =
    ground (arith, flush_frame_buffer-stream p now dest true v.sound)

buffer_frame_packet-stream :
    (p : VideoProxy) (packet : List ℕ)
    → stream (buffer_frame_packet p packet) ≡ stream p ++ (drop 8 packet ∷ [])
unfolding buffer_frame_packet
buffer_frame_packet-stream p packet =
    rw (map-append (drop 8) p.frame_buffer (packet ∷ [])) (sym (append_assoc (bodies p.wire) _ _))

-- What a flush leaves to the next frame.
record Kept (p q : VideoProxy) : Type 0 where
  kept_config : q.config ≡ p.config
  kept_sps : q.pending_sps ≡ p.pending_sps
  kept_pps : q.pending_pps ≡ p.pending_pps

flush_frame_buffer_empties :
    (p : VideoProxy) (now : ℕ) (dest : UdpAddr) (forced : Bool)
    → IsSound p
    → is_empty p.frame_buffer ≡ false
    → p.current_frame_ts_set ≡ true
    → (flush_frame_buffer p now dest forced).frame_buffer ≡ []
flush_frame_buffer_empties p now dest forced s full set_before =
    (flush_frame_buffer-wire p now dest forced s.buffered s.current_range full set_before).2

flush_frame_buffer-Kept :
    (p : VideoProxy) (now : ℕ) (dest : UdpAddr) (forced : Bool)
    → is_empty p.frame_buffer ≡ false
    → p.current_frame_ts_set ≡ true
    → Kept p (flush_frame_buffer p now dest forced)
flush_frame_buffer-Kept p now dest forced full set_before =
    let sent = flush_packets-Sent p p.frame_buffer p.current_frame_ts dest in
    rw (flush_frame_buffer_set p now dest forced full set_before) (ground arith)

flush_on_timeout-Kept :
    (p : VideoProxy) (now : ℕ) (dest : UdpAddr) → IsValid p → Kept p (flush_on_timeout p now dest)
unfolding flush_on_timeout
flush_on_timeout-Kept p now dest v = ground (arith, flush_frame_buffer-Kept p now dest true)

Kept-waiting : (p q : VideoProxy) → Kept p q → waiting q ≡ waiting p
Kept-waiting p q k = rw (k.kept_sps, k.kept_pps) refl

buffered_waiting :
    (p : VideoProxy) (packet : List ℕ) → waiting (buffer_frame_packet p packet) ≡ waiting p
unfolding buffer_frame_packet
buffered_waiting p packet = refl

-- A frame starts with the packets that waited for it.
append_pending-stream :
    (p : VideoProxy)
    → stream (append_pending_to_frame_buffer p) ≡ stream p ++ map (drop 8) (waiting p)
unfolding append_pending_to_frame_buffer
append_pending-stream p =
    rw
      (
        append_assoc p.frame_buffer (listed p.pending_sps) (listed p.pending_pps),
        map-append (drop 8) p.frame_buffer (waiting p),
      )
      (sym (append_assoc (bodies p.wire) _ _))

start_frame_buffer-stream :
    (p : VideoProxy) (now : ℕ) (packet : List ℕ)
    → is_empty p.frame_buffer ≡ true
    → (stream (start_frame_buffer p now packet) ≡ stream p)
      × Kept p (start_frame_buffer p now packet)
unfolding start_frame_buffer
start_frame_buffer-stream p now packet empty =
    let r = record p { frame_buffer = []; frame_buffer_start = now; frame_buffer_active = true } in
    let kept = next_frame_timestamp-Stamped r now packet in (ground arith, ground arith)

inject_off :
    (p : VideoProxy) (h : RtpHeader) (dest : UdpAddr)
    → p.config.inject_cached_sps_pps ≡ false
    → inject_cached_parameter_sets p h dest ≡ p
unfolding inject_cached_parameter_sets
inject_off p h dest off = ground arith

module _ (p : VideoProxy) (off : p.config.inject_cached_sps_pps ≡ false) where
  open_frame-stream :
      (i : H264Packet) (packet : List ℕ) (dest : UdpAddr) (now : ℕ)
      → IsValid p
      → let q = open_frame p i packet dest now in
        (stream q ≡ stream p ++ map (drop 8) (waiting p))
        × (q.pending_sps ≡ none)
        × (q.pending_pps ≡ none)
  unfolding open_frame append_pending_to_frame_buffer
  open_frame-stream i packet dest now v =
      let flushed : VideoProxy =
        if p.frame_buffer_active && not (is_empty p.frame_buffer)
        then flush_frame_buffer p now dest false
        else p in
      let same : stream flushed ≡ stream p =
        ground (arith, flush_frame_buffer-stream p now dest false v.sound) in
      let kept : Kept p flushed = ground (arith, flush_frame_buffer-Kept p now dest false) in
      let empty : is_empty flushed.frame_buffer ≡ true =
        ground (arith, flush_frame_buffer_empties p now dest false v.sound) in
      let started = start_frame_buffer flushed now packet in
      let (begun, unchanged) = start_frame_buffer-stream flushed now packet empty in
      let plain : (if i.info.is_idr
            then inject_cached_parameter_sets started i.header dest
            else started)
          ≡ started =
        ground (arith, inject_off started i.header dest) in
      rw plain (append_pending-stream started ∙ ground (arith, begun, same), refl, refl)

-- The packets that a slice takes along: those that waited, if it starts a frame.
abbrev pub taken_along : VideoProxy → H264Packet → List (List ℕ)
taken_along p i = if is_frame_start i.info then waiting p else []

-- The packets that still wait afterwards.
abbrev pub left_waiting : VideoProxy → H264Packet → List (List ℕ)
left_waiting p i = if is_frame_start i.info then [] else waiting p

take_slice-stream :
    (p : VideoProxy) (off : p.config.inject_cached_sps_pps ≡ false) (i : H264Packet)
    (packet : List ℕ) (dest : UdpAddr) (now : ℕ)
    → IsValid p
    → (stream (take_slice p i packet dest now) ≡ stream p ++ map (drop 8) (taken_along p i))
      × (waiting (take_slice p i packet dest now) ≡ left_waiting p i)
unfolding take_slice
take_slice-stream p off i packet dest now v =
    let q = flush_on_timeout p now dest in
    let same = flush_on_timeout-stream p now dest v in
    let kept = flush_on_timeout-Kept p now dest v in
    elim (Bool-cases (is_frame_start i.info)) [
      | inl start ↦
          let opened =
            open_frame-stream q (ground arith) i packet dest now
              (flush_on_timeout-IsValid p now dest v) in
          rw start (
            opened.0 ∙ ground arith,
            ap
                  (λ (o : Option (List ℕ)).
                    listed o ++ listed (open_frame q i packet dest now).pending_pps)
                  opened.1
                ∙ ap listed opened.2,
          )
      | inr middle ↦ rw middle (same ∙ sym (append-nil (stream p)), Kept-waiting p q kept)
    ]

add_to_frame-waiting :
    (p : VideoProxy) (i : H264Packet) (packet : List ℕ) (dest : UdpAddr) (now : ℕ)
    → IsOpen p
    → waiting (add_to_frame p i packet dest now) ≡ waiting p
unfolding add_to_frame
add_to_frame-waiting p i packet dest now o =
    let q = buffer_frame_packet p packet in
    let same : waiting q ≡ waiting p = buffered_waiting p packet in
    if_cases (λ (r : VideoProxy). waiting r ≡ waiting p) (is_frame_end i.info)
      (Kept-waiting q (flush_frame_buffer q now dest false) (
          flush_frame_buffer-Kept q now dest false (buffered_full p packet)
            (buffered_stamped p packet o.stamped))
        ∙ same)
      same

pass_through-waiting :
    (p : VideoProxy) (packet : List ℕ) (dest : UdpAddr) (later : ℕ) (header_ok : Bool)
    → p.frame_buffer_active ≡ false
    → waiting (pass_through p packet dest later header_ok) ≡ waiting p
unfolding pass_through flush_on_timeout
pass_through-waiting p packet dest later header_ok idle =
    let q = count_parse_error p header_ok in
    let sent = send_packet-Sent q packet dest in ground arith

add_to_frame-stream :
    (p : VideoProxy) (i : H264Packet) (packet : List ℕ) (dest : UdpAddr) (now : ℕ)
    → All IsByte packet
    → IsOpen p
    → stream (add_to_frame p i packet dest now) ≡ stream p ++ (drop 8 packet ∷ [])
unfolding add_to_frame
add_to_frame-stream p i packet dest now bytes o =
    let q = buffer_frame_packet p packet in
    let v = buffer_frame_packet-IsValid p packet bytes o in
    let appended = buffer_frame_packet-stream p packet in
    if_cases (λ r. stream r ≡ stream p ++ (drop 8 packet ∷ [])) (is_frame_end i.info)
      (flush_frame_buffer-stream q now dest false v.sound (buffered_full p packet)
          (buffered_stamped p packet o.stamped)
        ∙ appended)
      appended

-- With nothing buffered the stream is the wire.
idle_stream :
    (p : VideoProxy) → IsValid p → p.frame_buffer_active ≡ false → stream p ≡ bodies p.wire
idle_stream p v idle = ground (arith, append-nil (bodies p.wire))

-- A packet that is sent while nothing is buffered comes last.
pass_through-stream :
    (p : VideoProxy) (packet : List ℕ) (dest : UdpAddr) (later : ℕ) (header_ok : Bool)
    → IsValid p
    → p.frame_buffer_active ≡ false
    → stream (pass_through p packet dest later header_ok) ≡ stream p ++ (drop 8 packet ∷ [])
unfolding pass_through flush_on_timeout
pass_through-stream p packet dest later header_ok v idle =
    let q = count_parse_error p header_ok in
    let sent = send_packet-bodies q packet dest in
    let kept = send_packet-Sent q packet dest in
    let last = outgoing_body q packet in
    ground (arith, idle_stream p v idle, idle_stream (send_packet q packet dest))

-- For a slice the handler has two ends.
handled_slice :
    (p : VideoProxy) (i : H264Packet) (packet : List ℕ) (dest : UdpAddr) (now later : ℕ)
    → i.info.is_slice ≡ true
    → i.info.is_sps ≡ false
    → i.info.is_pps ≡ false
    → handle_parsed p (complete i) packet dest now later ≡ (
        let q = take_slice p i packet dest now in
        if q.frame_buffer_active
        then add_to_frame q i packet dest now
        else pass_through q packet dest later true)
unfolding handle_parsed
handled_slice p i packet dest now later slice no_sps no_pps = ground arith

module _ (p : VideoProxy) (off : p.config.inject_cached_sps_pps ≡ false) (i : H264Packet)
    (packet : List ℕ) (dest : UdpAddr) (now later : ℕ) (slice : i.info.is_slice ≡ true)
    (no_sps : i.info.is_sps ≡ false) (no_pps : i.info.is_pps ≡ false) (bytes : All IsByte packet)
    (v : IsValid p) where
  slice-stream :
      stream (handle_parsed p (complete i) packet dest now later)
      ≡ (stream p ++ map (drop 8) (taken_along p i)) ++ (drop 8 packet ∷ [])
  slice-stream =
      let q = take_slice p i packet dest now in
      let before = (take_slice-stream p off i packet dest now v).0 in
      let after = λ (x : VideoProxy). stream x ≡ stream q ++ (drop 8 packet ∷ []) in
      let last : after (
          if q.frame_buffer_active
          then add_to_frame q i packet dest now
          else pass_through q packet dest later true) =
        if_split after q.frame_buffer_active
          (λ active.
            add_to_frame-stream q i packet dest now bytes
              (ready-IsOpen q (take_slice-state p i packet dest now bytes v) active))
          (λ idle.
            pass_through-stream q packet dest later true
              (ready-IsValid q (take_slice-state p i packet dest now bytes v) idle) idle) in
      rw (handled_slice p i packet dest now later slice no_sps no_pps)
        (last ∙ ap (λ (x : List (List ℕ)). x ++ (drop 8 packet ∷ [])) before)

  slice-waiting : waiting (handle_parsed p (complete i) packet dest now later) ≡ left_waiting p i
  slice-waiting =
      let q = take_slice p i packet dest now in
      let after = λ (x : VideoProxy). waiting x ≡ waiting q in
      let last : after (
          if q.frame_buffer_active
          then add_to_frame q i packet dest now
          else pass_through q packet dest later true) =
        if_split after q.frame_buffer_active
          (λ active.
            add_to_frame-waiting q i packet dest now
              (ready-IsOpen q (take_slice-state p i packet dest now bytes v) active))
          (λ idle. pass_through-waiting q packet dest later true idle) in
      rw (handled_slice p i packet dest now later slice no_sps no_pps)
        (last ∙ (take_slice-stream p off i packet dest now v).1)

-- With injection off, a packet that holds a slice comes behind all that is written or buffered, and
-- if it starts a frame the waiting parameter sets come just before it, the SPS first, and no longer
-- wait; otherwise they go on waiting. Nothing is lost, repeated or moved, be it that a frame is
-- open, is closed by this packet or is overdue.
pub handle_video_packet-slice :
    (p : VideoProxy) (packet : List ℕ) (i : H264Packet) (dest : UdpAddr) (now later : ℕ)
    → p.config.inject_cached_sps_pps ≡ false
    → All IsByte packet
    → IsValid p
    → parse_h264_packet_detailed packet ≡ complete i
    → i.info.is_slice ≡ true
    → let q = handle_video_packet p packet dest now later in
      (stream q ≡ (stream p ++ map (drop 8) (taken_along p i)) ++ (drop 8 packet ∷ []))
      × (waiting q ≡ left_waiting p i)
unfolding handle_video_packet
handle_video_packet-slice p packet i dest now later off bytes v e slice =
    let parts = detailed_inv packet i e in
    let payload : All IsByte i.payload =
      rw parts.payload_is (All-drop IsByte i.header.header_len packet bytes) in
    let flags = parse_h264-IsConsistent i.payload i.info payload parts.info_is in
    rw e (
      slice-stream p off i packet dest now later slice (ground arith) (ground arith) bytes v,
      slice-waiting p off i packet dest now later slice (ground arith) (ground arith) bytes v,
    )
