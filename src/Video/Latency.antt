-- ===== src/Video/Latency.antt =====
-- No open frame outlives the timeout across a packet that is handled.
use rtp_stream_cleaner.Prelude.{
  ℕ, ◌-◌, ◌≤◌, ◌≡◌, refl, ◌∙◌, Bool, true, false, not, ◌&&◌, ◌||◌, List, [], ◌∷◌, ◌++◌, All, ltb,
  if◌then◌else◌, if_cases, if_split, arith,
}
use rtp_stream_cleaner.Bytes.{IsByte}
use rtp_stream_cleaner.Net.{UdpAddr}
use rtp_stream_cleaner.Rtp.H264.{is_frame_start, is_frame_end}
use rtp_stream_cleaner.Video.{VideoProxy}
use rtp_stream_cleaner.Video.Output.{send_packet}
use rtp_stream_cleaner.Video.Frame.{
  is_empty, start_frame_buffer, buffer_frame_packet, store_pending_parameter_set,
  cache_parameter_set, append_pending_to_frame_buffer, flush_frame_buffer, flush_on_timeout,
}
use rtp_stream_cleaner.Video.Handle.{
  H264Packet, Parsed, unparsed, header_only, complete, parse_h264_packet_detailed, pass_through,
  count_parse_error, open_frame, take_slice, add_to_frame, take_parameter_set, handle_parsed,
  handle_video_packet,
}
use rtp_stream_cleaner.Video.Flushed.{
  SameFrame, send_packet-Sent, inject_cached_parameter_sets-SameFrame, flush_frame_buffer_set,
}
use rtp_stream_cleaner.Video.Invariant.{
  IsValid, IsOpen, buffered_full, next_frame_timestamp-Stamped,
}
use rtp_stream_cleaner.Video.Steps.{take_slice-state, ready-IsOpen, ready-IsValid}

-- Is a frame open that is older than the timeout?
abbrev pub is_overdue : VideoProxy → ℕ → Bool
is_overdue p now = p.frame_buffer_active && ltb p.config.max_frame_wait (now - p.frame_buffer_start)

SameFrame-is_overdue :
    (p q : VideoProxy) (now : ℕ)
    → SameFrame p q
    → is_overdue p now ≡ false
    → is_overdue q now ≡ false
SameFrame-is_overdue p q now h e = ground arith

flush_frame_buffer_closes :
    (p : VideoProxy) (now : ℕ) (dest : UdpAddr) (forced : Bool)
    → is_empty p.frame_buffer ≡ false
    → p.current_frame_ts_set ≡ true
    → (flush_frame_buffer p now dest forced).frame_buffer_active ≡ false
flush_frame_buffer_closes p now dest forced full set_before =
    rw (flush_frame_buffer_set p now dest forced full set_before) refl

flush_on_timeout-is_overdue :
    (p : VideoProxy) (now : ℕ) (dest : UdpAddr)
    → IsValid p
    → is_overdue (flush_on_timeout p now dest) now ≡ false
unfolding flush_on_timeout
flush_on_timeout-is_overdue p now dest v = ground (arith, flush_frame_buffer_closes p now dest true)

start_frame_buffer-start :
    (p : VideoProxy) (now : ℕ) (packet : List ℕ)
    → (start_frame_buffer p now packet).frame_buffer_start ≡ now
unfolding start_frame_buffer
start_frame_buffer-start p now packet =
    let r = record p { frame_buffer = []; frame_buffer_start = now; frame_buffer_active = true } in
    (next_frame_timestamp-Stamped r now packet).same_start

open_frame-start :
    (p : VideoProxy) (i : H264Packet) (packet : List ℕ) (dest : UdpAddr) (now : ℕ)
    → (open_frame p i packet dest now).frame_buffer_start ≡ now
unfolding open_frame append_pending_to_frame_buffer
open_frame-start p i packet dest now =
    let flushed : VideoProxy =
      if p.frame_buffer_active && not (is_empty p.frame_buffer)
      then flush_frame_buffer p now dest false
      else p in
    let started = start_frame_buffer flushed now packet in
    let begun = start_frame_buffer-start flushed now packet in
    if_cases (λ (x : VideoProxy). x.frame_buffer_start ≡ now) i.info.is_idr
      ((inject_cached_parameter_sets-SameFrame started i.header dest).same_start ∙ begun) begun

take_slice-is_overdue :
    (p : VideoProxy) (i : H264Packet) (packet : List ℕ) (dest : UdpAddr) (now : ℕ)
    → IsValid p
    → is_overdue (take_slice p i packet dest now) now ≡ false
unfolding take_slice
take_slice-is_overdue p i packet dest now v =
    let q = flush_on_timeout p now dest in
    if_cases (λ (x : VideoProxy). is_overdue x now ≡ false) (is_frame_start i.info)
      (ground (arith, open_frame-start q i packet dest now))
      (flush_on_timeout-is_overdue p now dest v)

add_to_frame-is_overdue :
    (p : VideoProxy) (i : H264Packet) (packet : List ℕ) (dest : UdpAddr) (now : ℕ)
    → IsOpen p
    → is_overdue p now ≡ false
    → is_overdue (add_to_frame p i packet dest now) now ≡ false
unfolding add_to_frame buffer_frame_packet
add_to_frame-is_overdue p i packet dest now o e =
    let q = record p { frame_buffer = p.frame_buffer ++ (packet ∷ []) } in
    if_cases (λ (x : VideoProxy). is_overdue x now ≡ false) (is_frame_end i.info)
      (ground
        (arith, flush_frame_buffer_closes q now dest false (buffered_full p packet) o.stamped))
      e

take_parameter_set-is_overdue :
    (p : VideoProxy) (i : H264Packet) (packet : List ℕ) (dest : UdpAddr) (now : ℕ)
    → IsValid p
    → is_overdue (take_parameter_set p i packet dest now) now ≡ false
unfolding take_parameter_set cache_parameter_set buffer_frame_packet store_pending_parameter_set
take_parameter_set-is_overdue p i packet dest now v =
    let cached = cache_parameter_set p i.payload i.info.is_sps in
    let cv : IsValid cached = ground arith in
    let fresh = flush_on_timeout-is_overdue cached now dest cv in ground arith

-- A later time than the one asked for is good too.
pass_through-is_overdue :
    (p : VideoProxy) (packet : List ℕ) (dest : UdpAddr) (now later : ℕ) (header_ok : Bool)
    → now ≤ later
    → IsValid p
    → is_overdue (pass_through p packet dest later header_ok) now ≡ false
unfolding pass_through
pass_through-is_overdue p packet dest now later header_ok order v =
    let counted = count_parse_error p header_ok in
    let cv : IsValid counted = ground arith in
    let q = flush_on_timeout counted later dest in
    let fresh = flush_on_timeout-is_overdue counted later dest cv in
    SameFrame-is_overdue q (send_packet q packet dest) now (send_packet-Sent q packet dest).frame
      (ground arith)

no_slice-is_overdue :
    (q : VideoProxy) (i : H264Packet) (packet : List ℕ) (dest : UdpAddr) (now later : ℕ)
    → now ≤ later
    → IsValid q
    → is_overdue
        (if i.info.is_sps || i.info.is_pps
          then take_parameter_set q i packet dest now
          else pass_through q packet dest later true)
        now
      ≡ false
no_slice-is_overdue q i packet dest now later order v =
    if_cases (λ (x : VideoProxy). is_overdue x now ≡ false) (i.info.is_sps || i.info.is_pps)
      (take_parameter_set-is_overdue q i packet dest now v)
      (pass_through-is_overdue q packet dest now later true order v)

-- The handler's ends, with the test on the slice as a variable.
complete-is_overdue :
    (is_slice : Bool) (p : VideoProxy) (i : H264Packet) (packet : List ℕ) (dest : UdpAddr)
    (now later : ℕ)
    → now ≤ later
    → All IsByte packet
    → IsValid p
    → (let q = if is_slice then take_slice p i packet dest now else p in
        is_overdue
          (if is_slice && q.frame_buffer_active
            then add_to_frame q i packet dest now
            else if i.info.is_sps || i.info.is_pps
            then take_parameter_set q i packet dest now
            else pass_through q packet dest later true)
          now
        ≡ false)
complete-is_overdue true p i packet dest now later order bytes v =
    let q = take_slice p i packet dest now in
    let state = take_slice-state p i packet dest now bytes v in
    if_split (λ (x : VideoProxy). is_overdue x now ≡ false) q.frame_buffer_active
      (λ active.
        add_to_frame-is_overdue q i packet dest now (ready-IsOpen q state active)
          (take_slice-is_overdue p i packet dest now v))
      (λ idle. no_slice-is_overdue q i packet dest now later order (ready-IsValid q state idle))
complete-is_overdue false p i packet dest now later order bytes v =
    no_slice-is_overdue p i packet dest now later order v

handle_parsed-is_overdue :
    (p : VideoProxy) (parsed : Parsed) (packet : List ℕ) (dest : UdpAddr) (now later : ℕ)
    → now ≤ later
    → All IsByte packet
    → IsValid p
    → is_overdue (handle_parsed p parsed packet dest now later) now ≡ false
unfolding handle_parsed
handle_parsed-is_overdue p unparsed packet dest now later order bytes v =
    pass_through-is_overdue p packet dest now later false order v
handle_parsed-is_overdue p (header_only header payload) packet dest now later order bytes v =
    pass_through-is_overdue p packet dest now later true order v
handle_parsed-is_overdue p (complete i) packet dest now later order bytes v =
    complete-is_overdue i.info.is_slice p i packet dest now later order bytes v

-- Whatever packet is handled, once it is handled no frame is open that was started longer ago than
-- the configured wait: the packet either finds the frame in time or forces it out.
pub handle_video_packet-is_overdue :
    (p : VideoProxy) (packet : List ℕ) (dest : UdpAddr) (now later : ℕ)
    → now ≤ later
    → All IsByte packet
    → IsValid p
    → is_overdue (handle_video_packet p packet dest now later) now ≡ false
unfolding handle_video_packet
handle_video_packet-is_overdue p packet dest now later order bytes v =
    handle_parsed-is_overdue p (parse_h264_packet_detailed packet) packet dest now later order bytes
      v
