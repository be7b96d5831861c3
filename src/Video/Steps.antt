-- ===== src/Video/Steps.antt =====
-- Every packet, whatever it holds, leaves the frame pipeline valid.
use rtp_stream_cleaner.Prelude.{
  ℕ, ◌≡◌, ◌⊎◌, inl, inr, Bool, true, false, ◌&&◌, ◌||◌, List, All, if◌then◌else◌, if_cases,
  if_split, arith, Bool-cases,
}
use rtp_stream_cleaner.Bytes.{IsByte}
use rtp_stream_cleaner.Net.{UdpAddr}
use rtp_stream_cleaner.Rtp.H264.{is_frame_start}
use rtp_stream_cleaner.Video.{VideoProxy}
use rtp_stream_cleaner.Video.Frame.{
  store_pending_parameter_set, cache_parameter_set, flush_on_timeout, reset_frame_buffer,
}
use rtp_stream_cleaner.Video.Handle.{
  H264Packet, Parsed, unparsed, header_only, complete, parse_h264_packet_detailed, pass_through,
  count_parse_error, take_slice, add_to_frame, take_parameter_set, handle_parsed,
  handle_video_packet,
}
use rtp_stream_cleaner.Video.Flushed.{send_packet-Sent}
use rtp_stream_cleaner.Video.Invariant.{
  IsValid, IsOpen, SameFrame-IsValid, flush_on_timeout-IsValid, open_frame-IsOpen,
  buffer_frame_packet-IsValid, add_to_frame-IsValid,
}

IsValid-IsOpen : (p : VideoProxy) → IsValid p → p.frame_buffer_active ≡ true → IsOpen p
IsValid-IsOpen p v active = ground arith

pub take_slice-state :
    (p : VideoProxy) (i : H264Packet) (packet : List ℕ) (dest : UdpAddr) (now : ℕ)
    → All IsByte packet
    → IsValid p
    → IsOpen (take_slice p i packet dest now) ⊎ IsValid (take_slice p i packet dest now)
unfolding take_slice
take_slice-state p i packet dest now bytes v =
    let q = flush_on_timeout p now dest in
    let qv : IsValid q = flush_on_timeout-IsValid p now dest v in
    elim (Bool-cases (is_frame_start i.info)) [
      | inl start ↦ rw start (inl (open_frame-IsOpen q i packet dest now bytes qv))
      | inr middle ↦ rw middle (inr qv)
    ]

-- Whether a frame is open then tells the two apart.
pub ready-IsOpen : (q : VideoProxy) → IsOpen q ⊎ IsValid q → q.frame_buffer_active ≡ true → IsOpen q
ready-IsOpen q (inl o) active = o
ready-IsOpen q (inr v) active = IsValid-IsOpen q v active

pub ready-IsValid :
    (q : VideoProxy) → IsOpen q ⊎ IsValid q → q.frame_buffer_active ≡ false → IsValid q
ready-IsValid q (inl o) idle = absurd (ground (arith, o.active))
ready-IsValid q (inr v) idle = v

pub pass_through-IsValid :
    (p : VideoProxy) (packet : List ℕ) (dest : UdpAddr) (now : ℕ) (header_ok : Bool)
    → IsValid p
    → IsValid (pass_through p packet dest now header_ok)
unfolding pass_through
pass_through-IsValid p packet dest now header_ok v =
    let counted = count_parse_error p header_ok in
    let cv : IsValid counted = ground arith in
    let q = flush_on_timeout counted now dest in
    SameFrame-IsValid q _ (send_packet-Sent q packet dest).frame
      (flush_on_timeout-IsValid counted now dest cv)

cache_parameter_set-IsValid :
    (p : VideoProxy) (payload : List ℕ) (is_sps : Bool)
    → IsValid p
    → IsValid (cache_parameter_set p payload is_sps)
unfolding cache_parameter_set
cache_parameter_set-IsValid p payload is_sps v = ground arith

store_pending-IsValid :
    (p : VideoProxy) (packet : List ℕ) (is_sps : Bool)
    → All IsByte packet
    → IsValid p
    → IsValid (store_pending_parameter_set p packet is_sps)
unfolding store_pending_parameter_set
store_pending-IsValid p packet is_sps bytes v = ground arith

take_parameter_set-IsValid :
    (p : VideoProxy) (i : H264Packet) (packet : List ℕ) (dest : UdpAddr) (now : ℕ)
    → All IsByte packet
    → IsValid p
    → IsValid (take_parameter_set p i packet dest now)
unfolding take_parameter_set
take_parameter_set-IsValid p i packet dest now bytes v =
    let cached = cache_parameter_set p i.payload i.info.is_sps in
    let q = flush_on_timeout cached now dest in
    let qv : IsValid q =
      flush_on_timeout-IsValid cached now dest (cache_parameter_set-IsValid p i.payload _ v) in
    if_split IsValid q.frame_buffer_active
      (λ active. buffer_frame_packet-IsValid q packet bytes (IsValid-IsOpen q qv active))
      (λ idle. store_pending-IsValid q packet i.info.is_sps bytes qv)

-- The part of the handler behind the slices.
abbrev after_slice : VideoProxy → H264Packet → List ℕ → UdpAddr → ℕ → ℕ → VideoProxy
after_slice q i packet dest now later =
    if i.info.is_sps || i.info.is_pps
    then take_parameter_set q i packet dest now
    else pass_through q packet dest later true

after_slice-IsValid :
    (q : VideoProxy) (i : H264Packet) (packet : List ℕ) (dest : UdpAddr) (now later : ℕ)
    → All IsByte packet
    → IsValid q
    → IsValid (after_slice q i packet dest now later)
after_slice-IsValid q i packet dest now later bytes v =
    if_cases IsValid (i.info.is_sps || i.info.is_pps)
      (take_parameter_set-IsValid q i packet dest now bytes v)
      (pass_through-IsValid q packet dest later true v)

-- The two parts together, with the test on the slice as a variable.
complete-IsValid :
    (is_slice : Bool) (p : VideoProxy) (i : H264Packet) (packet : List ℕ) (dest : UdpAddr)
    (now later : ℕ)
    → All IsByte packet
    → IsValid p
    → (let q = if is_slice then take_slice p i packet dest now else p in
        IsValid (
          if is_slice && q.frame_buffer_active
          then add_to_frame q i packet dest now
          else after_slice q i packet dest now later))
complete-IsValid true p i packet dest now later bytes v =
    let q = take_slice p i packet dest now in
    let state = take_slice-state p i packet dest now bytes v in
    if_split IsValid q.frame_buffer_active
      (λ active. add_to_frame-IsValid q i packet dest now bytes (ready-IsOpen q state active))
      (λ idle. after_slice-IsValid q i packet dest now later bytes (ready-IsValid q state idle))
complete-IsValid false p i packet dest now later bytes v =
    after_slice-IsValid p i packet dest now later bytes v

handle_parsed-IsValid :
    (p : VideoProxy) (parsed : Parsed) (packet : List ℕ) (dest : UdpAddr) (now later : ℕ)
    → All IsByte packet
    → IsValid p
    → IsValid (handle_parsed p parsed packet dest now later)
unfolding handle_parsed
handle_parsed-IsValid p unparsed packet dest now later bytes v =
    pass_through-IsValid p packet dest later false v
handle_parsed-IsValid p (header_only header payload) packet dest now later bytes v =
    pass_through-IsValid p packet dest later true v
handle_parsed-IsValid p (complete i) packet dest now later bytes v =
    complete-IsValid i.info.is_slice p i packet dest now later bytes v

-- Every packet of bytes keeps the pipeline valid: a frame is open just when packets are buffered
-- and its timestamp is set, stored packets are bytes, and timestamps have 32 bits.
pub handle_video_packet-IsValid :
    (p : VideoProxy) (packet : List ℕ) (dest : UdpAddr) (now later : ℕ)
    → All IsByte packet
    → IsValid p
    → IsValid (handle_video_packet p packet dest now later)
unfolding handle_video_packet
handle_video_packet-IsValid p packet dest now later bytes v =
    handle_parsed-IsValid p (parse_h264_packet_detailed packet) packet dest now later bytes v

-- So does dropping the buffer when no destination is set.
pub reset_frame_buffer-IsValid : (p : VideoProxy) → IsValid p → IsValid (reset_frame_buffer p)
unfolding reset_frame_buffer
reset_frame_buffer-IsValid p v = ground arith
