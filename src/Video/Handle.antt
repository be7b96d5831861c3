-- ===== src/Video/Handle.antt =====
-- parseH264PacketDetailed and handleVideoPacket of internal/session/video_proxy.go.
use rtp_stream_cleaner.Prelude.{
  ℕ, Bool, true, false, not, ◌&&◌, ◌||◌, none, some, List, length, drop, leb, if◌then◌else◌,
}
use rtp_stream_cleaner.Prelude.Words.{add64}
use rtp_stream_cleaner.Net.{UdpAddr}
use rtp_stream_cleaner.Rtp.{RtpHeader, parse_rtp_header}
use rtp_stream_cleaner.Rtp.H264.{H264Info, parse_h264, is_frame_start, is_frame_end}
use rtp_stream_cleaner.Video.{VideoProxy}
use rtp_stream_cleaner.Video.Output.{send_packet, inject_cached_parameter_sets}
use rtp_stream_cleaner.Video.Frame.{
  is_empty, start_frame_buffer, buffer_frame_packet, store_pending_parameter_set,
  cache_parameter_set, append_pending_to_frame_buffer, flush_frame_buffer, flush_on_timeout,
}

pub record H264Packet : Type 0 where
  pub header : RtpHeader
  pub payload : List ℕ
  pub info : H264Info

-- The answers (ok, headerOK) of the code: `unparsed` is (false, false), `header_only` is
-- (false, true), `complete` is (true, true).
pub data Parsed : Type 0 where
  unparsed : Parsed
  header_only : RtpHeader → List ℕ → Parsed
  complete : H264Packet → Parsed

unfoldable pub parse_h264_packet_detailed : List ℕ → Parsed
parse_h264_packet_detailed packet = elim (parse_rtp_header packet) [
  | none ↦ unparsed
  | some header ↦
      if leb (length packet) header.header_len
      then unparsed
      else (let payload = drop header.header_len packet in
          elim (parse_h264 payload) [
            | none ↦ header_only header payload
            | some info ↦ complete (record { header = header; payload = payload; info = info })
          ])
]

abbrev pub count_parse_error : VideoProxy → Bool → VideoProxy
count_parse_error p header_ok =
    if header_ok
    then record p {
      counters = record c { video_nal_parse_errors = add64 c.video_nal_parse_errors 1 };
    }
    else p
  where
    open p use {counters as c}

-- The end of the handler: a packet that belongs to no frame and is no parameter set.
unfoldable pub pass_through : VideoProxy → List ℕ → UdpAddr → ℕ → Bool → VideoProxy
pass_through p packet dest now header_ok =
    send_packet (flush_on_timeout (count_parse_error p header_ok) now dest) packet dest

-- A packet that starts a frame: the open frame goes out, a new one is opened, cached parameter
-- sets go out before an IDR, and pending ones become the first packets of the frame.
unfoldable pub open_frame : VideoProxy → H264Packet → List ℕ → UdpAddr → ℕ → VideoProxy
open_frame p i packet dest now =
    let flushed =
      if p.frame_buffer_active && not (is_empty p.frame_buffer)
      then flush_frame_buffer p now dest false
      else p in
    let started = start_frame_buffer flushed now packet in
    let injected =
      if i.info.is_idr then inject_cached_parameter_sets started i.header dest else started in
    append_pending_to_frame_buffer injected

-- The first part of the handler for a slice.
unfoldable pub take_slice : VideoProxy → H264Packet → List ℕ → UdpAddr → ℕ → VideoProxy
take_slice p i packet dest now =
    let q = flush_on_timeout p now dest in
    if is_frame_start i.info then open_frame q i packet dest now else q

unfoldable pub add_to_frame : VideoProxy → H264Packet → List ℕ → UdpAddr → ℕ → VideoProxy
add_to_frame p i packet dest now =
    let q = buffer_frame_packet p packet in
    if is_frame_end i.info then flush_frame_buffer q now dest false else q

unfoldable pub take_parameter_set : VideoProxy → H264Packet → List ℕ → UdpAddr → ℕ → VideoProxy
take_parameter_set p i packet dest now =
    let q = flush_on_timeout (cache_parameter_set p i.payload i.info.is_sps) now dest in
    if q.frame_buffer_active
    then buffer_frame_packet q packet
    else store_pending_parameter_set q packet i.info.is_sps

unfoldable pub handle_parsed : VideoProxy → Parsed → List ℕ → UdpAddr → ℕ → ℕ → VideoProxy
handle_parsed p unparsed packet dest now later = pass_through p packet dest later false
handle_parsed p (header_only header payload) packet dest now later =
    pass_through p packet dest later true
handle_parsed p (complete i) packet dest now later =
    let q = if i.info.is_slice then take_slice p i packet dest now else p in
    if i.info.is_slice && q.frame_buffer_active
    then add_to_frame q i packet dest now
    else if i.info.is_sps || i.info.is_pps
    then take_parameter_set q i packet dest now
    else pass_through q packet dest later true

-- `now` and `later` are the two readings of the clock.
unfoldable pub handle_video_packet : VideoProxy → List ℕ → UdpAddr → ℕ → ℕ → VideoProxy
handle_video_packet p packet dest now later =
    handle_parsed p (parse_h264_packet_detailed packet) packet dest now later
