-- ===== src/Tests/Video.antt =====
-- The video pipeline on a session of three packets, and its theorems at concrete states.
use mathlib.Core.List.{map}
use rtp_stream_cleaner.Prelude.{ℕ, ◌≡◌, refl, true, false, some, List, [], ◌∷◌, arith, drop}
use rtp_stream_cleaner.Bytes.{be16, be32, put_be32}
use rtp_stream_cleaner.Net.{UdpAddr}
use rtp_stream_cleaner.Rtp.{parse_rtp_header}
use rtp_stream_cleaner.Rtp.H264.{classify, parse_h264, is_frame_start, is_frame_end}
use rtp_stream_cleaner.Rtp.Rewrite.{set_marker, set_timestamp}
use rtp_stream_cleaner.Video.{VideoProxy, new_video_proxy}
use rtp_stream_cleaner.Video.Output.{send_packet, inject_cached_parameter_sets}
use rtp_stream_cleaner.Video.Timestamp.{next_frame_timestamp}
use rtp_stream_cleaner.Video.Frame.{
  start_frame_buffer, buffer_frame_packet, store_pending_parameter_set, cache_parameter_set,
  append_pending_to_frame_buffer, flush_packets, flush_frame_buffer, flush_on_timeout,
}
use rtp_stream_cleaner.Video.Handle.{
  H264Packet, complete, parse_h264_packet_detailed, open_frame, take_slice, add_to_frame,
  take_parameter_set, handle_parsed, handle_video_packet,
}
use rtp_stream_cleaner.Video.Flushed.{flush_frame_buffer-wire}
use rtp_stream_cleaner.Video.Invariant.{IsValid}
use rtp_stream_cleaner.Video.Steps.{handle_video_packet-IsValid}
use rtp_stream_cleaner.Video.Latency.{is_overdue, handle_video_packet-is_overdue}
use rtp_stream_cleaner.Video.Order.{stream, waiting, handle_video_packet-slice}

abbrev rtpengine : UdpAddr
rtpengine = record { ip = 10 ∷ 0 ∷ 0 ∷ 5 ∷ []; port = 40102 }

-- An RTP packet of payload type 96, with the timestamp that the doorphone gave it.
abbrev rtp : ℕ → ℕ → List ℕ → List ℕ
rtp seq ts payload = 0x80 ∷ 0x60 ∷ 0 ∷ seq ∷ 0 ∷ 0 ∷ 0 ∷ ts ∷ 1 ∷ 2 ∷ 3 ∷ 4 ∷ payload

abbrev sps : List ℕ
sps = rtp 1 50 (0x67 ∷ 0x42 ∷ [])

abbrev idr_start : List ℕ
idr_start = rtp 2 50 (0x7c ∷ 0x85 ∷ 7 ∷ [])

abbrev idr_end : List ℕ
idr_end = rtp 3 50 (0x7c ∷ 0x45 ∷ 8 ∷ [])

-- A proxy with the default settings over a network that takes everything.
abbrev fixing : VideoProxy
fixing = new_video_proxy 10_000_000_000 120_000_000 true false (λ wire packet dest. true)

abbrev injecting : VideoProxy
injecting = new_video_proxy 10_000_000_000 120_000_000 true true (λ wire packet dest. true)

abbrev after_sps : VideoProxy
unfolding handle_video_packet
after_sps = handle_video_packet fixing sps rtpengine 0 0

after_start : VideoProxy
after_start = handle_video_packet after_sps idr_start rtpengine 5_000_000 5_000_000

after_end : VideoProxy
unfolding after_start
after_end = handle_video_packet after_start idr_end rtpengine 9_000_000 9_000_000

-- The SPS waits for the frame, and the three packets leave together, the marker on the last.
frame_leaves :
    map (λ w. w.packet) after_end.wire ≡ sps ∷ idr_start ∷ (0x80 ∷ 0xe0 ∷ drop 2 idr_end) ∷ []
unfolding after_end handle_video_packet handle_parsed parse_h264_packet_detailed parse_rtp_header
    parse_h264 be16 be32 take_slice open_frame add_to_frame take_parameter_set is_frame_start
    is_frame_end flush_on_timeout start_frame_buffer next_frame_timestamp
    append_pending_to_frame_buffer buffer_frame_packet inject_cached_parameter_sets
    store_pending_parameter_set cache_parameter_set flush_frame_buffer flush_packets send_packet
    set_marker set_timestamp put_be32
frame_leaves = refl

-- A parameter set inside an open frame that a new start cuts off goes out last, with the marker.
after_inner_sps : VideoProxy
after_inner_sps = handle_video_packet after_start sps rtpengine 6_000_000 6_000_000

after_next_start : VideoProxy
unfolding after_start after_inner_sps
after_next_start = handle_video_packet after_inner_sps idr_start rtpengine 7_000_000 7_000_000

inner_sps_marked :
    map (λ w. w.packet) after_next_start.wire ≡ sps ∷ idr_start ∷ (0x80 ∷ 0xe0 ∷ drop 2 sps) ∷ []
unfolding after_next_start handle_video_packet handle_parsed parse_h264_packet_detailed
    parse_rtp_header parse_h264 be16 be32 take_slice open_frame add_to_frame take_parameter_set
    is_frame_start is_frame_end flush_on_timeout start_frame_buffer next_frame_timestamp
    append_pending_to_frame_buffer buffer_frame_packet inject_cached_parameter_sets
    store_pending_parameter_set cache_parameter_set flush_frame_buffer flush_packets send_packet
    set_marker set_timestamp put_be32
inner_sps_marked = refl

fixing-IsValid : IsValid fixing
fixing-IsValid = record {
  sound = record {
    buffered = tt;
    waiting_sps = tt;
    waiting_pps = tt;
    frame_range = omega arith;
    current_range = omega arith;
  };
  active_full = refl;
  active_set = refl;
}

-- A proxy with two buffered packets of a frame at timestamp 9000.
abbrev open_proxy : VideoProxy
open_proxy = record fixing {
  frame_buffer = idr_start ∷ idr_end ∷ [];
  frame_buffer_active = true;
  current_frame_ts = 9000;
  current_frame_ts_set = true;
}

flush_frame_buffer-wire_example :
    map (λ w. drop 8 w.packet) (flush_frame_buffer open_proxy 0 rtpengine false).wire
    ≡ drop 8 idr_start ∷ drop 8 idr_end ∷ []
flush_frame_buffer-wire_example =
    (flush_frame_buffer-wire open_proxy 0 rtpengine false (omega arith) (omega arith) refl refl).1

handle_video_packet-IsValid_example : IsValid (handle_video_packet fixing sps rtpengine 0 0)
handle_video_packet-IsValid_example =
    handle_video_packet-IsValid fixing sps rtpengine 0 0 (omega arith) fixing-IsValid

open-IsValid : IsValid open_proxy
open-IsValid = record {
  sound = record {
    buffered = omega arith;
    waiting_sps = tt;
    waiting_pps = tt;
    frame_range = omega arith;
    current_range = omega arith;
  };
  active_full = refl;
  active_set = refl;
}

-- The frame is half a second old, with a wait of 120 ms.
handle_video_packet-is_overdue_example :
    is_overdue (handle_video_packet open_proxy sps rtpengine 500_000_000 500_000_001) 500_000_000
    ≡ false
handle_video_packet-is_overdue_example =
    handle_video_packet-is_overdue open_proxy sps rtpengine 500_000_000 500_000_001 (omega arith)
      (omega arith) open-IsValid

abbrev waiting_proxy : VideoProxy
waiting_proxy = record fixing { pending_sps = some sps }

waiting-IsValid : IsValid waiting_proxy
waiting-IsValid = record {
  sound = record {
    buffered = tt;
    waiting_sps = omega arith;
    waiting_pps = tt;
    frame_range = omega arith;
    current_range = omega arith;
  };
  active_full = refl;
  active_set = refl;
}

abbrev idr_start_parts : H264Packet
idr_start_parts = record {
  header = record { pt = 96; seq = 2; ts = 50; ssrc = 0x01020304; marker = false; header_len = 12 };
  payload = 0x7c ∷ 0x85 ∷ 7 ∷ [];
  info = classify true true false 5;
}

idr_start_parsed : parse_h264_packet_detailed idr_start ≡ complete idr_start_parts
unfolding parse_h264_packet_detailed parse_rtp_header parse_h264 be16 be32
idr_start_parsed = refl

handle_video_packet-slice_example :
    (stream (handle_video_packet waiting_proxy idr_start rtpengine 0 0)
      ≡ drop 8 sps ∷ drop 8 idr_start ∷ [])
    × (waiting (handle_video_packet waiting_proxy idr_start rtpengine 0 0) ≡ [])
unfolding is_frame_start
handle_video_packet-slice_example =
    handle_video_packet-slice waiting_proxy idr_start idr_start_parts rtpengine 0 0 refl
      (omega arith) waiting-IsValid idr_start_parsed refl
