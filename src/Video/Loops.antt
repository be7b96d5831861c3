-- ===== src/Video/Loops.antt =====
-- The bodies of the two read loops of internal/session/video_proxy.go, with trackSeqGap and
-- analyzeFrameBoundaries. As in the audio proxy an iteration is one step; the frame state belongs to
-- the loop of leg A alone. What trackSeqGap returns is used for the log only.
use rtp_stream_cleaner.Prelude.{
  ℕ, Bool, false, not, ◌&&◌, Option, none, some, List, [], ◌∷◌, ◌++◌, length, ◌==◌, if◌then◌else◌,
}
use rtp_stream_cleaner.Prelude.Words.{add16, add64}
use rtp_stream_cleaner.Net.{UdpAddr, Write, Link}
use rtp_stream_cleaner.Rtp.{parse_rtp_header}
use rtp_stream_cleaner.Rtp.H264.{H264Info, is_frame_start, is_frame_end}
use rtp_stream_cleaner.Peer.{Peer, no_peer, update_doorphone_peer}
use rtp_stream_cleaner.Session.{Activity, mark_activity}
use rtp_stream_cleaner.Audio.{Datagram, foreign}
use rtp_stream_cleaner.Video.{VideoProxy, VideoCounters}
use rtp_stream_cleaner.Video.Output.{count_drop, forward_raw_packet}
use rtp_stream_cleaner.Video.Frame.{reset_frame_buffer}
use rtp_stream_cleaner.Video.Handle.{
  Parsed, complete, parse_h264_packet_detailed, handle_video_packet,
}

-- The whole of videoProxy: `proxy` is the pipeline towards B, whose counters are the session's. The
-- last two are the loops' variables lastSeq and hasLastSeq.
pub record VideoLegs : Type 0 where
  pub proxy : VideoProxy
  pub link_a : Link
  pub activity : Activity
  pub peer : Peer
  pub to_a : List Write
  pub last_seq_a : Option ℕ
  pub last_seq_b : Option ℕ

-- A datagram as in the audio loops, and the two readings of the clock of handleVideoPacket.
pub record Reading : Type 0 where
  pub datagram : Datagram
  pub handled_at : ℕ
  pub later_at : ℕ

pub data VideoEvent : Type 0 where
  read_a : Reading → VideoEvent
  read_b : Reading → VideoEvent

abbrev pub counting : VideoProxy → VideoCounters → VideoProxy
counting p c = record p { counters = c }

-- Whether the number is not the successor of the last one.
abbrev pub is_gap : Option ℕ → ℕ → Bool
is_gap none seq = false
is_gap (some last) seq = not (seq == add16 last 1)

unfoldable pub track_seq_gap : VideoProxy → Option ℕ → List ℕ → VideoProxy × Option ℕ
track_seq_gap p last packet = elim (parse_rtp_header packet) [
  | none ↦ (p, last)
  | some h ↦
      let c = p.counters in
      let gaps : ℕ = if is_gap last h.seq then add64 c.video_seq_gaps 1 else c.video_seq_gaps in
      (counting p (record c { video_seq_gaps = gaps }), some h.seq)
]

abbrev pub count_boundaries : VideoCounters → H264Info → VideoCounters
count_boundaries c info = record c {
  video_frames_started =
      if is_frame_start info then add64 c.video_frames_started 1 else c.video_frames_started;
  video_keyframes =
      if is_frame_start info && info.is_idr then add64 c.video_keyframes 1 else c.video_keyframes;
  video_frames_ended =
      if is_frame_end info then add64 c.video_frames_ended 1 else c.video_frames_ended;
}

-- The tests of analyzeFrameBoundaries are those of parseH264PacketDetailed, in the same order.
abbrev pub count_parsed : VideoCounters → Parsed → VideoCounters
count_parsed c Parsed.unparsed = c
count_parsed c (Parsed.header_only header payload) = c
count_parsed c (complete i) = count_boundaries c i.info

unfoldable pub analyze_frame_boundaries : VideoProxy → List ℕ → VideoProxy
analyze_frame_boundaries p packet =
    counting p (count_parsed p.counters (parse_h264_packet_detailed packet))

abbrev pub count_a_in : VideoProxy → ℕ → VideoProxy
count_a_in p size =
    let c = p.counters in
    counting p (record c { a_in_pkts = add64 c.a_in_pkts 1; a_in_bytes = add64 c.a_in_bytes size })

abbrev pub count_b_in : VideoProxy → ℕ → VideoProxy
count_b_in p size =
    let c = p.counters in
    counting p (record c { b_in_pkts = add64 c.b_in_pkts 1; b_in_bytes = add64 c.b_in_bytes size })

abbrev pub count_a_out : VideoProxy → ℕ → VideoProxy
count_a_out p size =
    let c = p.counters in
    counting p
      (record c { a_out_pkts = add64 c.a_out_pkts 1; a_out_bytes = add64 c.a_out_bytes size })

abbrev pub count_ignored : VideoProxy → VideoProxy
count_ignored p =
    let c = p.counters in counting p (record c { ignored_disabled = add64 c.ignored_disabled 1 })

-- Behind the peer's test. Without a destination the open frame is thrown away.
unfoldable pub send_to_dest : VideoProxy → Reading → Option UdpAddr → VideoProxy
send_to_dest p r none = count_drop (if p.config.fix_enabled then reset_frame_buffer p else p)
send_to_dest p r (some dest) =
    if p.config.fix_enabled
    then handle_video_packet p r.datagram.bytes dest r.handled_at r.later_at
    else forward_raw_packet p r.datagram.bytes dest

-- An iteration of loopAIn on a datagram.
unfoldable pub loop_a_in : VideoLegs → Reading → VideoLegs
loop_a_in l r =
    let d = r.datagram in
    let marked = record l { activity = mark_activity l.activity d.now } in
    let p = count_a_in l.proxy (length d.bytes) in
    let seen = track_seq_gap p l.last_seq_a d.bytes in
    let q = if p.config.fix_enabled then analyze_frame_boundaries seen.0 d.bytes else seen.0 in
    let (peer, accepted) =
      update_doorphone_peer p.config.peer_learning_window l.peer (some d.source) d.learned_at in
    if not d.is_enabled then record marked { proxy = count_ignored p } else record marked {
      last_seq_a = seen.1;
      peer = peer;
      proxy = if not accepted then count_drop q else send_to_dest q r d.dest;
    }

abbrev pub write_to_a : VideoLegs → List ℕ → UdpAddr → VideoLegs
write_to_a l packet peer =
    let delivered = l.link_a l.to_a packet peer in
    record l {
      to_a = l.to_a ++ (record { packet = packet; dest = peer; delivered = delivered } ∷ []);
      proxy = if not delivered then count_drop l.proxy else count_a_out l.proxy (length packet);
    }

abbrev pub send_to_peer : VideoLegs → List ℕ → Option UdpAddr → VideoLegs
send_to_peer l packet none = record l { proxy = count_drop l.proxy }
send_to_peer l packet (some peer) = write_to_a l packet peer

-- An iteration of loopBIn on a datagram.
unfoldable pub loop_b_in : VideoLegs → Reading → VideoLegs
loop_b_in l r =
    let d = r.datagram in
    let marked = record l { activity = mark_activity l.activity d.now } in
    if not d.is_enabled
    then record marked { proxy = count_ignored l.proxy }
    else if foreign d.dest d.source
    then record marked { proxy = count_drop l.proxy }
    else (let seen = track_seq_gap (count_b_in l.proxy (length d.bytes)) l.last_seq_b d.bytes in
        send_to_peer (record marked { proxy = seen.0; last_seq_b = seen.1 }) d.bytes
          l.peer.doorphone_peer)

abbrev pub step : VideoLegs → VideoEvent → VideoLegs
step l (read_a r) = loop_a_in l r
step l (read_b r) = loop_b_in l r

-- The two loops, iteration after iteration.
unfoldable pub run : VideoLegs → List VideoEvent → VideoLegs
run l [] = l
run l (e ∷ events) = run (step l e) events

-- The proxy as it is made for a session.
abbrev pub new_video_legs : VideoProxy → Link → Activity → VideoLegs
new_video_legs proxy link_a activity = record {
  proxy = proxy;
  link_a = link_a;
  activity = activity;
  peer = no_peer;
  to_a = [];
  last_seq_a = none;
  last_seq_b = none;
}
