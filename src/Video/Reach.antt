-- ===== src/Video/Reach.antt =====
-- The frame pipeline stays valid under the two read loops.
use rtp_stream_cleaner.Prelude.{
  ℕ, refl, Bool, not, Option, none, some, List, [], ◌∷◌, All, length, if◌then◌else◌, if_cases,
  Option-cases, arith, inl, inr,
}
use rtp_stream_cleaner.Bytes.{IsByte}
use rtp_stream_cleaner.Net.{UdpAddr, Link}
use rtp_stream_cleaner.Rtp.{parse_rtp_header}
use rtp_stream_cleaner.Peer.{update_doorphone_peer}
use rtp_stream_cleaner.Session.{Activity, mark_activity}
use rtp_stream_cleaner.Audio.{foreign}
use rtp_stream_cleaner.Video.{VideoProxy, VideoCounters, new_video_proxy}
use rtp_stream_cleaner.Video.Output.{forward_raw_packet}
use rtp_stream_cleaner.Video.Frame.{reset_frame_buffer}
use rtp_stream_cleaner.Video.Invariant.{IsValid}
use rtp_stream_cleaner.Video.Steps.{handle_video_packet-IsValid, reset_frame_buffer-IsValid}
use rtp_stream_cleaner.Video.Loops.{
  VideoLegs, Reading, VideoEvent, read_a, read_b, counting, track_seq_gap, analyze_frame_boundaries,
  count_a_in, count_b_in, send_to_dest, send_to_peer, loop_a_in, loop_b_in, run, new_video_legs,
}

counting-IsValid : (p : VideoProxy) (c : VideoCounters) → IsValid p → IsValid (counting p c)
counting-IsValid p c v = ground arith

track_seq_gap-IsValid :
    (p : VideoProxy) (last : Option ℕ) (packet : List ℕ)
    → IsValid p
    → IsValid (track_seq_gap p last packet).0
unfolding track_seq_gap
track_seq_gap-IsValid p last packet v = elim (Option-cases (parse_rtp_header packet)) [
  | inl bad ↦ rw (track_seq_gap, bad) v
  | inr (h, good) ↦ rw (track_seq_gap, good) (counting-IsValid p _ v)
]

forward_raw_packet-IsValid :
    (p : VideoProxy) (packet : List ℕ) (dest : UdpAddr)
    → IsValid p
    → IsValid (forward_raw_packet p packet dest)
unfolding forward_raw_packet
forward_raw_packet-IsValid p packet dest v = ground arith

send_to_dest-IsValid :
    (p : VideoProxy) (r : Reading) (dest : Option UdpAddr)
    → All IsByte r.datagram.bytes
    → IsValid p
    → IsValid (send_to_dest p r dest)
unfolding send_to_dest
send_to_dest-IsValid p r none bytes v =
    let q : VideoProxy = if p.config.fix_enabled then reset_frame_buffer p else p in
    let valid : IsValid q =
      if_cases IsValid p.config.fix_enabled (reset_frame_buffer-IsValid p v) v in
    counting-IsValid q _ valid
send_to_dest-IsValid p r (some dest) bytes v =
    if_cases IsValid p.config.fix_enabled
      (handle_video_packet-IsValid p r.datagram.bytes dest r.handled_at r.later_at bytes v)
      (forward_raw_packet-IsValid p r.datagram.bytes dest v)

loop_a_in-IsValid :
    (l : VideoLegs) (r : Reading)
    → All IsByte r.datagram.bytes
    → IsValid l.proxy
    → IsValid (loop_a_in l r).proxy
unfolding loop_a_in analyze_frame_boundaries
loop_a_in-IsValid l r bytes v =
    let d = r.datagram in
    let p = count_a_in l.proxy (length d.bytes) in
    let counted : IsValid p = counting-IsValid l.proxy _ v in
    let seen = (track_seq_gap p l.last_seq_a d.bytes).0 in
    let tracked : IsValid seen = track_seq_gap-IsValid p l.last_seq_a d.bytes counted in
    let q = if p.config.fix_enabled then analyze_frame_boundaries seen d.bytes else seen in
    let analyzed : IsValid q =
      if_cases IsValid p.config.fix_enabled (counting-IsValid seen _ tracked) tracked in
    let (peer, accepted) =
      update_doorphone_peer p.config.peer_learning_window l.peer (some d.source) d.learned_at in
    if_cases (λ (x : VideoLegs). IsValid x.proxy) (not d.is_enabled) (counting-IsValid p _ counted)
      (if_cases IsValid (not accepted) (counting-IsValid q _ analyzed)
        (send_to_dest-IsValid q r d.dest bytes analyzed))

send_to_peer-IsValid :
    (l : VideoLegs) (packet : List ℕ) (peer : Option UdpAddr)
    → IsValid l.proxy
    → IsValid (send_to_peer l packet peer).proxy
send_to_peer-IsValid l packet none v = counting-IsValid l.proxy _ v
send_to_peer-IsValid l packet (some peer) v =
    if_cases IsValid (not (l.link_a l.to_a packet peer)) (counting-IsValid l.proxy _ v)
      (counting-IsValid l.proxy _ v)

loop_b_in-IsValid : (l : VideoLegs) (r : Reading) → IsValid l.proxy → IsValid (loop_b_in l r).proxy
unfolding loop_b_in
loop_b_in-IsValid l r v =
    let d = r.datagram in
    let p = count_b_in l.proxy (length d.bytes) in
    let seen = track_seq_gap p l.last_seq_b d.bytes in
    let tracked = track_seq_gap-IsValid p l.last_seq_b d.bytes (counting-IsValid l.proxy _ v) in
    let marked = record l { activity = mark_activity l.activity d.now } in
    if_cases (λ (x : VideoLegs). IsValid x.proxy) (not d.is_enabled) (counting-IsValid l.proxy _ v)
      (if_cases (λ (x : VideoLegs). IsValid x.proxy) (foreign d.dest d.source)
        (counting-IsValid l.proxy _ v)
        (send_to_peer-IsValid (record marked { proxy = seen.0; last_seq_b = seen.1 }) d.bytes
          l.peer.doorphone_peer tracked))

abbrev pub HasBytes : VideoEvent → Type 0
HasBytes (read_a r) = All IsByte r.datagram.bytes
HasBytes (read_b r) = All IsByte r.datagram.bytes

run-IsValid :
    (l : VideoLegs) (events : List VideoEvent)
    → All HasBytes events
    → IsValid l.proxy
    → IsValid (run l events).proxy
unfolding run
run-IsValid l [] bytes v = v
run-IsValid l (read_a r ∷ events) bytes v =
    run-IsValid (loop_a_in l r) events bytes.1 (loop_a_in-IsValid l r bytes.0 v)
run-IsValid l (read_b r ∷ events) bytes v =
    run-IsValid (loop_b_in l r) events bytes.1 (loop_b_in-IsValid l r v)

-- From the state that the constructor makes, and in any order of the two loops' iterations, with
-- the destination set, changed or missing and the medium enabled or not: packets are buffered just
-- while a frame is open and just while its timestamp is set, and all that is stored is bytes and
-- 32-bit timestamps.
pub run-new_video_proxy :
    (window max_frame_wait : ℕ) (fix inject : Bool) (link_a link_b : Link) (activity : Activity)
    (events : List VideoEvent)
    → All HasBytes events
    → let p = new_video_proxy window max_frame_wait fix inject link_b in
      IsValid (run (new_video_legs p link_a activity) events).proxy
run-new_video_proxy window max_frame_wait fix inject link_a link_b activity events bytes =
    let p = new_video_proxy window max_frame_wait fix inject link_b in
    run-IsValid (new_video_legs p link_a activity) events bytes (record {
      sound = record {
        buffered = tt;
        waiting_sps = tt;
        waiting_pps = tt;
        frame_range = omega arith;
        current_range = omega arith;
      };
      active_full = refl;
      active_set = refl;
    })
