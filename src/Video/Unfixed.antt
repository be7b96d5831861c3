-- ===== src/Video/Unfixed.antt =====
-- The video proxy with the fix switched off is the audio proxy.
use mathlib.Core.List.{map}
use rtp_stream_cleaner.Prelude.{
  ℕ, ◌≡◌, refl, ap, ◌∙◌, false, Option, none, some, List, [], ◌∷◌, length, Option-cases, inl, inr,
  arith,
}
use rtp_stream_cleaner.Net.{UdpAddr}
use rtp_stream_cleaner.Rtp.{parse_rtp_header}
use rtp_stream_cleaner.Peer.{update_doorphone_peer}
use rtp_stream_cleaner.Session.{mark_activity}
use rtp_stream_cleaner.Audio
use rtp_stream_cleaner.Audio.{AudioProxy, Datagram, Event, from_a, from_b, foreign}
use rtp_stream_cleaner.Video.{VideoProxy}
use rtp_stream_cleaner.Video.Output.{forward_raw_packet}
use rtp_stream_cleaner.Video.Loops.{
  VideoLegs, Reading, VideoEvent, read_a, read_b, track_seq_gap, send_to_dest, loop_a_in, loop_b_in,
  step, run, count_a_in, count_b_in,
}

-- What the video proxy has in common with the audio proxy.
abbrev pub mirror : VideoLegs → AudioProxy
mirror l = record {
  peer_learning_window = l.proxy.config.peer_learning_window;
  link_a = l.link_a;
  link_b = l.proxy.config.write_to_dest;
  counters = record {
    a_in_pkts = l.proxy.counters.a_in_pkts;
    a_in_bytes = l.proxy.counters.a_in_bytes;
    b_out_pkts = l.proxy.counters.b_out_pkts;
    b_out_bytes = l.proxy.counters.b_out_bytes;
    b_in_pkts = l.proxy.counters.b_in_pkts;
    b_in_bytes = l.proxy.counters.b_in_bytes;
    a_out_pkts = l.proxy.counters.a_out_pkts;
    a_out_bytes = l.proxy.counters.a_out_bytes;
    drops = l.proxy.counters.drops;
    ignored_disabled = l.proxy.counters.ignored_disabled;
  };
  activity = l.activity;
  peer = l.peer;
  to_a = l.to_a;
  to_b = l.proxy.wire;
}

abbrev pub as_audio : VideoEvent → Event
as_audio (read_a r) = from_a r.datagram
as_audio (read_b r) = from_b r.datagram

track_seq_gap-mirror :
    (l : VideoLegs) (p : VideoProxy) (last : Option ℕ) (packet : List ℕ)
    → (mirror (record l { proxy = (track_seq_gap p last packet).0 })
        ≡ mirror (record l { proxy = p }))
      × ((track_seq_gap p last packet).0.config ≡ p.config)
      × ((track_seq_gap p last packet).0.wire ≡ p.wire)
unfolding track_seq_gap
track_seq_gap-mirror l p last packet = elim (Option-cases (parse_rtp_header packet)) [
  | inl bad ↦ rw (track_seq_gap, bad) (refl, refl, refl)
  | inr (h, good) ↦ rw (track_seq_gap, good) (refl, refl, refl)
]

send_to_dest-mirror :
    (l : VideoLegs) (r : Reading) (dest : Option UdpAddr)
    → l.proxy.config.fix_enabled ≡ false
    → (mirror (record l { proxy = send_to_dest l.proxy r dest })
        ≡ Audio.send_to_dest (mirror l) r.datagram.bytes dest)
      × ((send_to_dest l.proxy r dest).config ≡ l.proxy.config)
unfolding send_to_dest forward_raw_packet
send_to_dest-mirror l r none off = (ground arith, ground arith)
send_to_dest-mirror l r (some dest) off = (ground arith, ground arith)

module _ (l : VideoLegs) (off : l.proxy.config.fix_enabled ≡ false) where
  loop_a_in-mirror :
      (r : Reading)
      → (mirror (loop_a_in l r) ≡ Audio.loop_a_in (mirror l) r.datagram)
        × ((loop_a_in l r).proxy.config ≡ l.proxy.config)
  unfolding loop_a_in Audio.loop_a_in
  loop_a_in-mirror r =
      let d = r.datagram in
      let marked = record l { activity = mark_activity l.activity d.now } in
      let p = count_a_in l.proxy (length d.bytes) in
      let seen = track_seq_gap p l.last_seq_a d.bytes in
      let (answer, accepted) =
        update_doorphone_peer p.config.peer_learning_window l.peer (some d.source) d.learned_at in
      let asked = record marked { last_seq_a = seen.1; peer = answer; proxy = seen.0 } in
      let (same, config, wire) = track_seq_gap-mirror asked p l.last_seq_a d.bytes in
      let (sent, kept) = send_to_dest-mirror asked r d.dest (ground arith) in
      (ground arith, ground arith)

  loop_b_in-mirror :
      (r : Reading)
      → (mirror (loop_b_in l r) ≡ Audio.loop_b_in (mirror l) r.datagram)
        × ((loop_b_in l r).proxy.config ≡ l.proxy.config)
  unfolding loop_b_in Audio.loop_b_in
  loop_b_in-mirror r =
      let d = r.datagram in
      let marked = record l { activity = mark_activity l.activity d.now } in
      let p = count_b_in l.proxy (length d.bytes) in
      let seen = track_seq_gap p l.last_seq_b d.bytes in
      let noted = record marked { proxy = seen.0; last_seq_b = seen.1 } in
      let (same, config, wire) = track_seq_gap-mirror noted p l.last_seq_b d.bytes in
      elim (Option-cases l.peer.doorphone_peer) [
        | inl unknown ↦ (ground arith, ground arith)
        | inr (peer, known) ↦ (ground arith, ground arith)
      ]

  step-mirror :
      (e : VideoEvent)
      → (mirror (step l e) ≡ Audio.step (mirror l) (as_audio e))
        × ((step l e).proxy.config ≡ l.proxy.config)
  step-mirror (read_a r) = loop_a_in-mirror r
  step-mirror (read_b r) = loop_b_in-mirror r

-- With the fix switched off, and in any order of the two loops' iterations, the video proxy does
-- what the audio proxy does with the same datagrams: the same writes on both legs with the same
-- outcomes, the same peer and activity, and the same values of the counters that both have.
pub run-mirror :
    (l : VideoLegs) (events : List VideoEvent)
    → l.proxy.config.fix_enabled ≡ false
    → mirror (run l events) ≡ Audio.run (mirror l) (map as_audio events)
unfolding run Audio.run
run-mirror l [] off = refl
run-mirror l (e ∷ events) off =
    let (same, kept) = step-mirror l off e in
    run-mirror (step l e) events (ground arith)
    ∙ ap (λ (p : AudioProxy). Audio.run p (map as_audio events)) same
