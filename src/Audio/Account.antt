-- ===== src/Audio/Account.antt =====
-- Every datagram that the audio proxy reads is counted once: ignored, dropped or forwarded.
use rtp_stream_cleaner.Prelude.{
  ℕ, suc, ◌+◌, ◌%◌, ◌^◌, ◌≡◌, refl, Option, none, some, List, [], ◌∷◌, ◌++◌, length, arith,
  if◌then◌else◌,
}
use rtp_stream_cleaner.Net.{UdpAddr, Write, Link}
use rtp_stream_cleaner.Peer.{update_doorphone_peer}
use rtp_stream_cleaner.Session.{Activity, mark_activity}
use rtp_stream_cleaner.Audio.{
  AudioProxy, AudioCounters, Event, from_a, from_b, loop_a_in, loop_b_in, step, run,
  new_audio_proxy, send_to_dest, send_to_peer, count_a_in, count_b_in,
}

-- The datagrams that were read, forwarded without error, dropped or ignored.
abbrev pub settled : AudioCounters → ℕ
settled c = c.b_out_pkts + c.a_out_pkts + c.drops + c.ignored_disabled

abbrev pub reads_of_a : List Event → ℕ
reads_of_a [] = 0
reads_of_a (from_a d ∷ events) = suc (reads_of_a events)
reads_of_a (from_b d ∷ events) = reads_of_a events

abbrev pub delivered : List Write → ℕ
delivered [] = 0
delivered (w ∷ ws) = (if w.delivered then 1 else 0) + delivered ws

delivered-append : (xs ys : List Write) → delivered (xs ++ ys) ≡ delivered xs + delivered ys
delivered-append [] ys = omega arith
delivered-append (x ∷ xs) ys = omega (arith, delivered-append xs ys)

-- The change of the counters from p to q when one datagram is settled.
record Settles (p q : AudioProxy) (from_leg_a : ℕ) : Type 0 where
  settled_once : settled q.counters % 2 ^ 64 ≡ (settled p.counters + 1) % 2 ^ 64
  a_in : q.counters.a_in_pkts % 2 ^ 64 ≡ (p.counters.a_in_pkts + from_leg_a) % 2 ^ 64
  out_b :
      (q.counters.b_out_pkts + delivered p.to_b) % 2 ^ 64
      ≡ (p.counters.b_out_pkts + delivered q.to_b) % 2 ^ 64
  out_a :
      (q.counters.a_out_pkts + delivered p.to_a) % 2 ^ 64
      ≡ (p.counters.a_out_pkts + delivered q.to_a) % 2 ^ 64

send_to_dest-Settles :
    (p : AudioProxy) (packet : List ℕ) (dest : Option UdpAddr)
    → Settles p (send_to_dest p packet dest) 0
send_to_dest-Settles p packet none = record {
  settled_once = omega arith;
  a_in = omega arith;
  out_b = refl;
  out_a = refl;
}
send_to_dest-Settles p packet (some dest) =
    let w : Write = record {
      packet = packet;
      dest = dest;
      delivered = p.link_b p.to_b packet dest;
    } in
    let appended = delivered-append p.to_b (w ∷ []) in
    record {
      settled_once = ground arith;
      a_in = ground arith;
      out_b = ground (arith, appended);
      out_a = ground arith;
    }

send_to_peer-Settles :
    (p : AudioProxy) (packet : List ℕ) (peer : Option UdpAddr)
    → Settles p (send_to_peer p packet peer) 0
send_to_peer-Settles p packet none = record {
  settled_once = omega arith;
  a_in = omega arith;
  out_b = refl;
  out_a = refl;
}
send_to_peer-Settles p packet (some peer) =
    let w : Write = record {
      packet = packet;
      dest = peer;
      delivered = p.link_a p.to_a packet peer;
    } in
    let appended = delivered-append p.to_a (w ∷ []) in
    record {
      settled_once = ground arith;
      a_in = ground arith;
      out_b = ground arith;
      out_a = ground (arith, appended);
    }

abbrev pub from_leg_a : Event → ℕ
from_leg_a (from_a d) = 1
from_leg_a (from_b d) = 0

step-Settles : (p : AudioProxy) (e : Event) → Settles p (step p e) (from_leg_a e)
unfolding loop_a_in loop_b_in
step-Settles p (from_a d) =
    let marked = record p { activity = mark_activity p.activity d.now } in
    let q = count_a_in marked (length d.bytes) in
    let answer = update_doorphone_peer p.peer_learning_window p.peer (some d.source) d.learned_at in
    let learned = record q { peer = answer.0 } in
    let sent = send_to_dest-Settles learned d.bytes d.dest in
    record {
      settled_once = ground (arith, sent.settled_once);
      a_in = ground (arith, sent.a_in);
      out_b = ground (arith, sent.out_b);
      out_a = ground (arith, sent.out_a);
    }
step-Settles p (from_b d) =
    let q = record p { activity = mark_activity p.activity d.now } in
    let sent = send_to_peer-Settles (count_b_in q (length d.bytes)) d.bytes p.peer.doorphone_peer in
    record {
      settled_once = ground (arith, sent.settled_once);
      a_in = ground (arith, sent.a_in);
      out_b = ground (arith, sent.out_b);
      out_a = ground (arith, sent.out_a);
    }

-- The same over a run.
record Balanced (p q : AudioProxy) (events : List Event) : Type 0 where
  all_settled : settled q.counters % 2 ^ 64 ≡ (settled p.counters + length events) % 2 ^ 64
  all_a_in : q.counters.a_in_pkts % 2 ^ 64 ≡ (p.counters.a_in_pkts + reads_of_a events) % 2 ^ 64
  all_out_b :
      (q.counters.b_out_pkts + delivered p.to_b) % 2 ^ 64
      ≡ (p.counters.b_out_pkts + delivered q.to_b) % 2 ^ 64
  all_out_a :
      (q.counters.a_out_pkts + delivered p.to_a) % 2 ^ 64
      ≡ (p.counters.a_out_pkts + delivered q.to_a) % 2 ^ 64

reads_of_a-cons :
    (e : Event) (events : List Event) → reads_of_a (e ∷ events) ≡ from_leg_a e + reads_of_a events
reads_of_a-cons (from_a d) events = omega arith
reads_of_a-cons (from_b d) events = omega arith

run-Balanced : (p : AudioProxy) (events : List Event) → Balanced p (run p events) events
unfolding run
run-Balanced p [] = record {
  all_settled = omega arith;
  all_a_in = omega arith;
  all_out_b = refl;
  all_out_a = refl;
}
run-Balanced p (e ∷ events) =
    let first = step-Settles p e in
    let rest = run-Balanced (step p e) events in
    record {
      all_settled = omega (arith, first.settled_once, rest.all_settled);
      all_a_in = omega (arith, first.a_in, rest.all_a_in, reads_of_a-cons e events);
      all_out_b = omega (arith, first.out_b, rest.all_out_b);
      all_out_a = omega (arith, first.out_a, rest.all_out_a);
    }

-- In any order of the two loops' iterations, each datagram read so far is counted exactly once, as
-- forwarded to B, forwarded to A, dropped or ignored; the counter of leg A's input is the number of
-- its datagrams, and the counters of output are the numbers of writes that succeeded. All counters
-- are taken modulo 2^64.
pub run-settled :
    (window : ℕ) (link_a link_b : Link) (activity : Activity) (events : List Event)
    → let p = run (new_audio_proxy window link_a link_b activity) events in
      (settled p.counters % 2 ^ 64 ≡ length events % 2 ^ 64)
      × (p.counters.a_in_pkts % 2 ^ 64 ≡ reads_of_a events % 2 ^ 64)
      × (p.counters.b_out_pkts % 2 ^ 64 ≡ delivered p.to_b % 2 ^ 64)
      × (p.counters.a_out_pkts % 2 ^ 64 ≡ delivered p.to_a % 2 ^ 64)
run-settled window link_a link_b activity events =
    let b = run-Balanced (new_audio_proxy window link_a link_b activity) events in
    (
      omega (arith, b.all_settled),
      omega (arith, b.all_a_in),
      omega (arith, b.all_out_b),
      omega (arith, b.all_out_a),
    )
