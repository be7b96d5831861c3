-- ===== src/Audio.antt =====
-- The audio proxy (internal/session/audio_proxy.go): the bodies of its two read loops, which forward
-- each datagram as it is. The loops share the counters and the activity, which are atomic, and the
-- peer, which a mutex guards, so an iteration is one step and the loops run as a sequence of steps
-- in any order. What an iteration loads from the session's atomics is part of its datagram here.
pub mod Account
pub mod Relay
use rtp_stream_cleaner.Prelude.{
  ℕ, Bool, true, false, not, ◌||◌, Option, none, some, List, [], ◌∷◌, ◌++◌, length, if◌then◌else◌,
}
use rtp_stream_cleaner.Prelude.Words.{add64}
use rtp_stream_cleaner.Net.{UdpAddr, ip_equal, Write, Link}
use rtp_stream_cleaner.Peer.{Peer, no_peer, update_doorphone_peer}
use rtp_stream_cleaner.Session.{Activity, mark_activity}

pub record AudioCounters : Type 0 where
  pub a_in_pkts : ℕ
  pub a_in_bytes : ℕ
  pub b_out_pkts : ℕ
  pub b_out_bytes : ℕ
  pub b_in_pkts : ℕ
  pub b_in_bytes : ℕ
  pub a_out_pkts : ℕ
  pub a_out_bytes : ℕ
  pub drops : ℕ
  pub ignored_disabled : ℕ

-- `to_a` and `to_b` are the calls of WriteToUDP on the two sockets so far, oldest first; `link_a`
-- and `link_b` say which of them succeed.
pub record AudioProxy : Type 0 where
  pub peer_learning_window : ℕ
  pub link_a : Link
  pub link_b : Link
  pub counters : AudioCounters
  pub activity : Activity
  pub peer : Peer
  pub to_a : List Write
  pub to_b : List Write

-- A datagram that was read, with what its iteration loads: audioEnabled, audioDest and the
-- clock, once for markActivity and once, on leg A, for updateDoorphonePeer.
pub record Datagram : Type 0 where
  pub bytes : List ℕ
  pub source : UdpAddr
  pub is_enabled : Bool
  pub dest : Option UdpAddr
  pub now : ℕ
  pub learned_at : ℕ

abbrev pub count_a_in : AudioProxy → ℕ → AudioProxy
count_a_in p size = record p {
  counters = record c { a_in_pkts = add64 c.a_in_pkts 1; a_in_bytes = add64 c.a_in_bytes size };
}
  where
    open p use {counters as c}

abbrev pub count_b_in : AudioProxy → ℕ → AudioProxy
count_b_in p size = record p {
  counters = record c { b_in_pkts = add64 c.b_in_pkts 1; b_in_bytes = add64 c.b_in_bytes size };
}
  where
    open p use {counters as c}

abbrev pub count_audio_drop : AudioProxy → AudioProxy
count_audio_drop p = record p { counters = record c { drops = add64 c.drops 1 } }
  where
    open p use {counters as c}

abbrev pub count_ignored : AudioProxy → AudioProxy
count_ignored p = record p { counters = record c { ignored_disabled = add64 c.ignored_disabled 1 } }
  where
    open p use {counters as c}

abbrev pub write_to_b : AudioProxy → List ℕ → UdpAddr → AudioProxy
write_to_b p packet dest =
    let delivered = p.link_b p.to_b packet dest in
    let q = record p {
      to_b = p.to_b ++ (record { packet = packet; dest = dest; delivered = delivered } ∷ []);
    } in
    let c = q.counters in
    if not delivered then count_audio_drop q else record q {
      counters = record c {
        b_out_pkts = add64 c.b_out_pkts 1;
        b_out_bytes = add64 c.b_out_bytes (length packet);
      };
    }

abbrev pub write_to_a : AudioProxy → List ℕ → UdpAddr → AudioProxy
write_to_a p packet peer =
    let delivered = p.link_a p.to_a packet peer in
    let q = record p {
      to_a = p.to_a ++ (record { packet = packet; dest = peer; delivered = delivered } ∷ []);
    } in
    let c = q.counters in
    if not delivered then count_audio_drop q else record q {
      counters = record c {
        a_out_pkts = add64 c.a_out_pkts 1;
        a_out_bytes = add64 c.a_out_bytes (length packet);
      };
    }

-- Behind the peer's test: the destination is loaded and written to.
abbrev pub send_to_dest : AudioProxy → List ℕ → Option UdpAddr → AudioProxy
send_to_dest p packet none = count_audio_drop p
send_to_dest p packet (some dest) = write_to_b p packet dest

-- An iteration of loopAIn on a datagram.
unfoldable pub loop_a_in : AudioProxy → Datagram → AudioProxy
loop_a_in p d =
    let marked = record p { activity = mark_activity p.activity d.now } in
    let q = count_a_in marked (length d.bytes) in
    if not d.is_enabled
    then count_ignored q
    else (let (peer, accepted) =
          update_doorphone_peer q.peer_learning_window q.peer (some d.source) d.learned_at in
        let learned = record q { peer = peer } in
        if not accepted then count_audio_drop learned else send_to_dest learned d.bytes d.dest)

-- dest == nil || !dest.IP.Equal(addr.IP)
abbrev pub foreign : Option UdpAddr → UdpAddr → Bool
foreign none source = true
foreign (some dest) source = not (ip_equal dest.ip source.ip)

abbrev pub send_to_peer : AudioProxy → List ℕ → Option UdpAddr → AudioProxy
send_to_peer p packet none = count_audio_drop p
send_to_peer p packet (some peer) = write_to_a p packet peer

-- An iteration of loopBIn on a datagram.
unfoldable pub loop_b_in : AudioProxy → Datagram → AudioProxy
loop_b_in p d =
    let q = record p { activity = mark_activity p.activity d.now } in
    if not d.is_enabled
    then count_ignored q
    else if foreign d.dest d.source
    then count_audio_drop q
    else send_to_peer (count_b_in q (length d.bytes)) d.bytes q.peer.doorphone_peer

pub data Event : Type 0 where
  from_a : Datagram → Event
  from_b : Datagram → Event

abbrev pub step : AudioProxy → Event → AudioProxy
step p (from_a d) = loop_a_in p d
step p (from_b d) = loop_b_in p d

-- The two loops, iteration after iteration.
unfoldable pub run : AudioProxy → List Event → AudioProxy
run p [] = p
run p (e ∷ events) = run (step p e) events

abbrev pub new_audio_proxy : ℕ → Link → Link → Activity → AudioProxy
new_audio_proxy peer_learning_window link_a link_b activity = record {
  peer_learning_window = peer_learning_window;
  link_a = link_a;
  link_b = link_b;
  counters = record {
    a_in_pkts = 0;
    a_in_bytes = 0;
    b_out_pkts = 0;
    b_out_bytes = 0;
    b_in_pkts = 0;
    b_in_bytes = 0;
    a_out_pkts = 0;
    a_out_bytes = 0;
    drops = 0;
    ignored_disabled = 0;
  };
  activity = activity;
  peer = no_peer;
  to_a = [];
  to_b = [];
}
