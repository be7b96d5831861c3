-- ===== src/Audio/Relay.antt =====
-- What the audio proxy sends once the doorphone's address is settled.
use mathlib.Core.List.{map, map-append}
use rtp_stream_cleaner.Prelude.{
  ℕ, ◌+◌, ◌<◌, ◌≡◌, refl, sym, ◌∙◌, ap, Bool, not, ◌&&◌, Option, none, some, List, [], ◌∷◌, ◌++◌,
  append_assoc, append-nil, All, length, arith, if◌then◌else◌,
}
use rtp_stream_cleaner.Net.{UdpAddr, Write}
use rtp_stream_cleaner.Peer.{Peer, same_addr, update_doorphone_peer, update_known}
use rtp_stream_cleaner.Session.{mark_activity}
use rtp_stream_cleaner.Audio.{
  AudioProxy, Datagram, Event, from_a, from_b, loop_a_in, loop_b_in, step, run, send_to_dest,
  send_to_peer, foreign, count_a_in, count_b_in,
}

-- The bytes and the address of a write.
abbrev pub addressed : Write → List ℕ × UdpAddr
addressed w = (w.packet, w.dest)

abbrev pub time_of : Event → ℕ
time_of (from_a d) = d.learned_at
time_of (from_b d) = d.now

abbrev pub to_dest : List ℕ → Option UdpAddr → List (List ℕ × UdpAddr)
to_dest bytes none = []
to_dest bytes (some dest) = (bytes, dest) ∷ []

-- What is to go to rtpengine because of one datagram: those of the doorphone.
abbrev pub relayed : UdpAddr → Event → List (List ℕ × UdpAddr)
relayed known (from_a d) =
    if d.is_enabled && same_addr known d.source then to_dest d.bytes d.dest else []
relayed known (from_b d) = []

-- What is to go to the doorphone because of one datagram: those from the destination's host.
abbrev pub answered : UdpAddr → Event → List (List ℕ × UdpAddr)
answered known (from_a d) = []
answered known (from_b d) =
    if d.is_enabled && not (foreign d.dest d.source) then (d.bytes, known) ∷ [] else []

abbrev pub all_of : (Event → List (List ℕ × UdpAddr)) → List Event → List (List ℕ × UdpAddr)
all_of f [] = []
all_of f (e ∷ events) = f e ++ all_of f events

-- One step with a peer that stays.
record Relays (p q : AudioProxy) (known : UdpAddr) (e : Event) : Type 0 where
  same_peer : q.peer ≡ p.peer
  same_window : q.peer_learning_window ≡ p.peer_learning_window
  sent_b : map addressed q.to_b ≡ map addressed p.to_b ++ relayed known e
  sent_a : map addressed q.to_a ≡ map addressed p.to_a ++ answered known e

send_to_dest-to_b :
    (p : AudioProxy) (packet : List ℕ) (dest : Option UdpAddr)
    → let q = send_to_dest p packet dest in
      (map addressed q.to_b ≡ map addressed p.to_b ++ to_dest packet dest)
      × (q.to_a ≡ p.to_a)
      × (q.peer ≡ p.peer)
      × (q.peer_learning_window ≡ p.peer_learning_window)
send_to_dest-to_b p packet none = (sym (append-nil (map addressed p.to_b)), refl, refl, refl)
send_to_dest-to_b p packet (some dest) =
    let w : Write = record {
      packet = packet;
      dest = dest;
      delivered = p.link_b p.to_b packet dest;
    } in
    let appended = map-append addressed p.to_b (w ∷ []) in
    (ground (arith, appended), ground arith, ground arith, ground arith)

send_to_peer-to_a :
    (p : AudioProxy) (packet : List ℕ) (peer : UdpAddr)
    → let q = send_to_peer p packet (some peer) in
      (map addressed q.to_a ≡ map addressed p.to_a ++ ((packet, peer) ∷ []))
      × (q.to_b ≡ p.to_b)
      × (q.peer ≡ p.peer)
      × (q.peer_learning_window ≡ p.peer_learning_window)
send_to_peer-to_a p packet peer =
    let w : Write = record {
      packet = packet;
      dest = peer;
      delivered = p.link_a p.to_a packet peer;
    } in
    let appended = map-append addressed p.to_a (w ∷ []) in
    (ground (arith, appended), ground arith, ground arith, ground arith)

module _ (p : AudioProxy) (known : UdpAddr) (e : p.peer.doorphone_peer ≡ some known) where
  nothing_b : map addressed p.to_b ≡ map addressed p.to_b ++ []
  nothing_b = sym (append-nil (map addressed p.to_b))

  nothing_a : map addressed p.to_a ≡ map addressed p.to_a ++ []
  nothing_a = sym (append-nil (map addressed p.to_a))

  loop_a_in-Relays :
      (d : Datagram)
      → p.peer.doorphone_learned_at + p.peer_learning_window < d.learned_at
      → Relays p (loop_a_in p d) known (from_a d)
  unfolding loop_a_in
  loop_a_in-Relays d late =
      let marked = record p { activity = mark_activity p.activity d.now } in
      let q = count_a_in marked (length d.bytes) in
      let answer =
        update_doorphone_peer p.peer_learning_window p.peer (some d.source) d.learned_at in
      let asked : answer ≡ (p.peer, same_addr known d.source) =
        rw (update_known p.peer_learning_window p.peer known d.source d.learned_at e)
          (ground arith) in
      let (b, a, same, window) = send_to_dest-to_b (record q { peer = answer.0 }) d.bytes d.dest in
      record {
        same_peer =
            ground
              (arith, ap (λ (x : Peer × Bool). x.0) asked, ap (λ (x : Peer × Bool). x.1) asked);
        same_window = ground arith;
        sent_b = ground (arith, ap (λ (x : Peer × Bool). x.1) asked, nothing_b);
        sent_a = ground (arith, nothing_a);
      }

  loop_b_in-Relays : (d : Datagram) → Relays p (loop_b_in p d) known (from_b d)
  unfolding loop_b_in
  loop_b_in-Relays d =
      let q = record p { activity = mark_activity p.activity d.now } in
      let (a, b, same, window) = send_to_peer-to_a (count_b_in q (length d.bytes)) d.bytes known in
      rw e (record {
        same_peer = ground arith;
        same_window = ground arith;
        sent_b = ground (arith, nothing_b);
        sent_a = ground (arith, nothing_a);
      })

  step-Relays :
      (event : Event)
      → p.peer.doorphone_learned_at + p.peer_learning_window < time_of event
      → Relays p (step p event) known event
  step-Relays (from_a d) late = loop_a_in-Relays d late
  step-Relays (from_b d) late = loop_b_in-Relays d

-- After the learning window, in any order of the two loops' iterations, rtpengine is sent just the
-- datagrams that came from the doorphone's address while audio was enabled and had a destination,
-- and the doorphone just those that came from the destination's host while audio was enabled: each
-- once, with the same bytes, in the order of arrival, to the destination then set and to the
-- address that was learned.
pub run-relayed :
    (p : AudioProxy) (known : UdpAddr) (events : List Event)
    → p.peer.doorphone_peer ≡ some known
    → All (λ (e : Event). p.peer.doorphone_learned_at + p.peer_learning_window < time_of e) events
    → (map addressed (run p events).to_b ≡ map addressed p.to_b ++ all_of (relayed known) events)
      × (map addressed (run p events).to_a ≡ map addressed p.to_a ++ all_of (answered known) events)
unfolding run
run-relayed p known [] e late =
    (sym (append-nil (map addressed p.to_b)), sym (append-nil (map addressed p.to_a)))
run-relayed p known (event ∷ events) e late =
    let now = step-Relays p known e event late.0 in
    let (rest_b, rest_a) =
      run-relayed (step p event) known events (rw now.same_peer e)
        (rw (now.same_peer, now.same_window) late.1) in
    (
      rest_b
          ∙ ap (λ (x : List (List ℕ × UdpAddr)). x ++ all_of (relayed known) events) now.sent_b
          ∙ append_assoc (map addressed p.to_b) (relayed known event)
              (all_of (relayed known) events),
      rest_a
          ∙ ap (λ (x : List (List ℕ × UdpAddr)). x ++ all_of (answered known) events) now.sent_a
          ∙ append_assoc (map addressed p.to_a) (answered known event)
              (all_of (answered known) events),
    )
