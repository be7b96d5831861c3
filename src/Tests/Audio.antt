-- ===== src/Tests/Audio.antt =====
-- The audio proxy between a doorphone and rtpengine, and its theorems on the same run.
use mathlib.Core.List.{map}
use rtp_stream_cleaner.Prelude.{
  ℕ, ◌≡◌, ◌%◌, ◌^◌, refl, true, some, Bool, List, [], ◌∷◌, length, arith,
}
use rtp_stream_cleaner.Net.{UdpAddr, Write, ip_equal}
use rtp_stream_cleaner.Peer.{
  Peer, learn, update_doorphone_peer, same_addr, learn-update_doorphone_peer,
}
use rtp_stream_cleaner.Session.{Activity, created}
use rtp_stream_cleaner.Audio.{
  AudioProxy, Datagram, Event, from_a, from_b, loop_a_in, loop_b_in, run, new_audio_proxy,
}
use rtp_stream_cleaner.Audio.Account.{settled, reads_of_a, delivered, run-settled}
use rtp_stream_cleaner.Audio.Relay.{addressed, run-relayed}

abbrev doorphone : UdpAddr
doorphone = record { ip = 192 ∷ 168 ∷ 1 ∷ 20 ∷ []; port = 5004 }

abbrev stranger : UdpAddr
stranger = record { ip = 192 ∷ 168 ∷ 1 ∷ 66 ∷ []; port = 5004 }

abbrev rtpengine : UdpAddr
rtpengine = record { ip = 10 ∷ 0 ∷ 0 ∷ 5 ∷ []; port = 40100 }

abbrev datagram : List ℕ → UdpAddr → ℕ → Datagram
datagram bytes source now = record {
  bytes = bytes;
  source = source;
  is_enabled = true;
  dest = some rtpengine;
  now = now;
  learned_at = now;
}

abbrev idle : Activity
idle = record { last_activity_nsec = 1; state = created }

abbrev works : List Write → List ℕ → UdpAddr → Bool
works writes packet dest = true

-- A proxy with a learning window of ten time units.
abbrev fresh : AudioProxy
fresh = new_audio_proxy 10 works works idle

-- The doorphone speaks, a stranger comes too late, rtpengine answers, the stranger answers.
abbrev call : List Event
call =
    from_a (datagram (1 ∷ 2 ∷ []) doorphone 5)
    ∷ from_a (datagram (9 ∷ []) stranger 16)
    ∷ from_b (datagram (3 ∷ []) rtpengine 17)
    ∷ from_b (datagram (8 ∷ []) stranger 18)
    ∷ []

call_to_b : map addressed (run fresh call).to_b ≡ (1 ∷ 2 ∷ [], rtpengine) ∷ []
unfolding run loop_a_in loop_b_in update_doorphone_peer ip_equal
call_to_b = refl

call_to_a : map addressed (run fresh call).to_a ≡ (3 ∷ [], doorphone) ∷ []
unfolding run loop_a_in loop_b_in update_doorphone_peer ip_equal
call_to_a = refl

call_drops : (run fresh call).counters.drops ≡ 2
unfolding run loop_a_in loop_b_in update_doorphone_peer ip_equal
call_drops = refl

run-settled_example :
    let p = run fresh call in
    (settled p.counters % 2 ^ 64 ≡ length call % 2 ^ 64)
    × (p.counters.a_in_pkts % 2 ^ 64 ≡ reads_of_a call % 2 ^ 64)
    × (p.counters.b_out_pkts % 2 ^ 64 ≡ delivered p.to_b % 2 ^ 64)
    × (p.counters.a_out_pkts % 2 ^ 64 ≡ delivered p.to_a % 2 ^ 64)
run-settled_example = run-settled 10 works works idle call

-- The state after the doorphone's first datagram, with its address learned at time 5.
abbrev learned : Peer
learned = record { doorphone_peer = some doorphone; doorphone_learned_at = 5 }

learn-update_doorphone_peer_example :
    (learn 10 learned ((stranger, 16) ∷ (doorphone, 17) ∷ []) ≡ learned)
    × (update_doorphone_peer 10
          (learn 10 learned ((stranger, 16) ∷ (doorphone, 17) ∷ []))
          (some stranger)
          20
        ≡ (learned, same_addr doorphone stranger))
learn-update_doorphone_peer_example =
    learn-update_doorphone_peer 10 learned doorphone stranger 20
      ((stranger, 16) ∷ (doorphone, 17) ∷ []) refl (omega arith, (omega arith, tt)) (omega arith)

abbrev locked : AudioProxy
locked = record fresh { peer = learned }

abbrev later_call : List Event
later_call =
    from_a (datagram (9 ∷ []) stranger 16)
    ∷ from_a (datagram (4 ∷ []) doorphone 17)
    ∷ from_b (datagram (3 ∷ []) rtpengine 18)
    ∷ []

run-relayed_example :
    (map addressed (run locked later_call).to_b ≡ (4 ∷ [], rtpengine) ∷ [])
    × (map addressed (run locked later_call).to_a ≡ (3 ∷ [], doorphone) ∷ [])
unfolding ip_equal
run-relayed_example =
    run-relayed locked doorphone later_call refl (omega arith, (omega arith, (omega arith, tt)))
