-- ===== src/Tests/Loops.antt =====
-- The read loops of the video proxy on a short call, with the fix and without.
use mathlib.Core.List.{map}
use rtp_stream_cleaner.Prelude.{ℕ, ◌≡◌, refl, true, false, none, some, List, [], ◌∷◌, arith, Option}
use rtp_stream_cleaner.Bytes.{be16}
use rtp_stream_cleaner.Net.{UdpAddr, Link, ip_equal}
use rtp_stream_cleaner.Rtp.{parse_rtp_header}
use rtp_stream_cleaner.Peer.{update_doorphone_peer}
use rtp_stream_cleaner.Session.{Activity, created}
use rtp_stream_cleaner.Audio
use rtp_stream_cleaner.Audio.{Datagram}
use rtp_stream_cleaner.Video.{new_video_proxy}
use rtp_stream_cleaner.Video.Invariant.{IsValid}
use rtp_stream_cleaner.Video.Loops.{
  VideoLegs, Reading, VideoEvent, read_a, read_b, new_video_legs, loop_a_in, loop_b_in,
  track_seq_gap, send_to_dest, run,
}
use rtp_stream_cleaner.Video.Output.{forward_raw_packet}
use rtp_stream_cleaner.Video.Unfixed.{mirror, as_audio, run-mirror}
use rtp_stream_cleaner.Video.Reach.{run-new_video_proxy}

abbrev doorphone : UdpAddr
doorphone = record { ip = 192 ∷ 168 ∷ 1 ∷ 20 ∷ []; port = 5006 }

abbrev rtpengine : UdpAddr
rtpengine = record { ip = 10 ∷ 0 ∷ 0 ∷ 5 ∷ []; port = 40102 }

abbrev works : Link
works writes packet dest = true

abbrev idle : Activity
idle = record { last_activity_nsec = 1; state = created }

abbrev reading : List ℕ → UdpAddr → Option UdpAddr → ℕ → Reading
reading bytes source dest now = record {
  datagram = record {
    bytes = bytes;
    source = source;
    is_enabled = true;
    dest = dest;
    now = now;
    learned_at = now;
  };
  handled_at = now;
  later_at = now;
}

-- A slice of an RTP stream of payload type 96.
abbrev slice : ℕ → List ℕ
slice seq = 0x80 ∷ 0x60 ∷ 0 ∷ seq ∷ 0 ∷ 0 ∷ 0 ∷ 9 ∷ 1 ∷ 2 ∷ 3 ∷ 4 ∷ 0x41 ∷ 7 ∷ []

-- Two packets of the doorphone with a gap between them, an answer, and a packet with nowhere to go.
abbrev call : List VideoEvent
call =
    read_a (reading (slice 1) doorphone (some rtpengine) 5)
    ∷ read_a (reading (slice 3) doorphone (some rtpengine) 6)
    ∷ read_b (reading (5 ∷ []) rtpengine (some rtpengine) 7)
    ∷ read_a (reading (slice 4) doorphone none 8)
    ∷ []

abbrev plain : VideoLegs
plain = new_video_legs (new_video_proxy 10 20 false false works) works idle

gaps : (run plain call).proxy.counters.video_seq_gaps ≡ 1
unfolding run loop_a_in loop_b_in track_seq_gap update_doorphone_peer ip_equal parse_rtp_header
    forward_raw_packet send_to_dest be16
gaps = refl

run-mirror_example : mirror (run plain call) ≡ Audio.run (mirror plain) (map as_audio call)
run-mirror_example = run-mirror plain call refl

run-new_video_proxy_example :
    IsValid (run (new_video_legs (new_video_proxy 10 20 true false works) works idle) call).proxy
run-new_video_proxy_example =
    run-new_video_proxy 10 20 true false works works idle call (ground arith)
