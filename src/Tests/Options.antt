-- ===== src/Tests/Options.antt =====
-- The options of the test peer, its receiving loops, and the configuration of the proxy.
use rtp_stream_cleaner.Prelude.{
  ◌≡◌, ◌↔◌, refl, false, some, List, [], ◌∷◌, ok, err, arith, ◌^◌, ◌-◌,
}
use rtp_stream_cleaner.Net.{UdpAddr, bytes_equal}
use rtp_stream_cleaner.Pcap.Written.{takes_all}
use rtp_stream_cleaner.RtpPeer.Send.{Label, audio, video, pacing_fixed, pacing_capture, no_stats}
use rtp_stream_cleaner.RtpPeer.Options.{
  parse_ssrc, parse_pacing, not_a_number, empty_ssrc, unknown_pacing_mode, invalid_fixed_pacing,
}
use rtp_stream_cleaner.RtpPeer.Ssrc.{format_ssrc, parse_ssrc-format_ssrc}
use rtp_stream_cleaner.RtpPeer.Flags.{
  Flags, Config, IsAsked, ssrcs_of, check_flags, check_flags_iff, ports_required,
}
use rtp_stream_cleaner.RtpPeer.Receive.{
  Receiver, Received, receive, receive_all, IsRecorded, receive_all-IsRecorded,
}
use rtp_stream_cleaner.Config

-- "0xDEADbeef", " 12 ", "0x", "1_0", "ff"
hex_ssrc :
    parse_ssrc (0x30 ∷ 0x78 ∷ 0x44 ∷ 0x45 ∷ 0x41 ∷ 0x44 ∷ 0x62 ∷ 0x65 ∷ 0x65 ∷ 0x66 ∷ [])
    ≡ ok 0xdeadbeef
unfolding parse_ssrc
hex_ssrc = refl

spaced_ssrc : parse_ssrc (0x20 ∷ 0x31 ∷ 0x32 ∷ 0x20 ∷ []) ≡ ok 12
unfolding parse_ssrc
spaced_ssrc = refl

bare_prefix : parse_ssrc (0x30 ∷ 0x78 ∷ []) ≡ err not_a_number
unfolding parse_ssrc
bare_prefix = refl

bare_letters : parse_ssrc (0x66 ∷ 0x66 ∷ []) ≡ ok 255
unfolding parse_ssrc
bare_letters = refl

blank_ssrc : parse_ssrc (0x20 ∷ []) ≡ err empty_ssrc
unfolding parse_ssrc
blank_ssrc = refl

-- "fixed:20", "fixed:-1", "slow"
fixed_20 :
    parse_pacing (0x66 ∷ 0x69 ∷ 0x78 ∷ 0x65 ∷ 0x64 ∷ 0x3a ∷ 0x32 ∷ 0x30 ∷ [])
    ≡ ok (record { mode = pacing_fixed; fixed = 20_000_000 })
unfolding parse_pacing bytes_equal
fixed_20 = refl

fixed_below_zero :
    parse_pacing (0x66 ∷ 0x69 ∷ 0x78 ∷ 0x65 ∷ 0x64 ∷ 0x3a ∷ 0x2d ∷ 0x31 ∷ [])
    ≡ err invalid_fixed_pacing
unfolding parse_pacing bytes_equal
fixed_below_zero = refl

slow_pacing : parse_pacing (0x73 ∷ 0x6c ∷ 0x6f ∷ 0x77 ∷ []) ≡ err unknown_pacing_mode
unfolding parse_pacing bytes_equal
slow_pacing = refl

parse_ssrc-format_ssrc_example : parse_ssrc (format_ssrc 0xdeadbeef) ≡ ok 0xdeadbeef
parse_ssrc-format_ssrc_example = parse_ssrc-format_ssrc 0xdeadbeef (omega arith)

-- A replay with both ports, destinations and sources.
abbrev replay_flags : Flags
replay_flags = record {
  audio_port = 5004;
  video_port = 5006;
  audio_to = 0x61 ∷ [];
  video_to = 0x76 ∷ [];
  send_pcap = 0x63 ∷ [];
  list_sources = false;
  pacing = [];
  audio_ssrc = 0x31 ∷ [];
  video_ssrc = 0x32 ∷ [];
  duration = 0;
}

abbrev replay_config : Config
replay_config = record {
  flags = replay_flags;
  audio_ssrc = 1;
  video_ssrc = 2;
  pacing = record { mode = pacing_capture; fixed = 0 };
  duration = 0;
}

replay_checked : check_flags replay_flags ≡ ok replay_config
unfolding check_flags ssrcs_of parse_ssrc parse_pacing bytes_equal
replay_checked = refl

no_ports : check_flags (record replay_flags { video_port = 0 }) ≡ err ports_required
unfolding check_flags ssrcs_of
no_ports = refl

check_flags_iff_example :
    (check_flags replay_flags ≡ ok replay_config) ↔ IsAsked replay_flags replay_config
check_flags_iff_example = check_flags_iff replay_flags replay_config

abbrev datagram : Received
datagram = record {
  payload = 1 ∷ 2 ∷ [];
  addr = record { ip = 10 ∷ 0 ∷ 0 ∷ 1 ∷ []; port = 5004 };
  at = 7;
}

abbrev sockets : Label → UdpAddr
sockets audio = record { ip = 10 ∷ 0 ∷ 0 ∷ 2 ∷ []; port = 6000 }
sockets video = record { ip = 10 ∷ 0 ∷ 0 ∷ 2 ∷ []; port = 6002 }

-- The next packet of audio wraps its counter around.
abbrev worn : Receiver
worn = record {
  stats = record no_stats { recv_audio_pkts = 2 ^ 64 - 1 };
  writer = some (record { written = []; closed = false });
}

abbrev two_received : List (Label × Received)
two_received = (video, datagram) ∷ (audio, datagram) ∷ []

wrapped : (receive_all takes_all sockets worn two_received).stats.recv_audio_pkts ≡ 0
unfolding receive_all receive
wrapped = refl

receive_all-IsRecorded_example :
    IsRecorded takes_all sockets worn (receive_all takes_all sockets worn two_received) two_received
receive_all-IsRecorded_example = receive_all-IsRecorded takes_all sockets worn two_received

-- Without any variable the range is the default one, and a malformed number reads as the default.
default_range : (Config.load_from_env (λ key. [])).rtp_port_min ≡ 30000
unfolding Config.load_from_env
default_range = refl

malformed_range : (Config.load_from_env (λ key. 0x78 ∷ [])).rtp_port_max ≡ 40000
unfolding Config.load_from_env bytes_equal
malformed_range = refl
