-- ===== src/Tests/RtpPeer.antt =====
-- The test peer on captures of a few packets.
use mathlib.Core.List.{map}
use rtp_stream_cleaner.Prelude.{
  ℕ, ◌≡◌, refl, ap, Bool, true, false, inl, none, List, [], ◌∷◌, All, not, ◌==◌, ok, err, arith,
}
use rtp_stream_cleaner.Bytes.{IsByte, be16, put_be16}
use rtp_stream_cleaner.Rtp.Parse.{parse}
use rtp_stream_cleaner.Pcap.{PcapError, is_eof, end_of_file}
use rtp_stream_cleaner.Pcap.Frame.{
  build_ethernet_ipv4_udp, ip_header, ip_fields, to4, udp_header, udp_fields,
}
use rtp_stream_cleaner.Pcap.Writer.{Captured, new_writer}
use rtp_stream_cleaner.Pcap.Written.{takes_all, records}
use rtp_stream_cleaner.Pcap.Ng.{Reader}
use rtp_stream_cleaner.Pcap.Reader.{Read, read_packets}
use rtp_stream_cleaner.Pcap.RoundTrip.{Fits, reader, read_back, written_file, read_packets-records}
use rtp_stream_cleaner.RtpPeer.{frame_too_short, unsupported_linktype}
use rtp_stream_cleaner.RtpPeer.Extract.{
  udp_payload, ipv4_payload, tagged_payload, extract_udp_payload,
}
use rtp_stream_cleaner.RtpPeer.Inside.{linux_cooked, IsDatagram, extract_udp_payload-IsDatagram}
use rtp_stream_cleaner.RtpPeer.Send.{
  SendConfig, pacing_capture, audio, video, new_sender, send_loop, send_file,
}
use rtp_stream_cleaner.RtpPeer.Sent.{datagrams, send_loop-sends}
use rtp_stream_cleaner.RtpPeer.Counted.{IsCounted, send_loop-IsCounted}
use rtp_stream_cleaner.RtpPeer.Schedule.{times}
use rtp_stream_cleaner.RtpPeer.OnTime.{send_loop-since_first}
use rtp_stream_cleaner.RtpPeer.EndToEnd.{IsHeld, send_file-write_packets}
use rtp_stream_cleaner.RtpPeer.Sources.{Sources, list_sources}
use rtp_stream_cleaner.RtpPeer.SourceCounts.{Column, cell_at, total_of, list_sources-total_of}

-- RTP packets of the sources 1, 2 and 3; that of source 2 is an SPS.
abbrev sound : List ℕ
sound = 0x80 ∷ 0 ∷ 0 ∷ 1 ∷ 0 ∷ 0 ∷ 0 ∷ 0 ∷ 0 ∷ 0 ∷ 0 ∷ 1 ∷ 42 ∷ []

abbrev sps : List ℕ
sps = 0x80 ∷ 96 ∷ 0 ∷ 1 ∷ 0 ∷ 0 ∷ 0 ∷ 0 ∷ 0 ∷ 0 ∷ 0 ∷ 2 ∷ 0x67 ∷ []

abbrev other : List ℕ
other = 0x80 ∷ 8 ∷ 0 ∷ 1 ∷ 0 ∷ 0 ∷ 0 ∷ 0 ∷ 0 ∷ 0 ∷ 0 ∷ 3 ∷ []

abbrev ip : List ℕ
ip = 10 ∷ 0 ∷ 0 ∷ 1 ∷ []

ip_bytes : All IsByte ip
ip_bytes = (omega arith, (omega arith, (omega arith, (omega arith, tt))))

abbrev capture_at : ℕ → List ℕ → Captured
capture_at ts payload = record {
  ts = ts;
  src_ip = ip;
  dst_ip = ip;
  src_port = 5004;
  dst_port = 5006;
  payload = payload;
}

abbrev three_captured : List Captured
three_captured =
    capture_at 1_700_000_000_000_000_000 sound
    ∷ capture_at 1_700_000_000_010_000_000 other
    ∷ capture_at 1_700_000_000_020_000_000 sps
    ∷ []

three-Fits : All Fits three_captured
unfolding build_ethernet_ipv4_udp ip_header udp_header ip_fields to4 udp_fields
three-Fits =
    ((omega arith, omega arith), ((omega arith, omega arith), ((omega arith, omega arith), tt)))

abbrev by_capture : SendConfig
by_capture = record {
  audio_ssrc = 1;
  video_ssrc = 2;
  pacing = record { mode = pacing_capture; fixed = 0 };
}

-- A cooked capture's frame, without its own addresses: offset 16 behind the link layer.
abbrev cooked : List ℕ
cooked =
    0 ∷ 0 ∷ 0 ∷ 0 ∷ 0 ∷ 0 ∷ 0 ∷ 0 ∷ 0 ∷ 0 ∷ 0 ∷ 0 ∷ 0 ∷ 0 ∷ 8 ∷ 0 ∷ 0x45 ∷ 0 ∷ 0 ∷ 29 ∷ 0 ∷ 0 ∷ 0
    ∷ 0 ∷ 64 ∷ 17 ∷ 0 ∷ 0 ∷ 1 ∷ 2 ∷ 3 ∷ 4 ∷ 5 ∷ 6 ∷ 7 ∷ 8 ∷ 0 ∷ 1 ∷ 0 ∷ 2 ∷ 0 ∷ 9 ∷ 0 ∷ 0 ∷ 77 ∷ []

cooked_payload : extract_udp_payload cooked 113 ≡ ok (77 ∷ [])
unfolding extract_udp_payload tagged_payload ipv4_payload udp_payload be16
cooked_payload = refl

-- Behind 16 bytes of the link layer stands the header of IPv4, and at 36 that of UDP.
cooked-IsDatagram : IsDatagram cooked 16 36 (77 ∷ [])
unfolding be16
cooked-IsDatagram = record {
  header_size = refl;
  long_enough = omega arith;
  protocol = refl;
  first_fragment = refl;
  stated_length = refl;
  inside = omega arith;
  is_slice = refl;
}

extract_udp_payload-IsDatagram_example : extract_udp_payload cooked 113 ≡ ok (77 ∷ [])
unfolding be16
extract_udp_payload-IsDatagram_example =
    (extract_udp_payload-IsDatagram cooked (77 ∷ []) 113).1
      (16, 14, 16, 36, linux_cooked, inl (refl, refl), cooked-IsDatagram)

short_frame : extract_udp_payload (1 ∷ 2 ∷ []) 1 ≡ err frame_too_short
unfolding extract_udp_payload
short_frame = refl

other_link : extract_udp_payload (1 ∷ 2 ∷ []) 101 ≡ err (unsupported_linktype 101)
unfolding extract_udp_payload
other_link = refl

-- Three reads, and the last write fails.
abbrev fails_third : ℕ → Bool
fails_third n = not (n == 2)

send_loop-sends_example :
    datagrams
      (send_loop by_capture
        (λ n. false)
        fails_third
        end_of_file
        0
        (map read_back three_captured)
        new_sender).0.actions
    ≡ (audio, sound) ∷ (video, sps) ∷ []
unfolding extract_udp_payload tagged_payload ipv4_payload udp_payload be16 put_be16
    build_ethernet_ipv4_udp ip_header ip_fields udp_header udp_fields parse to4
send_loop-sends_example =
    send_loop-sends by_capture (λ n. false) fails_third end_of_file 0 (map read_back three_captured)
      new_sender

send_loop-IsCounted_example :
    IsCounted
      (send_loop by_capture
        (λ n. false)
        fails_third
        end_of_file
        0
        (map read_back three_captured)
        new_sender).0
send_loop-IsCounted_example =
    send_loop-IsCounted by_capture (λ n. false) fails_third end_of_file 0
      (map read_back three_captured) new_sender
      (record { audio_pkts = refl; video_pkts = refl; bytes = refl; errors = refl })

send_loop-since_first_example :
    times 0
      (send_loop by_capture
        (λ n. false)
        fails_third
        end_of_file
        0
        (map read_back three_captured)
        new_sender).0.actions
    ≡ (0, (audio, sound)) ∷ (20_000_000, (video, sps)) ∷ []
unfolding extract_udp_payload tagged_payload ipv4_payload udp_payload be16 put_be16
    build_ethernet_ipv4_udp ip_header ip_fields udp_header udp_fields parse to4
send_loop-since_first_example =
    send_loop-since_first by_capture (λ n. false) fails_third end_of_file 0
      (map read_back three_captured) new_sender refl
      (record { forgot = refl; awake = refl; silent = refl })
      (omega arith, omega arith, (omega arith, omega arith, (omega arith, omega arith, tt)))

three-IsHeld : All IsHeld three_captured
three-IsHeld = (
  record { fits = three-Fits.0; src_bytes = ip_bytes; dst_bytes = ip_bytes; small = omega arith },
  (
    record {
      fits = three-Fits.1.0;
      src_bytes = ip_bytes;
      dst_bytes = ip_bytes;
      small = omega arith;
    },
    (
      record {
        fits = three-Fits.1.1.0;
        src_bytes = ip_bytes;
        dst_bytes = ip_bytes;
        small = omega arith;
      },
      tt,
    ),
  ),
)

send_file-write_packets_example :
    let sent =
      send_file by_capture true true
        (λ n. false)
        fails_third
        (written_file (new_writer takes_all) three_captured) in
    (datagrams sent.0.actions ≡ (audio, sound) ∷ (video, sps) ∷ []) × (sent.1 ≡ none)
unfolding parse
send_file-write_packets_example =
    send_file-write_packets by_capture fails_third three_captured three-IsHeld

abbrev sample : Reader
sample = reader (records three_captured)

list_sources-total_of_example :
    (sources : Sources) × (list_sources (ok sample) ≡ ok sources)
    × ((c : Column) (ssrc payload_type : ℕ)
        → cell_at c ssrc payload_type sources
          ≡ total_of c ssrc payload_type (read_packets sample).0)
list_sources-total_of_example = list_sources-total_of sample (
    ap (λ (x : List Read × PcapError). is_eof x.1) (read_packets-records three_captured three-Fits))
