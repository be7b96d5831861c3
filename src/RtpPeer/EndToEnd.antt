-- ===== src/RtpPeer/EndToEnd.antt =====
-- From what the writer of captures is given to what the replay sends.
use mathlib.Core.List.{map}
use rtp_stream_cleaner.Prelude.{
  ℕ, suc, ◌+◌, ◌<◌, ◌≡◌, refl, ap, ◌∙◌, Bool, true, false, Option, none, List, [], ◌∷◌, ◌++◌, All,
  length,
}
use rtp_stream_cleaner.Bytes.{IsByte}
use rtp_stream_cleaner.Rtp.Parse.{parse}
use rtp_stream_cleaner.Pcap.{PcapError, end_of_file}
use rtp_stream_cleaner.Pcap.Writer.{Captured, new_writer}
use rtp_stream_cleaner.Pcap.Written.{takes_all}
use rtp_stream_cleaner.Pcap.Reader.{Read}
use rtp_stream_cleaner.Pcap.RoundTrip.{
  Fits, read_back, written_file, open_reader-written_file, read_packets-records,
}
use rtp_stream_cleaner.RtpPeer.Replay.{extract_udp_payload-build_ethernet_ipv4_udp}
use rtp_stream_cleaner.RtpPeer.Send.{
  SendConfig, Label, Sender, SendError, new_sender, send_loop, after_open, send_file,
}
use rtp_stream_cleaner.RtpPeer.Sent.{
  datagrams, parsed, extracted, sends, all_sends, before_cancel, send_loop-sends,
}

-- Of a datagram that the formats can hold: its time and its sizes.
pub record IsHeld (c : Captured) : Type 0 where
  pub fits : Fits c
  pub src_bytes : All IsByte c.src_ip
  pub dst_bytes : All IsByte c.dst_ip
  pub small : 8 + length c.payload < 65536

IsHeld-Fits : (captured : List Captured) → All IsHeld captured → All Fits captured
IsHeld-Fits [] h = tt
IsHeld-Fits (c ∷ captured) (h, held) = (h.fits, IsHeld-Fits captured held)

-- The datagrams of the two sources, each with its socket.
abbrev pub of_sources : SendConfig → List Captured → List (Label × List ℕ)
of_sources cfg [] = []
of_sources cfg (c ∷ captured) = parsed cfg c.payload (parse c.payload) ++ of_sources cfg captured

sends-read_back :
    (cfg : SendConfig) (c : Captured)
    → IsHeld c
    → sends cfg (read_back c) ≡ parsed cfg c.payload (parse c.payload)
sends-read_back cfg c h = ap (extracted cfg) (
    extract_udp_payload-build_ethernet_ipv4_udp c.src_ip c.dst_ip c.src_port c.dst_port c.payload
      h.src_bytes h.dst_bytes h.small)

all_sends-read_back :
    (cfg : SendConfig) (n : ℕ) (captured : List Captured)
    → All IsHeld captured
    → all_sends cfg (before_cancel (λ k. false) n (map read_back captured))
      ≡ of_sources cfg captured
all_sends-read_back cfg n [] h = refl
all_sends-read_back cfg n (c ∷ captured) (h, held) =
    let more = all_sends-read_back cfg (suc n) captured held in
    let one = sends-read_back cfg c h in rw (one, more) refl

send_loop-end :
    (cfg : SendConfig) (delivers : ℕ → Bool) (n : ℕ) (reads : List Read) (s : Sender)
    → (send_loop cfg (λ k. false) delivers end_of_file n reads s).1 ≡ none
unfolding send_loop
send_loop-end cfg delivers n [] s = refl
send_loop-end cfg delivers n (read ∷ reads) s = send_loop-end cfg delivers (suc n) reads _

-- A capture that the writer wrote into a file that takes every write whole replays: sendLoop on
-- that file ends without an error and tries to send, in their order and unchanged, the payloads
-- of the captured datagrams that are RTP packets of the two configured sources, each on the socket of
-- its source, whichever writes fail, if its addresses resolve and its context is not done. The
-- seconds of each time and the length of each frame fit into 32 bits, and the length of each UDP
-- datagram into 16.
pub send_file-write_packets :
    (cfg : SendConfig) (delivers : ℕ → Bool) (captured : List Captured)
    → All IsHeld captured
    → let sent =
        send_file cfg true true
          (λ n. false)
          delivers
          (written_file (new_writer takes_all) captured) in
      (datagrams sent.0.actions ≡ of_sources cfg captured) × (sent.1 ≡ none)
unfolding send_file
send_file-write_packets cfg delivers captured held =
    let run =
      λ (x : List Read × PcapError). send_loop cfg (λ n. false) delivers x.1 0 x.0 new_sender in
    let e =
      ap (after_open cfg (λ n. false) delivers) (open_reader-written_file captured)
      ∙ ap run (read_packets-records captured (IsHeld-Fits captured held)) in
    (
      ap (λ (r : Sender × Option SendError). datagrams r.0.actions) e
          ∙ send_loop-sends cfg (λ n. false) delivers end_of_file 0 (map read_back captured)
              new_sender
          ∙ all_sends-read_back cfg 0 captured held,
      ap (λ (r : Sender × Option SendError). r.1) e
          ∙ send_loop-end cfg delivers 0 (map read_back captured) new_sender,
    )
