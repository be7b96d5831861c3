-- ===== src/RtpPeer/Counted.antt =====
-- The counters of a replay and what it did.
use rtp_stream_cleaner.Prelude.{
  ℕ, suc, ◌+◌, ◌≡◌, Bool, true, false, Option, none, some, List, [], ◌∷◌, ◌++◌, length, ◌==◌,
  Result, ok, err, arith, if_cases,
}
use rtp_stream_cleaner.Rtp
use rtp_stream_cleaner.Rtp.Parse.{ParseError, parse}
use rtp_stream_cleaner.Pcap.{PcapError, is_eof}
use rtp_stream_cleaner.Pcap.Reader.{Read}
use rtp_stream_cleaner.RtpPeer.{ExtractError}
use rtp_stream_cleaner.RtpPeer.Extract.{extract_udp_payload}
use rtp_stream_cleaner.RtpPeer.Send.{
  PacingMode, pacing_capture, pacing_fast, pacing_fixed, SendConfig, Stats, Label, audio, video,
  Action, sleep, wrote, write_failed, Sender, sleep_for, positive, capture_pacing, since, pace,
  apply_pacing, write_to, label_of, parse_error, send_on, after_parse, after_extract, send_round,
  send_loop, SendError,
}

abbrev pub tally : (Action → ℕ) → List Action → ℕ
tally f [] = 0
tally f (action ∷ actions) = f action + tally f actions

tally-append : (f : Action → ℕ) (xs ys : List Action) → tally f (xs ++ ys) ≡ tally f xs + tally f ys
tally-append f [] ys = omega arith
tally-append f (x ∷ xs) ys = omega (arith, tally-append f xs ys)

abbrev pub audio_sent : Action → ℕ
audio_sent (wrote audio payload) = 1
audio_sent action = 0

abbrev pub video_sent : Action → ℕ
video_sent (wrote video payload) = 1
video_sent action = 0

abbrev pub bytes_sent : Action → ℕ
bytes_sent (wrote label payload) = length payload
bytes_sent action = 0

abbrev pub failed : Action → ℕ
failed (write_failed label payload) = 1
failed action = 0

-- Each counter of the sending side is what the actions add up to.
pub record Counts (t : Stats) (actions : List Action) : Type 0 where
  pub audio_pkts : t.sent_audio_pkts ≡ tally audio_sent actions
  pub video_pkts : t.sent_video_pkts ≡ tally video_sent actions
  pub bytes : t.sent_bytes ≡ tally bytes_sent actions
  pub errors : t.send_errors ≡ tally failed actions

abbrev pub IsCounted : Sender → Type 0
IsCounted s = Counts s.stats s.actions

-- One more action, with its part of each counter.
Counts-append :
    (t q : Stats) (actions : List Action) (action : Action)
    → Counts t actions
    → q.sent_audio_pkts ≡ t.sent_audio_pkts + audio_sent action
    → q.sent_video_pkts ≡ t.sent_video_pkts + video_sent action
    → q.sent_bytes ≡ t.sent_bytes + bytes_sent action
    → q.send_errors ≡ t.send_errors + failed action
    → Counts q (actions ++ (action ∷ []))
Counts-append t q actions action c a v b e = record {
  audio_pkts = omega (arith, a, c.audio_pkts, tally-append audio_sent actions (action ∷ []));
  video_pkts = omega (arith, v, c.video_pkts, tally-append video_sent actions (action ∷ []));
  bytes = omega (arith, b, c.bytes, tally-append bytes_sent actions (action ∷ []));
  errors = omega (arith, e, c.errors, tally-append failed actions (action ∷ []));
}

sleep_for-IsCounted : (d : ℕ) (s : Sender) → IsCounted s → IsCounted (sleep_for d s)
sleep_for-IsCounted d s c = if_cases IsCounted (d == 0) c (
    Counts-append s.stats s.stats s.actions (sleep d) c (omega arith) (omega arith) (omega arith)
      (omega arith))

capture_pacing-IsCounted :
    (ts : ℕ) (prev : Option ℕ) (s : Sender) → IsCounted s → IsCounted (capture_pacing ts prev s)
capture_pacing-IsCounted ts none s c = c
capture_pacing-IsCounted ts (some prev) s c = sleep_for-IsCounted (since ts prev) s c

pace-IsCounted :
    (mode : PacingMode) (fixed ts : ℕ) (s : Sender) → IsCounted s → IsCounted (pace mode fixed ts s)
pace-IsCounted pacing_capture fixed ts s c = capture_pacing-IsCounted ts s.prev_ts s c
pace-IsCounted pacing_fast fixed ts s c = c
pace-IsCounted pacing_fixed fixed ts s c = sleep_for-IsCounted (positive fixed) s c

write_to-IsCounted :
    (delivered : Bool) (label : Label) (payload : List ℕ) (s : Sender)
    → IsCounted s
    → IsCounted (write_to delivered label payload s)
unfolding write_to
write_to-IsCounted true audio payload s c =
    Counts-append s.stats (write_to true audio payload s).stats s.actions (wrote audio payload) c
      (omega arith) (omega arith) (omega arith) (omega arith)
write_to-IsCounted true video payload s c =
    Counts-append s.stats (write_to true video payload s).stats s.actions (wrote video payload) c
      (omega arith) (omega arith) (omega arith) (omega arith)
write_to-IsCounted false label payload s c =
    Counts-append s.stats (write_to false label payload s).stats s.actions
      (write_failed label payload) c (omega arith) (omega arith) (omega arith) (omega arith)

parse_error-IsCounted : (s : Sender) → IsCounted s → IsCounted (parse_error s)
parse_error-IsCounted s c = record {
  audio_pkts = c.audio_pkts;
  video_pkts = c.video_pkts;
  bytes = c.bytes;
  errors = c.errors;
}

module _ (cfg : SendConfig) (delivered : Bool) (ts : ℕ) where
  send_on-IsCounted :
      (payload : List ℕ) (label : Option Label) (s : Sender)
      → IsCounted s
      → IsCounted (send_on cfg delivered ts payload label s)
  unfolding apply_pacing
  send_on-IsCounted payload none s c = c
  send_on-IsCounted payload (some label) s c =
      write_to-IsCounted delivered label payload (apply_pacing cfg.pacing ts s)
        (pace-IsCounted cfg.pacing.mode cfg.pacing.fixed ts s c)

  after_parse-IsCounted :
      (payload : List ℕ) (x : Result ParseError Rtp.Parse.Packet) (s : Sender)
      → IsCounted s
      → IsCounted (after_parse cfg delivered ts payload x s)
  after_parse-IsCounted payload (err e) s c = parse_error-IsCounted s c
  after_parse-IsCounted payload (ok packet) s c =
      send_on-IsCounted payload (label_of cfg packet.ssrc) s c

  after_extract-IsCounted :
      (x : Result ExtractError (List ℕ)) (s : Sender)
      → IsCounted s
      → IsCounted (after_extract cfg delivered ts x s)
  after_extract-IsCounted (err e) s c = parse_error-IsCounted s c
  after_extract-IsCounted (ok payload) s c =
      if_cases IsCounted (length payload == 0) c (after_parse-IsCounted payload (parse payload) s c)

send_round-IsCounted :
    (cfg : SendConfig) (delivered : Bool) (read : Read) (s : Sender)
    → IsCounted s
    → IsCounted (send_round cfg delivered read s)
unfolding send_round
send_round-IsCounted cfg delivered read s c =
    after_extract-IsCounted cfg delivered read.packet.timestamp
      (extract_udp_payload read.packet.bytes read.link_type) s c

-- The counters of the sending side tell what the loop did, at whatever round it stops: the packets
-- sent on either socket and their bytes are those of the writes that succeeded, and the send errors
-- are the writes that failed, if they were so before.
pub send_loop-IsCounted :
    (cfg : SendConfig) (cancelled delivers : ℕ → Bool) (last : PcapError) (n : ℕ)
    (reads : List Read) (s : Sender)
    → IsCounted s
    → IsCounted (send_loop cfg cancelled delivers last n reads s).0
unfolding send_loop
send_loop-IsCounted cfg cancelled delivers last n [] s c =
    if_cases (λ (r : Sender × Option SendError). IsCounted r.0) (cancelled n) c
      (if_cases (λ (r : Sender × Option SendError). IsCounted r.0) (is_eof last) c c)
send_loop-IsCounted cfg cancelled delivers last n (read ∷ reads) s c =
    if_cases (λ (r : Sender × Option SendError). IsCounted r.0) (cancelled n) c
      (send_loop-IsCounted cfg cancelled delivers last (suc n) reads
        (send_round cfg (delivers n) read s) (send_round-IsCounted cfg (delivers n) read s c))
