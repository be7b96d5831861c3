-- ===== src/RtpPeer/Sent.antt =====
-- What the replay of a capture writes to its two sockets, and what it counts.
use rtp_stream_cleaner.Prelude.{
  ℕ, suc, ◌≡◌, refl, sym, ap, ◌∙◌, Bool, true, false, Option, none, some, List, [], ◌∷◌, ◌++◌,
  append-nil, append_assoc, length, ◌==◌, if◌then◌else◌, Result, ok, err, arith, if_cases, if_split,
}
use rtp_stream_cleaner.Rtp.Parse.{ParseError, parse}
use rtp_stream_cleaner.Rtp
use rtp_stream_cleaner.Pcap.{PcapError, is_eof}
use rtp_stream_cleaner.Pcap.Reader.{Read}
use rtp_stream_cleaner.RtpPeer.{ExtractError}
use rtp_stream_cleaner.RtpPeer.Extract.{extract_udp_payload}
use rtp_stream_cleaner.RtpPeer.Send.{
  PacingMode, pacing_capture, pacing_fast, pacing_fixed, SendConfig, Label, Action, sleep, wrote,
  write_failed, Sender, sleep_for, positive, capture_pacing, since, pace, apply_pacing, write_to,
  label_of, send_on, after_parse, after_extract, send_round, send_loop, SendError,
}

-- The datagrams that the actions tried to send.
abbrev pub datagrams : List Action → List (Label × List ℕ)
datagrams [] = []
datagrams (sleep d ∷ actions) = datagrams actions
datagrams (wrote label payload ∷ actions) = (label, payload) ∷ datagrams actions
datagrams (write_failed label payload ∷ actions) = (label, payload) ∷ datagrams actions

datagrams-append : (xs ys : List Action) → datagrams (xs ++ ys) ≡ datagrams xs ++ datagrams ys
datagrams-append [] ys = refl
datagrams-append (sleep d ∷ xs) ys = datagrams-append xs ys
datagrams-append (wrote label payload ∷ xs) ys =
    ap (λ (r : List (Label × List ℕ)). (label, payload) ∷ r) (datagrams-append xs ys)
datagrams-append (write_failed label payload ∷ xs) ys =
    ap (λ (r : List (Label × List ℕ)). (label, payload) ∷ r) (datagrams-append xs ys)

-- What a packet of a capture sends: its UDP payload, if that is RTP with one of the two sources.
abbrev pub addressed : List ℕ → Option Label → List (Label × List ℕ)
addressed payload none = []
addressed payload (some label) = (label, payload) ∷ []

abbrev pub parsed : SendConfig → List ℕ → Result ParseError Rtp.Parse.Packet → List (Label × List ℕ)
parsed cfg payload (err e) = []
parsed cfg payload (ok packet) = addressed payload (label_of cfg packet.ssrc)

abbrev pub extracted : SendConfig → Result ExtractError (List ℕ) → List (Label × List ℕ)
extracted cfg (err e) = []
extracted cfg (ok payload) = parsed cfg payload (parse payload)

abbrev pub sends : SendConfig → Read → List (Label × List ℕ)
sends cfg read = extracted cfg (extract_udp_payload read.packet.bytes read.link_type)

abbrev pub all_sends : SendConfig → List Read → List (Label × List ℕ)
all_sends cfg [] = []
all_sends cfg (read ∷ reads) = sends cfg read ++ all_sends cfg reads

-- The packets of the rounds before the context is done.
abbrev pub before_cancel : (ℕ → Bool) → ℕ → List Read → List Read
before_cancel cancelled n [] = []
before_cancel cancelled n (read ∷ reads) =
    let rest = before_cancel cancelled (suc n) reads in if cancelled n then [] else read ∷ rest

abbrev tried : Sender → List (Label × List ℕ)
tried s = datagrams s.actions

tried-sleep_for : (d : ℕ) (s : Sender) → tried (sleep_for d s) ≡ tried s
tried-sleep_for d s =
    if_cases (λ (q : Sender). tried q ≡ tried s) (d == 0) refl
      (datagrams-append s.actions (sleep d ∷ []) ∙ append-nil (tried s))

tried-capture_pacing :
    (ts : ℕ) (prev : Option ℕ) (s : Sender) → tried (capture_pacing ts prev s) ≡ tried s
tried-capture_pacing ts none s = refl
tried-capture_pacing ts (some prev) s = tried-sleep_for (since ts prev) s

tried-pace :
    (mode : PacingMode) (fixed ts : ℕ) (s : Sender) → tried (pace mode fixed ts s) ≡ tried s
tried-pace pacing_capture fixed ts s = tried-capture_pacing ts s.prev_ts s
tried-pace pacing_fast fixed ts s = refl
tried-pace pacing_fixed fixed ts s = tried-sleep_for (positive fixed) s

tried-write_to :
    (delivered : Bool) (label : Label) (payload : List ℕ) (s : Sender)
    → tried (write_to delivered label payload s) ≡ tried s ++ ((label, payload) ∷ [])
unfolding write_to
tried-write_to true label payload s = datagrams-append s.actions (wrote label payload ∷ [])
tried-write_to false label payload s = datagrams-append s.actions (write_failed label payload ∷ [])

module _ (cfg : SendConfig) where
  tried-send_on :
      (delivered : Bool) (ts : ℕ) (payload : List ℕ) (label : Option Label) (s : Sender)
      → tried (send_on cfg delivered ts payload label s) ≡ tried s ++ addressed payload label
  unfolding apply_pacing
  tried-send_on delivered ts payload none s = sym (append-nil (tried s))
  tried-send_on delivered ts payload (some label) s =
      tried-write_to delivered label payload (apply_pacing cfg.pacing ts s)
      ∙ ap (λ (r : List (Label × List ℕ)). r ++ ((label, payload) ∷ []))
          (tried-pace cfg.pacing.mode cfg.pacing.fixed ts s)

  tried-after_parse :
      (delivered : Bool) (ts : ℕ) (payload : List ℕ) (x : Result ParseError Rtp.Parse.Packet)
      (s : Sender)
      → tried (after_parse cfg delivered ts payload x s) ≡ tried s ++ parsed cfg payload x
  tried-after_parse delivered ts payload (err e) s = sym (append-nil (tried s))
  tried-after_parse delivered ts payload (ok packet) s =
      tried-send_on delivered ts payload (label_of cfg packet.ssrc) s

  pub parsed_nothing :
      (payload : List ℕ) → length payload ≡ 0 → parsed cfg payload (parse payload) ≡ []
  unfolding parse
  parsed_nothing payload e = rw e refl

  tried-after_extract :
      (delivered : Bool) (ts : ℕ) (x : Result ExtractError (List ℕ)) (s : Sender)
      → tried (after_extract cfg delivered ts x s) ≡ tried s ++ extracted cfg x
  tried-after_extract delivered ts (err e) s = sym (append-nil (tried s))
  tried-after_extract delivered ts (ok payload) s =
      if_split (λ (q : Sender). tried q ≡ tried s ++ extracted cfg (ok payload))
        (length payload == 0)
        (λ nothing. sym (
          ap (λ (r : List (Label × List ℕ)). tried s ++ r) (parsed_nothing payload (ground arith))
          ∙ append-nil (tried s)))
        (λ something. tried-after_parse delivered ts payload (parse payload) s)

  tried-send_round :
      (delivered : Bool) (read : Read) (s : Sender)
      → tried (send_round cfg delivered read s) ≡ tried s ++ sends cfg read
  unfolding send_round
  tried-send_round delivered read s =
      tried-after_extract delivered read.packet.timestamp
        (extract_udp_payload read.packet.bytes read.link_type) s

-- A replay tries to send the UDP payloads that are RTP packets of the two sources, each to the
-- socket of its source, in the order of the capture, once each and nothing else, whatever the
-- pacing and whichever writes fail, as far as it gets before its context is done.
pub send_loop-sends :
    (cfg : SendConfig) (cancelled delivers : ℕ → Bool) (last : PcapError) (n : ℕ)
    (reads : List Read) (s : Sender)
    → datagrams (send_loop cfg cancelled delivers last n reads s).0.actions
      ≡ datagrams s.actions ++ all_sends cfg (before_cancel cancelled n reads)
unfolding send_loop
send_loop-sends cfg cancelled delivers last n [] s =
    if_cases (λ (r : Sender × Option SendError). datagrams r.0.actions ≡ datagrams s.actions ++ [])
      (cancelled n) (sym (append-nil (tried s)))
      (if_cases
        (λ (r : Sender × Option SendError). datagrams r.0.actions ≡ datagrams s.actions ++ [])
        (is_eof last) (sym (append-nil (tried s))) (sym (append-nil (tried s))))
send_loop-sends cfg cancelled delivers last n (read ∷ reads) s =
    let q = send_round cfg (delivers n) read s in
    let rest = send_loop cfg cancelled delivers last (suc n) reads q in
    let packets = before_cancel cancelled (suc n) reads in
    let later = all_sends cfg packets in
    let continued =
      send_loop-sends cfg cancelled delivers last (suc n) reads q
      ∙ ap (λ (r : List (Label × List ℕ)). r ++ later) (tried-send_round cfg (delivers n) read s)
      ∙ append_assoc (tried s) (sends cfg read) later in
    elim (cancelled n)
      as (λ (done : Bool).
        datagrams (if done then (s, none) else rest).0.actions
        ≡ tried s ++ all_sends cfg (if done then [] else read ∷ packets)) [
          | true ↦ sym (append-nil (tried s))
          | false ↦ continued
        ]
