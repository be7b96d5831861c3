-- ===== src/RtpPeer/Send.antt =====
-- sendLoop and applyPacing of cmd/rtppeer/main.go. What the loop does in the world is the list of
-- its sleeps and writes. Whether its context is done and whether a write fails is told to it round
-- by round.
use rtp_stream_cleaner.Prelude.{
  ℕ, suc, ◌+◌, ◌-◌, ◌%◌, ◌^◌, Bool, not, Option, none, some, List, [], ◌∷◌, ◌++◌, length, ltb, ◌==◌,
  if◌then◌else◌, Result, ok, err,
}
use rtp_stream_cleaner.Rtp.Parse.{ParseError, parse}
use rtp_stream_cleaner.Rtp
use rtp_stream_cleaner.Pcap.{PcapError, is_eof}
use rtp_stream_cleaner.Pcap.Ng.{Reader}
use rtp_stream_cleaner.Pcap.Reader.{Read, open_reader, read_packets}
use rtp_stream_cleaner.RtpPeer.{ExtractError}
use rtp_stream_cleaner.RtpPeer.Extract.{extract_udp_payload}

pub data PacingMode : Type 0 where
  pacing_capture : PacingMode
  pacing_fast : PacingMode
  pacing_fixed : PacingMode

-- `fixed` is the 64-bit word of a number of nanoseconds.
pub record PacingConfig : Type 0 where
  pub mode : PacingMode
  pub fixed : ℕ

pub record SendConfig : Type 0 where
  pub audio_ssrc : ℕ
  pub video_ssrc : ℕ
  pub pacing : PacingConfig

-- The counters of the sending side are at most the packets and bytes of one file, so they stay far
-- below the bound of an int64; those of the receiving side wrap around.
pub record Stats : Type 0 where
  pub sent_audio_pkts : ℕ
  pub sent_video_pkts : ℕ
  pub recv_audio_pkts : ℕ
  pub recv_video_pkts : ℕ
  pub sent_bytes : ℕ
  pub recv_bytes : ℕ
  pub parse_errors : ℕ
  pub send_errors : ℕ

abbrev pub no_stats : Stats
no_stats = record {
  sent_audio_pkts = 0;
  sent_video_pkts = 0;
  recv_audio_pkts = 0;
  recv_video_pkts = 0;
  sent_bytes = 0;
  recv_bytes = 0;
  parse_errors = 0;
  send_errors = 0;
}

pub data Label : Type 0 where
  audio : Label
  video : Label

pub data Action : Type 0 where
  sleep : ℕ → Action
  wrote : Label → List ℕ → Action
  write_failed : Label → List ℕ → Action

pub record Sender : Type 0 where
  pub stats : Stats
  pub prev_ts : Option ℕ
  pub actions : List Action

-- ts.Sub(prev), where it is positive. Times are 64-bit words with a sign, and the difference stops
-- at the greatest Duration.
abbrev pub since : ℕ → ℕ → ℕ
since ts prev =
    let d : ℕ = (ts + 2 ^ 63) % 2 ^ 64 - (prev + 2 ^ 63) % 2 ^ 64 in
    if ltb d (2 ^ 63) then d else 2 ^ 63 - 1

abbrev pub sleep_for : ℕ → Sender → Sender
sleep_for d s = if d == 0 then s else record s { actions = s.actions ++ (sleep d ∷ []) }

-- A duration that is above zero, and zero for the others.
abbrev pub positive : ℕ → ℕ
positive d = if ltb d (2 ^ 63) then d else 0

abbrev pub capture_pacing : ℕ → Option ℕ → Sender → Sender
capture_pacing ts none s = record s { prev_ts = some ts }
capture_pacing ts (some prev) s =
    let slept : Sender = sleep_for (since ts prev) s in record slept { prev_ts = some ts }

abbrev pub pace : PacingMode → ℕ → ℕ → Sender → Sender
pace pacing_fast fixed ts s = s
pace pacing_fixed fixed ts s = sleep_for (positive fixed) s
pace pacing_capture fixed ts s = capture_pacing ts s.prev_ts s

-- The modes are the three that parsePacing returns, so there is no error here.
unfoldable pub apply_pacing : PacingConfig → ℕ → Sender → Sender
apply_pacing cfg ts s = pace cfg.mode cfg.fixed ts s

abbrev pub count_sent : Label → Stats → Stats
count_sent audio t = record t { sent_audio_pkts = t.sent_audio_pkts + 1 }
count_sent video t = record t { sent_video_pkts = t.sent_video_pkts + 1 }

-- conn.WriteToUDP(udpPayload, addr) and what follows it.
unfoldable pub write_to : Bool → Label → List ℕ → Sender → Sender
write_to delivered label payload s =
    if delivered
    then (let t = record (s.stats) { sent_bytes = s.stats.sent_bytes + length payload } in
        record s { stats = count_sent label t; actions = s.actions ++ (wrote label payload ∷ []) })
    else record s {
      stats = record (s.stats) { send_errors = s.stats.send_errors + 1 };
      actions = s.actions ++ (write_failed label payload ∷ []);
    }

abbrev pub parse_error : Sender → Sender
parse_error s = record s { stats = record (s.stats) { parse_errors = s.stats.parse_errors + 1 } }

-- Which of the two sockets a packet belongs to.
abbrev pub label_of : SendConfig → ℕ → Option Label
label_of cfg ssrc =
    if ssrc == cfg.audio_ssrc
    then some audio
    else if ssrc == cfg.video_ssrc
    then some video
    else none

abbrev pub send_on : SendConfig → Bool → ℕ → List ℕ → Option Label → Sender → Sender
send_on cfg delivered ts payload none s = s
send_on cfg delivered ts payload (some label) s =
    write_to delivered label payload (apply_pacing cfg.pacing ts s)

abbrev pub after_parse :
    SendConfig → Bool → ℕ → List ℕ → Result ParseError Rtp.Parse.Packet → Sender → Sender
after_parse cfg delivered ts payload (err e) s = parse_error s
after_parse cfg delivered ts payload (ok packet) s =
    send_on cfg delivered ts payload (label_of cfg packet.ssrc) s

abbrev pub after_extract : SendConfig → Bool → ℕ → Result ExtractError (List ℕ) → Sender → Sender
after_extract cfg delivered ts (err e) s = parse_error s
after_extract cfg delivered ts (ok payload) s =
    if length payload == 0 then s else after_parse cfg delivered ts payload (parse payload) s

-- A round of the loop, after the read of its packet.
unfoldable pub send_round : SendConfig → Bool → Read → Sender → Sender
send_round cfg delivered read s =
    after_extract cfg delivered read.packet.timestamp
      (extract_udp_payload read.packet.bytes read.link_type) s

pub data SendError : Type 0 where
  resolve_audio_to : SendError
  resolve_video_to : SendError
  capture_file : PcapError → SendError

-- The loop over what the reader returns, from round n on.
module _ (cfg : SendConfig) (cancelled delivers : ℕ → Bool) (last : PcapError) where
  unfoldable pub send_loop : ℕ → List Read → Sender → Sender × Option SendError
  send_loop n [] s =
      if cancelled n
      then (s, none)
      else if is_eof last
      then (s, none)
      else (s, some (capture_file last))
  send_loop n (read ∷ reads) s =
      let rest = send_loop (suc n) reads (send_round cfg (delivers n) read s) in
      if cancelled n then (s, none) else rest

abbrev pub new_sender : Sender
new_sender = record { stats = no_stats; prev_ts = none; actions = [] }

abbrev pub after_open :
    SendConfig → (ℕ → Bool) → (ℕ → Bool) → Result PcapError Reader → Sender × Option SendError
after_open cfg cancelled delivers (err e) = (new_sender, some (capture_file e))
after_open cfg cancelled delivers (ok r) =
    let (reads, last) = read_packets r in send_loop cfg cancelled delivers last 0 reads new_sender

-- The whole of sendLoop, on a file, with the answers to whether the two addresses resolve.
unfoldable pub send_file :
    SendConfig → Bool → Bool → (ℕ → Bool) → (ℕ → Bool) → List ℕ → Sender × Option SendError
send_file cfg audio_resolves video_resolves cancelled delivers file =
    if not audio_resolves
    then (new_sender, some resolve_audio_to)
    else if not video_resolves
    then (new_sender, some resolve_video_to)
    else after_open cfg cancelled delivers (open_reader file)
