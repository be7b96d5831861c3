-- ===== src/Video/Flushed.antt =====
-- What goes out when packets are sent and a frame is flushed, read back by the header parse.
use mathlib.Core.List.{map, map-append}
use rtp_stream_cleaner.Prelude
use rtp_stream_cleaner.Prelude.{
  ℕ, ◌+◌, ◌%◌, ◌<◌, ◌≡◌, ◌∙◌, sym, refl, ap, Bool, true, false, Option, Option-cases, none, some,
  List, [], ◌∷◌, ◌++◌, append_assoc, append-nil, All, drop, drop-drop, length, ltb, if◌then◌else◌,
  arith, inl, inr, List-cases, Bool-cases, not,
}
use rtp_stream_cleaner.Prelude.Words.{add16}
use rtp_stream_cleaner.Bytes.{IsByte, be16}
use rtp_stream_cleaner.Net.{UdpAddr, Write}
use rtp_stream_cleaner.Rtp.{RtpHeader, parse_rtp_header}
use rtp_stream_cleaner.Rtp.Header.{parse_rtp_header-seq}
use rtp_stream_cleaner.Rtp.Rewrite.{
  drop-set_seq, drop-set_marker, drop-set_timestamp, set_seq, set_marker, set_timestamp, with_seq,
  with_marker, with_ts, parse_rtp_header-set_seq, parse_rtp_header-set_marker,
  parse_rtp_header-set_timestamp,
}
use rtp_stream_cleaner.Video.{VideoProxy}
use rtp_stream_cleaner.Video.Output.{
  accepts, send_packet, send_cached, send_injected_packet, ensure_seq_baseline,
  inject_cached_parameter_sets, inject_cases,
}
use rtp_stream_cleaner.Video.Frame.{is_empty, flush_packets, finish_flush, flush_frame_buffer}

-- What stands on the wire, as headers and as the bytes behind the rewritten fields.
abbrev pub headers : List Write → List (Option RtpHeader)
headers = map λ w. parse_rtp_header w.packet

abbrev pub bodies : List Write → List (List ℕ)
bodies = map λ w. drop 8 w.packet

-- The packet that sendPacket hands to the network.
abbrev pub outgoing : VideoProxy → List ℕ → List ℕ
outgoing p packet =
    if p.config.inject_cached_sps_pps
    then set_seq packet (add16 (be16 packet 2) p.seq_delta)
    else packet

pub send_packet-wire :
    (p : VideoProxy) (packet : List ℕ) (dest : UdpAddr)
    → (send_packet p packet dest).wire
      ≡ p.wire
        ++ (record {
          packet = outgoing p packet;
          dest = dest;
          delivered = accepts p (outgoing p packet) dest;
        }
            ∷ [])
unfolding send_packet set_seq
send_packet-wire p packet dest = ground arith

-- What sending and injecting leave alone: all but the wire, the counters and the sequence numbers.
pub record SameFrame (p q : VideoProxy) : Type 0 where
  pub same_config : q.config ≡ p.config
  pub same_buffer : q.frame_buffer ≡ p.frame_buffer
  pub same_start : q.frame_buffer_start ≡ p.frame_buffer_start
  pub same_active : q.frame_buffer_active ≡ p.frame_buffer_active
  pub same_clock : q.last_frame_sent_time ≡ p.last_frame_sent_time
  pub same_frame_ts : q.frame_ts ≡ p.frame_ts
  pub same_initialized : q.frame_ts_initialized ≡ p.frame_ts_initialized
  pub same_ts : q.current_frame_ts ≡ p.current_frame_ts
  pub same_ts_set : q.current_frame_ts_set ≡ p.current_frame_ts_set
  pub same_pending_sps : q.pending_sps ≡ p.pending_sps
  pub same_pending_pps : q.pending_pps ≡ p.pending_pps
  pub same_cached_sps : q.cached_sps ≡ p.cached_sps
  pub same_cached_pps : q.cached_pps ≡ p.cached_pps

pub SameFrame-trans : (p q r : VideoProxy) → SameFrame p q → SameFrame q r → SameFrame p r
SameFrame-trans p q r h k = ground arith

-- Sending keeps the shift of the sequence numbers too.
pub record Sent (p q : VideoProxy) : Type 0 where
  pub frame : SameFrame p q
  pub open frame use *
  pub same_delta : q.seq_delta ≡ p.seq_delta

pub Sent-refl : (p : VideoProxy) → Sent p p
Sent-refl p = ground arith

pub Sent-trans : (p q r : VideoProxy) → Sent p q → Sent q r → Sent p r
Sent-trans p q r h k = record {
  frame = SameFrame-trans p q r h.frame k.frame;
  same_delta = k.same_delta ∙ h.same_delta;
}

pub send_packet-Sent :
    (p : VideoProxy) (packet : List ℕ) (dest : UdpAddr) → Sent p (send_packet p packet dest)
unfolding send_packet
send_packet-Sent p packet dest = ground arith

pub flush_packets-Sent :
    (p : VideoProxy) (xs : List (List ℕ)) (ts : ℕ) (dest : UdpAddr)
    → Sent p (flush_packets p xs ts dest)
unfolding flush_packets
flush_packets-Sent p [] ts dest = Sent-refl p
flush_packets-Sent p (x ∷ xs) ts dest =
    let y = set_timestamp (set_marker x (is_empty xs)) ts in
    let q = send_packet p y dest in
    Sent-trans p q _ (send_packet-Sent p y dest) (flush_packets-Sent q xs ts dest)

pub send_injected_packet-SameFrame :
    (p : VideoProxy) (payload : List ℕ) (h : RtpHeader) (dest : UdpAddr) (is_sps : Bool)
    → SameFrame p (send_injected_packet p payload h dest is_sps)
unfolding send_injected_packet
send_injected_packet-SameFrame p payload h dest is_sps = ground arith

pub ensure_seq_baseline-SameFrame :
    (p : VideoProxy) (seq : ℕ) → SameFrame p (ensure_seq_baseline p seq)
unfolding ensure_seq_baseline
ensure_seq_baseline-SameFrame p seq = ground arith

send_cached-SameFrame :
    (p : VideoProxy) (o : Option (List ℕ)) (h : RtpHeader) (dest : UdpAddr) (is_sps : Bool)
    → SameFrame p (send_cached p o h dest is_sps)
send_cached-SameFrame p none h dest is_sps = (Sent-refl p).frame
send_cached-SameFrame p (some payload) h dest is_sps =
    send_injected_packet-SameFrame p payload h dest is_sps

pub inject_cached_parameter_sets-SameFrame :
    (p : VideoProxy) (h : RtpHeader) (dest : UdpAddr)
    → SameFrame p (inject_cached_parameter_sets p h dest)
inject_cached_parameter_sets-SameFrame p h dest =
    let based = ensure_seq_baseline p h.seq in
    let with_sps = send_cached based based.cached_sps h dest true in
    let with_both = send_cached with_sps with_sps.cached_pps h dest false in
    let all_sent : SameFrame p with_both =
      SameFrame-trans p based with_both (ensure_seq_baseline-SameFrame p h.seq) (
        SameFrame-trans based with_sps with_both
          (send_cached-SameFrame based based.cached_sps h dest true)
          (send_cached-SameFrame with_sps with_sps.cached_pps h dest false)) in
    inject_cases (SameFrame p) p h dest (Sent-refl p).frame all_sent

-- A header as it leaves: with injection on, its number is moved by the packets injected so far.
abbrev pub renumbered : VideoProxy → RtpHeader → RtpHeader
renumbered p h = record h {
  seq = if p.config.inject_cached_sps_pps then add16 h.seq p.seq_delta else h.seq;
}

-- A header of a finished frame.
abbrev pub finished : VideoProxy → Bool → ℕ → RtpHeader → RtpHeader
finished p last ts h = renumbered p (record h { marker = last; ts = ts })

-- The headers of a frame: the marker on the last packet only, one timestamp on all.
abbrev pub framed : VideoProxy → ℕ → List (List ℕ) → List (Option RtpHeader)
framed p ts [] = []
framed p ts (packet ∷ rest) =
    Prelude.Option.map (finished p (is_empty rest) ts) (parse_rtp_header packet) ∷ framed p ts rest

outgoing_header :
    (p : VideoProxy) (packet : List ℕ)
    → parse_rtp_header (outgoing p packet)
      ≡ Prelude.Option.map (renumbered p) (parse_rtp_header packet)
outgoing_header p packet = elim (Option-cases (parse_rtp_header packet)) [
  | inl e ↦ ground (arith, number)
  | inr (h, e) ↦ ground (arith, number, parse_rtp_header-seq packet h e)
]
  where
    number :
        parse_rtp_header (set_seq packet (add16 (be16 packet 2) p.seq_delta))
        ≡ Prelude.Option.map
            (with_seq (add16 (be16 packet 2) p.seq_delta))
            (parse_rtp_header packet)
    number = (parse_rtp_header-set_seq packet (add16 (be16 packet 2) p.seq_delta) (omega arith)).0

drop_eight : (n m : ℕ) (xs ys : List ℕ) → drop n xs ≡ drop n ys → drop (n + m) xs ≡ drop (n + m) ys
drop_eight n m xs ys h = sym (drop-drop n m xs) ∙ (ap (drop m) h ∙ drop-drop n m ys)

pub outgoing_body : (p : VideoProxy) (packet : List ℕ) → drop 8 (outgoing p packet) ≡ drop 8 packet
outgoing_body p packet = ground (
  arith,
  drop_eight 4 4 (set_seq packet (add16 (be16 packet 2) p.seq_delta)) packet
      (drop-set_seq packet (add16 (be16 packet 2) p.seq_delta)),
)

finished_body :
    (p : VideoProxy) (packet : List ℕ) (last : Bool) (ts : ℕ)
    → drop 8 (outgoing p (set_timestamp (set_marker packet last) ts)) ≡ drop 8 packet
finished_body p packet last ts =
    let marked = set_marker packet last in
    outgoing_body p (set_timestamp marked ts)
    ∙ (drop-set_timestamp marked ts ∙ drop_eight 2 6 marked packet (drop-set_marker packet last))

finished_header :
    (p : VideoProxy) (packet : List ℕ) (last : Bool) (ts : ℕ)
    → All IsByte packet
    → ts < 4294967296
    → parse_rtp_header (outgoing p (set_timestamp (set_marker packet last) ts))
      ≡ Prelude.Option.map (finished p last ts) (parse_rtp_header packet)
finished_header p packet last ts bytes fits =
    rw
      (
        outgoing_header p (set_timestamp (set_marker packet last) ts),
        (parse_rtp_header-set_timestamp (set_marker packet last) ts fits).0,
        (parse_rtp_header-set_marker packet bytes last).0,
      )
      (map_map (parse_rtp_header packet))
  where
    map_map :
        (o : Option RtpHeader)
        → Prelude.Option.map
            (renumbered p)
            (Prelude.Option.map (with_ts ts) (Prelude.Option.map (with_marker last) o))
          ≡ Prelude.Option.map (finished p last ts) o
    map_map none = refl
    map_map (some h) = refl

module _ (p : VideoProxy) (q : VideoProxy) (same : Sent p q) where
  framed-Sent : (ts : ℕ) (xs : List (List ℕ)) → framed q ts xs ≡ framed p ts xs
  framed-Sent ts [] = refl
  framed-Sent ts (x ∷ xs) = rw (same.same_config, same.same_delta, framed-Sent ts xs)

module _ (p : VideoProxy) (packet : List ℕ) (dest : UdpAddr) where
  pub send_packet-headers :
      headers (send_packet p packet dest).wire
      ≡ headers p.wire ++ (parse_rtp_header (outgoing p packet) ∷ [])
  send_packet-headers =
      rw (send_packet-wire p packet dest) (map-append (λ w. parse_rtp_header w.packet) p.wire _)

  pub send_packet-bodies :
      bodies (send_packet p packet dest).wire ≡ bodies p.wire ++ (drop 8 (outgoing p packet) ∷ [])
  send_packet-bodies =
      rw (send_packet-wire p packet dest) (map-append (λ w. drop 8 w.packet) p.wire _)

pub flush_packets-wire :
    (p : VideoProxy) (xs : List (List ℕ)) (ts : ℕ) (dest : UdpAddr)
    → All (All IsByte) xs
    → ts < 4294967296
    → (headers (flush_packets p xs ts dest).wire ≡ headers p.wire ++ framed p ts xs)
      × (bodies (flush_packets p xs ts dest).wire ≡ bodies p.wire ++ map (drop 8) xs)
unfolding flush_packets
flush_packets-wire p [] ts dest bytes fits = (sym (append-nil _), sym (append-nil _))
flush_packets-wire p (x ∷ xs) ts dest bytes fits =
    let y = set_timestamp (set_marker x (is_empty xs)) ts in
    let q = send_packet p y dest in
    let (h, b) = flush_packets-wire q xs ts dest bytes.1 fits in
    (
      h
          ∙ rw
              (
                send_packet-headers p y dest,
                framed-Sent p q (send_packet-Sent p y dest) ts xs,
                finished_header p x (is_empty xs) ts bytes.0 fits,
              )
              (append_assoc (headers p.wire) _ _),
      b
          ∙ rw (send_packet-bodies p y dest, finished_body p x (is_empty xs) ts)
              (append_assoc (bodies p.wire) _ _),
    )

-- The flush of a frame with packets and a timestamp is the loop and its bookkeeping.
pub flush_frame_buffer_set :
    (p : VideoProxy) (now : ℕ) (dest : UdpAddr) (forced : Bool)
    → is_empty p.frame_buffer ≡ false
    → p.current_frame_ts_set ≡ true
    → flush_frame_buffer p now dest forced
      ≡ finish_flush (flush_packets p p.frame_buffer p.current_frame_ts dest) forced
unfolding flush_frame_buffer
flush_frame_buffer_set p now dest forced full set_before = ground arith

-- A flush of a frame that holds packets of bytes and has its 32-bit timestamp puts the buffered
-- packets on the wire, in their order and each once. Every header keeps its fields but for three:
-- the marker is set on the last packet, be it a slice or a parameter set, and on no other; the
-- timestamp is the frame's on all; and the sequence number moves by the proxy's seq_delta where
-- the injection of parameter sets is on and stays as it is otherwise. No byte behind the timestamp
-- changes. The frame is then closed.
pub flush_frame_buffer-wire :
    (p : VideoProxy) (now : ℕ) (dest : UdpAddr) (forced : Bool)
    → All (All IsByte) p.frame_buffer
    → p.current_frame_ts < 4294967296
    → is_empty p.frame_buffer ≡ false
    → p.current_frame_ts_set ≡ true
    → let q = flush_frame_buffer p now dest forced in
      (headers q.wire ≡ headers p.wire ++ framed p p.current_frame_ts p.frame_buffer)
      × (bodies q.wire ≡ bodies p.wire ++ map (drop 8) p.frame_buffer)
      × (q.frame_buffer ≡ [])
      × (q.frame_buffer_active ≡ false)
flush_frame_buffer-wire p now dest forced bytes fits full set_before =
    let (h, b) = flush_packets-wire p p.frame_buffer p.current_frame_ts dest bytes fits in
    rw (flush_frame_buffer_set p now dest forced full set_before) (h, b, refl, refl)
