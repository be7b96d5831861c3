-- ===== src/Video/Invariant.antt =====
-- The state of the frame pipeline between two packets, and that the steps of the buffer keep it.
use rtp_stream_cleaner.Prelude.{
  ℕ, ◌<◌, ◌≡◌, refl, Bool, true, false, not, ◌&&◌, Option-cases, List, [], ◌∷◌, ◌++◌, All,
  All-append, if◌then◌else◌, if_cases, arith, inl, inr,
}
use rtp_stream_cleaner.Bytes.{IsByte}
use rtp_stream_cleaner.Net.{UdpAddr}
use rtp_stream_cleaner.Rtp.{parse_rtp_header}
use rtp_stream_cleaner.Rtp.Header.{parse_rtp_header-IsWellFormed}
use rtp_stream_cleaner.Rtp.H264.{is_frame_end}
use rtp_stream_cleaner.Video.{VideoProxy}
use rtp_stream_cleaner.Video.Timestamp.{next_frame_timestamp}
use rtp_stream_cleaner.Video.Frame.{
  is_empty, listed, start_frame_buffer, buffer_frame_packet, append_pending_to_frame_buffer,
  flush_frame_buffer, flush_on_timeout,
}
use rtp_stream_cleaner.Video.Handle.{H264Packet, open_frame, add_to_frame}
use rtp_stream_cleaner.Video.Flushed.{
  SameFrame, inject_cached_parameter_sets-SameFrame, flush_packets-Sent, flush_frame_buffer_set,
}

abbrev pub Packets : List (List ℕ) → Type 0
Packets = All (All IsByte)

-- What holds at every moment: stored packets are bytes, timestamps have 32 bits.
pub record IsSound (p : VideoProxy) : Type 0 where
  pub buffered : Packets p.frame_buffer
  pub waiting_sps : Packets (listed p.pending_sps)
  pub waiting_pps : Packets (listed p.pending_pps)
  pub frame_range : p.frame_ts < 4294967296
  pub current_range : p.current_frame_ts < 4294967296

-- What holds between packets besides: a frame is open just when packets are buffered, and just
-- when its timestamp is set.
pub record IsValid (p : VideoProxy) : Type 0 where
  pub sound : IsSound p
  pub active_full : p.frame_buffer_active ≡ not (is_empty p.frame_buffer)
  pub active_set : p.frame_buffer_active ≡ p.current_frame_ts_set

pub SameFrame-IsSound : (p q : VideoProxy) → SameFrame p q → IsSound p → IsSound q
SameFrame-IsSound p q h s = ground arith

pub SameFrame-IsValid : (p q : VideoProxy) → SameFrame p q → IsValid p → IsValid q
SameFrame-IsValid p q h v = ground arith

-- A flush of a frame with packets closes it.
pub flush_frame_buffer-IsValid :
    (p : VideoProxy) (now : ℕ) (dest : UdpAddr) (forced : Bool)
    → IsSound p
    → is_empty p.frame_buffer ≡ false
    → p.current_frame_ts_set ≡ true
    → IsValid (flush_frame_buffer p now dest forced)
flush_frame_buffer-IsValid p now dest forced s full set_before =
    let sent = flush_packets-Sent p p.frame_buffer p.current_frame_ts dest in
    rw (flush_frame_buffer_set p now dest forced full set_before) (ground arith)

pub flush_on_timeout-IsValid :
    (p : VideoProxy) (now : ℕ) (dest : UdpAddr) → IsValid p → IsValid (flush_on_timeout p now dest)
unfolding flush_on_timeout
flush_on_timeout-IsValid p now dest v = ground (arith, flush_frame_buffer-IsValid p now dest true)

next_frame_timestamp-range :
    (p : VideoProxy) (now : ℕ) (packet : List ℕ)
    → All IsByte packet
    → p.frame_ts < 4294967296
    → ((next_frame_timestamp p now packet).1 < 4294967296)
      × ((next_frame_timestamp p now packet).0.frame_ts < 4294967296)
unfolding next_frame_timestamp
next_frame_timestamp-range p now packet bytes fits = elim (Option-cases (parse_rtp_header packet)) [
  | inl e ↦ (ground arith, ground arith)
  | inr (h, e) ↦
      let shape = parse_rtp_header-IsWellFormed packet h bytes e in (ground arith, ground arith)
]

-- A new timestamp touches nothing but the timestamp state.
pub record Stamped (p q : VideoProxy) : Type 0 where
  pub same_config : q.config ≡ p.config
  pub same_counters : q.counters ≡ p.counters
  pub same_wire : q.wire ≡ p.wire
  pub same_buffer : q.frame_buffer ≡ p.frame_buffer
  pub same_start : q.frame_buffer_start ≡ p.frame_buffer_start
  pub same_active : q.frame_buffer_active ≡ p.frame_buffer_active
  pub same_pending_sps : q.pending_sps ≡ p.pending_sps
  pub same_pending_pps : q.pending_pps ≡ p.pending_pps
  pub same_cached_sps : q.cached_sps ≡ p.cached_sps
  pub same_cached_pps : q.cached_pps ≡ p.cached_pps
  pub same_delta : q.seq_delta ≡ p.seq_delta
  pub same_last_seq : q.last_out_seq ≡ p.last_out_seq
  pub same_has_seq : q.has_last_out_seq ≡ p.has_last_out_seq

pub next_frame_timestamp-Stamped :
    (p : VideoProxy) (now : ℕ) (packet : List ℕ) → Stamped p (next_frame_timestamp p now packet).0
unfolding next_frame_timestamp
next_frame_timestamp-Stamped p now packet = ground arith

-- A frame that was just opened: its timestamp is set, whatever is in it.
pub record IsOpen (p : VideoProxy) : Type 0 where
  pub sound : IsSound p
  pub active : p.frame_buffer_active ≡ true
  pub stamped : p.current_frame_ts_set ≡ true

start_frame_buffer-IsOpen :
    (p : VideoProxy) (now : ℕ) (packet : List ℕ)
    → All IsByte packet
    → IsSound p
    → IsOpen (start_frame_buffer p now packet)
unfolding start_frame_buffer
start_frame_buffer-IsOpen p now packet bytes s =
    let r = record p { frame_buffer = []; frame_buffer_start = now; frame_buffer_active = true } in
    let kept = next_frame_timestamp-Stamped r now packet in
    let range = next_frame_timestamp-range r now packet bytes s.frame_range in ground arith

pub SameFrame-IsOpen : (p q : VideoProxy) → SameFrame p q → IsOpen p → IsOpen q
SameFrame-IsOpen p q h o = ground arith

Packets-append : (xs ys : List (List ℕ)) → Packets xs → Packets ys → Packets (xs ++ ys)
Packets-append = All-append (All IsByte)

append_pending-IsOpen : (p : VideoProxy) → IsOpen p → IsOpen (append_pending_to_frame_buffer p)
unfolding append_pending_to_frame_buffer
append_pending-IsOpen p o = record {
  sound = record {
    buffered =
        Packets-append (p.frame_buffer ++ listed p.pending_sps) (listed p.pending_pps)
          (Packets-append p.frame_buffer (listed p.pending_sps) o.sound.buffered
            o.sound.waiting_sps)
          o.sound.waiting_pps;
    waiting_sps = tt;
    waiting_pps = tt;
    frame_range = o.sound.frame_range;
    current_range = o.sound.current_range;
  };
  active = o.active;
  stamped = o.stamped;
}

pub open_frame-IsOpen :
    (p : VideoProxy) (i : H264Packet) (packet : List ℕ) (dest : UdpAddr) (now : ℕ)
    → All IsByte packet
    → IsValid p
    → IsOpen (open_frame p i packet dest now)
unfolding open_frame
open_frame-IsOpen p i packet dest now bytes v =
    let flushed : VideoProxy =
      if p.frame_buffer_active && not (is_empty p.frame_buffer)
      then flush_frame_buffer p now dest false
      else p in
    let fv : IsValid flushed = ground (arith, flush_frame_buffer-IsValid p now dest false) in
    let started = start_frame_buffer flushed now packet in
    let so : IsOpen started = start_frame_buffer-IsOpen flushed now packet bytes fv.sound in
    append_pending-IsOpen _ (
      if_cases IsOpen i.info.is_idr
        (SameFrame-IsOpen started _ (inject_cached_parameter_sets-SameFrame started i.header dest)
          so)
        so)

-- A frame that takes a packet is full, and is valid again.
is_empty-append : (xs : List (List ℕ)) (x : List ℕ) → is_empty (xs ++ (x ∷ [])) ≡ false
is_empty-append [] x = refl
is_empty-append (y ∷ ys) x = refl

pub buffer_frame_packet-IsValid :
    (p : VideoProxy) (packet : List ℕ)
    → All IsByte packet
    → IsOpen p
    → IsValid (buffer_frame_packet p packet)
unfolding buffer_frame_packet
buffer_frame_packet-IsValid p packet bytes o = record {
  sound = record {
    buffered = Packets-append p.frame_buffer (packet ∷ []) o.sound.buffered (bytes, tt);
    waiting_sps = o.sound.waiting_sps;
    waiting_pps = o.sound.waiting_pps;
    frame_range = o.sound.frame_range;
    current_range = o.sound.current_range;
  };
  active_full = ground (arith, is_empty-append p.frame_buffer packet);
  active_set = ground arith;
}

pub buffered_full :
    (p : VideoProxy) (packet : List ℕ)
    → is_empty (buffer_frame_packet p packet).frame_buffer ≡ false
unfolding buffer_frame_packet
buffered_full p packet = is_empty-append p.frame_buffer packet

pub buffered_stamped :
    (p : VideoProxy) (packet : List ℕ)
    → p.current_frame_ts_set ≡ true
    → (buffer_frame_packet p packet).current_frame_ts_set ≡ true
unfolding buffer_frame_packet
buffered_stamped p packet h = h

pub add_to_frame-IsValid :
    (p : VideoProxy) (i : H264Packet) (packet : List ℕ) (dest : UdpAddr) (now : ℕ)
    → All IsByte packet
    → IsOpen p
    → IsValid (add_to_frame p i packet dest now)
unfolding add_to_frame
add_to_frame-IsValid p i packet dest now bytes o =
    let q = buffer_frame_packet p packet in
    let v : IsValid q = buffer_frame_packet-IsValid p packet bytes o in
    if_cases IsValid (is_frame_end i.info)
      (flush_frame_buffer-IsValid q now dest false v.sound (buffered_full p packet)
        (buffered_stamped p packet o.stamped))
      v
