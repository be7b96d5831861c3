-- ===== src/Video/Output.antt =====
-- sendPacket, forwardRawPacket, rewriteSeqForOutput, ensureSeqBaseline and sendInjectedPacket of
-- internal/session/video_proxy.go: everything that calls writeToDest.
use rtp_stream_cleaner.Prelude.{
  ℕ, Bool, true, false, not, ◌&&◌, ◌||◌, List, [], ◌∷◌, ◌++◌, length, bit_and, ltb, if◌then◌else◌,
  if_cases,
}
use rtp_stream_cleaner.Prelude.{Option, none, some}
use rtp_stream_cleaner.Prelude.Words.{add16, sub16, add64}
use rtp_stream_cleaner.Bytes.{be16, put_be16, put_be32}
use rtp_stream_cleaner.Net.{UdpAddr}
use rtp_stream_cleaner.Rtp.{RtpHeader}
use rtp_stream_cleaner.Rtp.Rewrite.{set_seq}
use rtp_stream_cleaner.Video.{VideoProxy}

-- Is the next write going to succeed?
abbrev pub accepts : VideoProxy → List ℕ → UdpAddr → Bool
accepts p packet dest = p.config.write_to_dest p.wire packet dest

-- The call of writeToDest itself.
abbrev pub written : VideoProxy → List ℕ → UdpAddr → VideoProxy
written p packet dest = record p {
  wire =
      p.wire ++ (record { packet = packet; dest = dest; delivered = accepts p packet dest } ∷ []);
}

abbrev pub count_drop : VideoProxy → VideoProxy
count_drop p = record p { counters = record c { drops = add64 c.drops 1 } }
  where
    open p use {counters as c}

abbrev pub count_b_out : VideoProxy → ℕ → VideoProxy
count_b_out p size = record p {
  counters = record c { b_out_pkts = add64 c.b_out_pkts 1; b_out_bytes = add64 c.b_out_bytes size };
}
  where
    open p use {counters as c}

unfoldable pub forward_raw_packet : VideoProxy → List ℕ → UdpAddr → VideoProxy
forward_raw_packet p packet dest =
    if not (accepts p packet dest)
    then count_drop (written p packet dest)
    else count_b_out (written p packet dest) (length packet)

-- The packet that leaves, and the bookkeeping of sequence numbers.
unfoldable pub rewrite_seq_for_output : VideoProxy → List ℕ → VideoProxy × List ℕ
rewrite_seq_for_output p packet =
    if ltb (length packet) 4
    then (p, packet)
    else (let seq_out : ℕ = add16 (be16 packet 2) p.seq_delta in
        (record p { last_out_seq = seq_out; has_last_out_seq = true }, set_seq packet seq_out))

unfoldable pub send_packet : VideoProxy → List ℕ → UdpAddr → VideoProxy
unfolding forward_raw_packet rewrite_seq_for_output
send_packet p packet dest =
    if p.config.inject_cached_sps_pps
    then (let (q, rewritten) = rewrite_seq_for_output p packet in
        forward_raw_packet q rewritten dest)
    else forward_raw_packet p packet dest

unfoldable pub ensure_seq_baseline : VideoProxy → ℕ → VideoProxy
ensure_seq_baseline p seq =
    if p.has_last_out_seq
    then p
    else record p { last_out_seq = sub16 seq 1; has_last_out_seq = true }

-- Twelve zero bytes with the header's fields written over them, then the payload.
unfoldable pub injected_packet : VideoProxy → List ℕ → RtpHeader → List ℕ
injected_packet p payload header =
    put_be32
      (put_be32
        (put_be16 (0x80 ∷ bit_and header.pt 0x7f ∷ 0 ∷ 0 ∷ 0 ∷ 0 ∷ 0 ∷ 0 ∷ 0 ∷ 0 ∷ 0 ∷ 0 ∷ payload)
          2 (add16 p.last_out_seq 1))
        4 p.current_frame_ts)
      8 header.ssrc

-- What a delivered injection changes: the last number sent, the shift of all later ones, counters.
abbrev pub count_injected : VideoProxy → ℕ → Bool → VideoProxy
count_injected p seq is_sps = record p {
  last_out_seq = seq;
  has_last_out_seq = true;
  seq_delta = add16 p.seq_delta 1;
  counters = record c {
    video_seq_delta = add16 p.seq_delta 1;
    video_injected_sps = if is_sps then add64 c.video_injected_sps 1 else c.video_injected_sps;
    video_injected_pps = if is_sps then c.video_injected_pps else add64 c.video_injected_pps 1;
  };
}
  where
    open p use {counters as c}

unfoldable pub send_injected_packet : VideoProxy → List ℕ → RtpHeader → UdpAddr → Bool → VideoProxy
unfolding injected_packet
send_injected_packet p payload header dest is_sps =
    let seq : ℕ = add16 p.last_out_seq 1 in
    let packet = injected_packet p payload header in
    if not (accepts p packet dest)
    then count_drop (written p packet dest)
    else count_injected (count_b_out (written p packet dest) (length packet)) seq is_sps

abbrev pub send_cached : VideoProxy → Option (List ℕ) → RtpHeader → UdpAddr → Bool → VideoProxy
send_cached p none header dest is_sps = p
send_cached p (some payload) header dest is_sps = send_injected_packet p payload header dest is_sps

abbrev is_nil : Option (List ℕ) → Bool
is_nil none = true
is_nil (some packet) = false

unfoldable pub inject_cached_parameter_sets : VideoProxy → RtpHeader → UdpAddr → VideoProxy
inject_cached_parameter_sets p header dest =
    if not p.config.inject_cached_sps_pps
    then p
    else if not (is_nil p.pending_sps) || not (is_nil p.pending_pps)
    then p
    else if is_nil p.cached_sps && is_nil p.cached_pps
    then p
    else (let based = ensure_seq_baseline p header.seq in
        let with_sps = send_cached based based.cached_sps header dest true in
        send_cached with_sps with_sps.cached_pps header dest false)

-- The two outcomes: nothing happens, or the cached sets go out behind a baseline.
pub inject_cases {ℓ} :
    (P : VideoProxy → Type ℓ) (p : VideoProxy) (header : RtpHeader) (dest : UdpAddr)
    → P p
    → (let based = ensure_seq_baseline p header.seq in
        let with_sps = send_cached based based.cached_sps header dest true in
        P (send_cached with_sps with_sps.cached_pps header dest false))
    → P (inject_cached_parameter_sets p header dest)
unfolding inject_cached_parameter_sets
inject_cases P p header dest idle sent = if_cases P (not p.config.inject_cached_sps_pps) idle (
    if_cases P (not (is_nil p.pending_sps) || not (is_nil p.pending_pps)) idle
      (if_cases P (is_nil p.cached_sps && is_nil p.cached_pps) idle sent))
