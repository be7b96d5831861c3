-- ===== src/RtpPeer/OnTime.antt =====
-- The clock of a sender that replays a capture with the pacing of the capture.
use mathlib.Core.List.{map, map-append}
use rtp_stream_cleaner.Prelude.{
  ℕ, suc, ◌+◌, ◌-◌, ◌≤◌, ◌<◌, ◌^◌, ◌≡◌, sym, ap, ◌∙◌, Bool, true, false, Option, none, some, List,
  [], ◌∷◌, ◌++◌, append-nil, append_assoc, if◌then◌else◌, arith, if_cases,
}
use rtp_stream_cleaner.Pcap.{PcapError, is_eof}
use rtp_stream_cleaner.Pcap.Reader.{Read}
use rtp_stream_cleaner.RtpPeer.Send.{
  pacing_capture, SendConfig, Label, Sender, since, send_round, send_loop, SendError,
}
use rtp_stream_cleaner.RtpPeer.Sent.{sends, before_cancel}
use rtp_stream_cleaner.RtpPeer.Schedule.{
  slept, Timed, times, stamp, stamped, after, since_first, Ascending, Ascending-from, pause, Acts,
  send_round-Acts,
}

since_forward : (ts p : ℕ) → p ≤ ts → ts < 2 ^ 63 → since ts p ≡ ts - p
since_forward ts p up small = ground arith

-- Once a datagram was due at `start`, a sender has slept the time since then.
record IsOnTime (start p : ℕ) (s : Sender) : Type 0 where
  remembers : s.prev_ts ≡ some p
  started : start ≤ p
  small : p < 2 ^ 63
  clock : slept s.actions ≡ p - start

Acts-IsOnTime :
    (start p ts : ℕ) (s q : Sender) (xs : List (Label × List ℕ))
    → IsOnTime start p s
    → p ≤ ts
    → ts < 2 ^ 63
    → Acts ts s xs q
    → ((n : ℕ) × (n ≤ ts) × IsOnTime start n q)
      × (times 0 q.actions ≡ times 0 s.actions ++ map (after start) (stamp ts xs))
Acts-IsOnTime start p ts s q [] o up small (same, prev) =
    let on_time : IsOnTime start p q = record {
      remembers = prev ∙ o.remembers;
      started = o.started;
      small = o.small;
      clock = ap slept same ∙ o.clock;
    } in
    ((p, up, on_time), ap (times 0) same ∙ sym (append-nil (times 0 s.actions)))
Acts-IsOnTime start p ts s q (x ∷ more) o up small (only, prev, longer, there) =
    let waits : pause ts s.prev_ts ≡ ts - p =
      ap (pause ts) o.remembers ∙ since_forward ts p up small in
    let clock : slept s.actions + pause ts s.prev_ts ≡ ts - start =
      omega (arith, waits, o.clock, o.started) in
    let on_time : IsOnTime start ts q = record {
      remembers = prev;
      started = omega (arith, o.started);
      small = small;
      clock = longer ∙ clock;
    } in
    (
      (ts, omega arith, on_time),
      there
          ∙ ap (λ (k : ℕ). times 0 s.actions ++ ((k, x) ∷ [])) clock
          ∙ ap
              (λ (r : List (Label × List ℕ)).
                times 0 s.actions ++ ((ts - start, x) ∷ map (after start) (stamp ts r)))
              (sym only),
    )

module _ (cfg : SendConfig) (by_capture : cfg.pacing.mode ≡ pacing_capture)
    (cancelled delivers : ℕ → Bool) (last : PcapError) where
  loop_started :
      (n : ℕ) (reads : List Read) (s : Sender) (start p : ℕ)
      → IsOnTime start p s
      → Ascending p reads
      → times 0 (send_loop cfg cancelled delivers last n reads s).0.actions
        ≡ times 0 s.actions ++ map (after start) (stamped cfg (before_cancel cancelled n reads))
  unfolding send_loop
  loop_started n [] s start p o a =
      let Same =
        (λ (r : Sender × Option SendError). times 0 r.0.actions ≡ times 0 s.actions ++ []) in
      let same = sym (append-nil (times 0 s.actions)) in
      if_cases Same (cancelled n) same (if_cases Same (is_eof last) same same)
  loop_started n (read ∷ reads) s start p o (up, small, a) =
      let ts = read.packet.timestamp in
      let q = send_round cfg (delivers n) read s in
      let packets = before_cancel cancelled (suc n) reads in
      let step =
        Acts-IsOnTime start p ts s q (sends cfg read) o up small
          (send_round-Acts cfg by_capture (delivers n) read s) in
      let continued =
        loop_started (suc n) reads q start step.0.0 step.0.2
          (Ascending-from step.0.0 ts reads step.0.1 a)
        ∙ ap (λ (r : List Timed). r ++ map (after start) (stamped cfg packets)) step.1
        ∙ append_assoc (times 0 s.actions) (map (after start) (stamp ts (sends cfg read)))
            (map (after start) (stamped cfg packets))
        ∙ ap (λ (r : List Timed). times 0 s.actions ++ r)
            (sym (map-append (after start) (stamp ts (sends cfg read)) (stamped cfg packets))) in
      elim (cancelled n)
        as (λ (done : Bool).
          times 0
            (if done
              then (s, none)
              else send_loop cfg cancelled delivers last (suc n) reads q).0.actions
          ≡ times 0 s.actions
            ++ map (after start) (stamped cfg (if done then [] else read ∷ packets))) [
              | true ↦ sym (append-nil (times 0 s.actions))
              | false ↦ continued
            ]

-- A sender that has sent nothing.
pub record IsFresh (s : Sender) : Type 0 where
  pub forgot : s.prev_ts ≡ none
  pub awake : slept s.actions ≡ 0
  pub silent : times 0 s.actions ≡ []

first_round :
    (ts : ℕ) (s q : Sender) (xs : List (Label × List ℕ)) (later at : List Timed)
    → IsFresh s
    → ts < 2 ^ 63
    → Acts ts s xs q
    → (IsFresh q → at ≡ since_first later)
    → (IsOnTime ts ts q → at ≡ times 0 q.actions ++ map (after ts) later)
    → at ≡ since_first (stamp ts xs ++ later)
first_round ts s q [] later at f small (same, prev) still begun = still (record {
  forgot = prev ∙ f.forgot;
  awake = ap slept same ∙ f.awake;
  silent = ap (times 0) same ∙ f.silent;
})
first_round ts s q (x ∷ more) later at f small (only, prev, longer, there) still begun =
    let at_once : pause ts s.prev_ts ≡ 0 = ap (pause ts) f.forgot in
    let clock : slept s.actions + pause ts s.prev_ts ≡ ts - ts = omega (arith, at_once, f.awake) in
    let on_time : IsOnTime ts ts q = record {
      remembers = prev;
      started = omega arith;
      small = small;
      clock = longer ∙ clock;
    } in
    let alone : times 0 q.actions ≡ (ts - ts, x) ∷ [] =
      there
      ∙ ap (λ (r : List Timed). r ++ ((slept s.actions + pause ts s.prev_ts, x) ∷ [])) f.silent
      ∙ ap (λ (k : ℕ). (k, x) ∷ []) clock in
    begun on_time
    ∙ ap (λ (r : List Timed). r ++ map (after ts) later) alone
    ∙ ap (λ (r : List (Label × List ℕ)). since_first ((ts, x) ∷ (stamp ts r ++ later))) (sym only)

-- With the pacing of the capture, a replay keeps the capture's times: the sleeps before a datagram
-- add up to the time of its packet less the time of the first packet that is sent. That holds as
-- far as the replay gets before its context is done, whichever writes fail, for a sender that has
-- sent nothing and a capture whose times do not fall and fit into 63 bits.
pub send_loop-since_first :
    (cfg : SendConfig) (cancelled delivers : ℕ → Bool) (last : PcapError) (n : ℕ)
    (reads : List Read) (s : Sender)
    → cfg.pacing.mode ≡ pacing_capture
    → IsFresh s
    → Ascending 0 reads
    → times 0 (send_loop cfg cancelled delivers last n reads s).0.actions
      ≡ since_first (stamped cfg (before_cancel cancelled n reads))
unfolding send_loop
send_loop-since_first cfg cancelled delivers last n [] s by_capture f a =
    let Silent = (λ (r : Sender × Option SendError). times 0 r.0.actions ≡ []) in
    if_cases Silent (cancelled n) f.silent (if_cases Silent (is_eof last) f.silent f.silent)
send_loop-since_first cfg cancelled delivers last n (read ∷ reads) s by_capture f (up, small, a) =
    let ts = read.packet.timestamp in
    let q = send_round cfg (delivers n) read s in
    let packets = before_cancel cancelled (suc n) reads in
    let rest = send_loop cfg cancelled delivers last (suc n) reads q in
    let continued =
      first_round ts s q (sends cfg read) (stamped cfg packets) (times 0 rest.0.actions) f small
        (send_round-Acts cfg by_capture (delivers n) read s)
        (λ fresh.
          send_loop-since_first cfg cancelled delivers last (suc n) reads q by_capture fresh
            (Ascending-from 0 ts reads (omega arith) a))
        (λ begun.
          loop_started cfg by_capture cancelled delivers last (suc n) reads q ts ts begun a) in
    elim (cancelled n)
      as (λ (done : Bool).
        times 0 (if done then (s, none) else rest).0.actions
        ≡ since_first (stamped cfg (if done then [] else read ∷ packets))) [
          | true ↦ f.silent
          | false ↦ continued
        ]
