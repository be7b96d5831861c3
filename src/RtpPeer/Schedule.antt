-- ===== src/RtpPeer/Schedule.antt =====
-- When the replay of a capture writes, with the pacing of the capture.
use mathlib.Core.List.{map}
use rtp_stream_cleaner.Prelude.{
  ℕ, ◌+◌, ◌-◌, ◌≤◌, ◌<◌, ◌^◌, ◌≡◌, refl, ap, ◌∙◌, Bool, true, false, Option, none, some, List, [],
  ◌∷◌, ◌++◌, append-nil, length, ◌==◌, Result, ok, err, arith, if_split,
}
use rtp_stream_cleaner.Rtp
use rtp_stream_cleaner.Rtp.Parse.{ParseError, parse}
use rtp_stream_cleaner.Pcap.Reader.{Read}
use rtp_stream_cleaner.RtpPeer.{ExtractError}
use rtp_stream_cleaner.RtpPeer.Extract.{extract_udp_payload}
use rtp_stream_cleaner.RtpPeer.Send.{
  pacing_capture, SendConfig, Label, Action, sleep, wrote, write_failed, Sender, sleep_for,
  capture_pacing, since, apply_pacing, write_to, label_of, send_on, after_parse, after_extract,
  send_round,
}
use rtp_stream_cleaner.RtpPeer.Sent.{addressed, parsed, extracted, sends, parsed_nothing}

-- How long the actions sleep, and the datagrams with the time since the start that each is tried.
abbrev pub slept : List Action → ℕ
slept [] = 0
slept (sleep d ∷ actions) = d + slept actions
slept (action ∷ actions) = slept actions

abbrev pub Timed : Type 0
Timed = ℕ × (Label × List ℕ)

abbrev pub times : ℕ → List Action → List Timed
times t [] = []
times t (sleep d ∷ actions) = times (t + d) actions
times t (wrote label payload ∷ actions) = (t, (label, payload)) ∷ times t actions
times t (write_failed label payload ∷ actions) = (t, (label, payload)) ∷ times t actions

slept-append : (xs ys : List Action) → slept (xs ++ ys) ≡ slept xs + slept ys
slept-append [] ys = omega arith
slept-append (sleep d ∷ xs) ys = omega (arith, slept-append xs ys)
slept-append (wrote label payload ∷ xs) ys = slept-append xs ys
slept-append (write_failed label payload ∷ xs) ys = slept-append xs ys

times-append :
    (t : ℕ) (xs ys : List Action) → times t (xs ++ ys) ≡ times t xs ++ times (t + slept xs) ys
times-append t [] ys = let e : t + 0 ≡ t = omega arith in rw e refl
times-append t (sleep d ∷ xs) ys =
    let e : t + (d + slept xs) ≡ t + d + slept xs = omega arith in rw e (times-append (t + d) xs ys)
times-append t (wrote label payload ∷ xs) ys =
    ap (λ (r : List Timed). (t, (label, payload)) ∷ r) (times-append t xs ys)
times-append t (write_failed label payload ∷ xs) ys =
    ap (λ (r : List Timed). (t, (label, payload)) ∷ r) (times-append t xs ys)

-- The datagrams of a capture with the times of their packets.
abbrev pub stamp : ℕ → List (Label × List ℕ) → List Timed
stamp ts [] = []
stamp ts (x ∷ xs) = (ts, x) ∷ stamp ts xs

abbrev pub stamped : SendConfig → List Read → List Timed
stamped cfg [] = []
stamped cfg (read ∷ reads) = stamp read.packet.timestamp (sends cfg read) ++ stamped cfg reads

abbrev pub after : ℕ → Timed → Timed
after start (ts, x) = (ts - start, x)

-- The same counted from the first.
abbrev pub since_first : List Timed → List Timed
since_first [] = []
since_first (first ∷ timed) = map (after first.0) (first ∷ timed)

-- The times of a capture do not fall, from p on.
abbrev pub Ascending : ℕ → List Read → Type 0
Ascending p [] = Unit {0}
Ascending p (read ∷ reads) =
    (p ≤ read.packet.timestamp)
    × (read.packet.timestamp < 2 ^ 63)
    × Ascending read.packet.timestamp reads

pub Ascending-from : (p q : ℕ) (reads : List Read) → p ≤ q → Ascending q reads → Ascending p reads
Ascending-from p q [] h a = tt
Ascending-from p q (read ∷ reads) h (up, small, a) = (omega arith, small, a)

abbrev pub pause : ℕ → Option ℕ → ℕ
pause ts none = 0
pause ts (some prev) = since ts prev

-- What a round that sends these datagrams has done.
abbrev pub Acts : ℕ → Sender → List (Label × List ℕ) → Sender → Type 0
Acts ts s [] q = (q.actions ≡ s.actions) × (q.prev_ts ≡ s.prev_ts)
Acts ts s (x ∷ more) q =
    (more ≡ [])
    × (q.prev_ts ≡ some ts)
    × (slept q.actions ≡ slept s.actions + pause ts s.prev_ts)
    × (times 0 q.actions ≡ times 0 s.actions ++ ((slept s.actions + pause ts s.prev_ts, x) ∷ []))

-- A sender that only slept.
record Slept (d ts : ℕ) (s q : Sender) : Type 0 where
  remembers : q.prev_ts ≡ some ts
  longer : slept q.actions ≡ slept s.actions + d
  same : times 0 q.actions ≡ times 0 s.actions

sleep_for-slept :
    (d : ℕ) (s : Sender)
    → (slept (sleep_for d s).actions ≡ slept s.actions + d)
      × (times 0 (sleep_for d s).actions ≡ times 0 s.actions)
sleep_for-slept d s =
    if_split
      (λ (q : Sender).
        (slept q.actions ≡ slept s.actions + d) × (times 0 q.actions ≡ times 0 s.actions))
      (d == 0) (λ none. (ground arith, refl))
      (λ some. (
        omega (arith, slept-append s.actions (sleep d ∷ [])),
        times-append 0 s.actions (sleep d ∷ []) ∙ append-nil (times 0 s.actions),
      ))

capture_pacing-Slept :
    (ts : ℕ) (prev : Option ℕ) (s : Sender) → Slept (pause ts prev) ts s (capture_pacing ts prev s)
capture_pacing-Slept ts none s = record { remembers = refl; longer = omega arith; same = refl }
capture_pacing-Slept ts (some prev) s =
    let e = sleep_for-slept (since ts prev) s in
    record { remembers = refl; longer = e.0; same = e.1 }

-- A write ends it.
write_after-Slept :
    (d ts : ℕ) (s q : Sender) (x : Label × List ℕ) (action : Action)
    → Slept d ts s q
    → slept (action ∷ []) ≡ 0
    → ((t : ℕ) → times t (action ∷ []) ≡ (t, x) ∷ [])
    → (slept (q.actions ++ (action ∷ [])) ≡ slept s.actions + d)
      × (times 0 (q.actions ++ (action ∷ []))
          ≡ times 0 s.actions ++ ((slept s.actions + d, x) ∷ []))
write_after-Slept d ts s q x action e instant there = (
  omega (arith, slept-append q.actions (action ∷ []), instant, e.longer),
  times-append 0 q.actions (action ∷ [])
      ∙ ap (λ (r : List Timed). times 0 q.actions ++ r) (there (0 + slept q.actions))
      ∙ ap (λ (r : List Timed). r ++ ((0 + slept q.actions, x) ∷ [])) e.same
      ∙ ap (λ (k : ℕ). times 0 s.actions ++ ((k, x) ∷ [])) (omega (arith, e.longer)),
)

write_to-Acts :
    (delivered : Bool) (label : Label) (payload : List ℕ) (ts : ℕ) (s q : Sender)
    → Slept (pause ts s.prev_ts) ts s q
    → Acts ts s ((label, payload) ∷ []) (write_to delivered label payload q)
unfolding write_to
write_to-Acts true label payload ts s q e =
    let done =
      write_after-Slept (pause ts s.prev_ts) ts s q (label, payload) (wrote label payload) e refl
        (λ t. refl) in
    (refl, e.remembers, done.0, done.1)
write_to-Acts false label payload ts s q e =
    let done =
      write_after-Slept (pause ts s.prev_ts) ts s q (label, payload) (write_failed label payload) e
        refl (λ t. refl) in
    (refl, e.remembers, done.0, done.1)

module _ (cfg : SendConfig) (by_capture : cfg.pacing.mode ≡ pacing_capture) (delivered : Bool)
    (ts : ℕ) where
  send_on-Acts :
      (payload : List ℕ) (label : Option Label) (s : Sender)
      → Acts ts s (addressed payload label) (send_on cfg delivered ts payload label s)
  unfolding apply_pacing
  send_on-Acts payload none s = (refl, refl)
  send_on-Acts payload (some label) s = rw by_capture (
      write_to-Acts delivered label payload ts s (capture_pacing ts s.prev_ts s)
        (capture_pacing-Slept ts s.prev_ts s))

  after_parse-Acts :
      (payload : List ℕ) (x : Result ParseError Rtp.Parse.Packet) (s : Sender)
      → Acts ts s (parsed cfg payload x) (after_parse cfg delivered ts payload x s)
  after_parse-Acts payload (err e) s = (refl, refl)
  after_parse-Acts payload (ok packet) s = send_on-Acts payload (label_of cfg packet.ssrc) s

  after_extract-Acts :
      (x : Result ExtractError (List ℕ)) (s : Sender)
      → Acts ts s (extracted cfg x) (after_extract cfg delivered ts x s)
  after_extract-Acts (err e) s = (refl, refl)
  after_extract-Acts (ok payload) s =
      if_split (Acts ts s (parsed cfg payload (parse payload))) (length payload == 0)
        (λ nothing. rw (parsed_nothing cfg payload (ground arith)) (refl, refl))
        (λ something. after_parse-Acts payload (parse payload) s)

pub send_round-Acts :
    (cfg : SendConfig)
    → cfg.pacing.mode ≡ pacing_capture
    → (delivered : Bool) (read : Read) (s : Sender)
    → Acts read.packet.timestamp s (sends cfg read) (send_round cfg delivered read s)
unfolding send_round
send_round-Acts cfg by_capture delivered read s =
    after_extract-Acts cfg by_capture delivered read.packet.timestamp
      (extract_udp_payload read.packet.bytes read.link_type) s
