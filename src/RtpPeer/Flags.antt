-- ===== src/RtpPeer/Flags.antt =====
-- The checks of parseFlags of cmd/rtppeer/main.go, on what the flag package has read.
use mathlib.Core.Path.{subst}
use rtp_stream_cleaner.Prelude.{
  ℕ, ◌*◌, ◌%◌, ◌^◌, ◌≡◌, refl, Bool, true, false, ◌||◌, List, [], ◌∷◌, ◌==◌, if◌then◌else◌, Result,
  ok, err, arith, if_split, if_cases, ◌↔◌, sym, ap, ◌∙◌,
}
use rtp_stream_cleaner.RtpPeer.Send.{PacingConfig}
use rtp_stream_cleaner.Strings.{is_empty}
use rtp_stream_cleaner.RtpPeer.Options.{SsrcError, PacingError, parse_ssrc, parse_pacing}

-- An int is the word of its 64 bits.
pub record Flags : Type 0 where
  pub audio_port : ℕ
  pub video_port : ℕ
  pub audio_to : List ℕ
  pub video_to : List ℕ
  pub send_pcap : List ℕ
  pub list_sources : Bool
  pub pacing : List ℕ
  pub audio_ssrc : List ℕ
  pub video_ssrc : List ℕ
  pub duration : ℕ

pub data FlagError : Type 0 where
  send_pcap_required : FlagError
  ports_required : FlagError
  destinations_required : FlagError
  ssrcs_required : FlagError
  invalid_audio_ssrc : SsrcError → FlagError
  invalid_video_ssrc : SsrcError → FlagError
  invalid_pacing : PacingError → FlagError

pub record Config : Type 0 where
  pub flags : Flags
  pub audio_ssrc : ℕ
  pub video_ssrc : ℕ
  pub pacing : PacingConfig
  pub duration : ℕ

abbrev pub both_ssrcs : Result SsrcError ℕ → Result SsrcError ℕ → Result FlagError (ℕ × ℕ)
both_ssrcs (err e) video = err (invalid_audio_ssrc e)
both_ssrcs (ok audio) (err e) = err (invalid_video_ssrc e)
both_ssrcs (ok audio) (ok video) = ok (audio, video)

-- The two sources of a replay; zeros where nothing is replayed.
unfoldable pub ssrcs_of : Flags → Result FlagError (ℕ × ℕ)
ssrcs_of f =
    if f.list_sources
    then (if is_empty f.send_pcap then err send_pcap_required else ok (0, 0))
    else if f.audio_port == 0 || f.video_port == 0
    then err ports_required
    else if is_empty f.send_pcap
    then ok (0, 0)
    else if is_empty f.audio_to || is_empty f.video_to
    then err destinations_required
    else if is_empty f.audio_ssrc || is_empty f.video_ssrc
    then err ssrcs_required
    else both_ssrcs (parse_ssrc f.audio_ssrc) (parse_ssrc f.video_ssrc)

abbrev pub with_pacing : Flags → ℕ × ℕ → Result PacingError PacingConfig → Result FlagError Config
with_pacing f ssrcs (err e) = err (invalid_pacing e)
with_pacing f ssrcs (ok pacing) = ok (record {
  flags = f;
  audio_ssrc = ssrcs.0;
  video_ssrc = ssrcs.1;
  pacing = pacing;
  duration = f.duration * 1_000_000_000 % 2 ^ 64;
})

abbrev pub with_ssrcs : Flags → Result FlagError (ℕ × ℕ) → Result FlagError Config
with_ssrcs f (err e) = err e
with_ssrcs f (ok ssrcs) = with_pacing f ssrcs (parse_pacing f.pacing)

unfoldable pub check_flags : Flags → Result FlagError Config
check_flags f = with_ssrcs f (ssrcs_of f)

-- The three uses of the program, with the numbers of the two sources: to list the sources of a
-- capture; to receive on two ports; and to replay a capture, from its two ports to its two
-- destinations.
pub data Use (f : Flags) : ℕ → ℕ → Type 0 where
  lists : f.list_sources ≡ true → is_empty f.send_pcap ≡ false → Use f 0 0
  receives :
      f.list_sources ≡ false
      → (f.audio_port == 0 || f.video_port == 0) ≡ false
      → is_empty f.send_pcap ≡ true
      → Use f 0 0
  replays :
      (audio_ssrc video_ssrc : ℕ)
      → f.list_sources ≡ false
      → (f.audio_port == 0 || f.video_port == 0) ≡ false
      → is_empty f.send_pcap ≡ false
      → (is_empty f.audio_to || is_empty f.video_to) ≡ false
      → parse_ssrc f.audio_ssrc ≡ ok audio_ssrc
      → parse_ssrc f.video_ssrc ≡ ok video_ssrc
      → Use f audio_ssrc video_ssrc

-- The configuration that flags ask for.
pub record IsAsked (f : Flags) (cfg : Config) : Type 0 where
  pub same_flags : cfg.flags ≡ f
  pub uses : Use f cfg.audio_ssrc cfg.video_ssrc
  pub paces : parse_pacing f.pacing ≡ ok cfg.pacing
  pub lasts : cfg.duration ≡ f.duration * 1_000_000_000 % 2 ^ 64

abbrev Uses : Flags → Result FlagError (ℕ × ℕ) → Type 0
Uses f (err e) = Unit {0}
Uses f (ok ssrcs) = Use f ssrcs.0 ssrcs.1

module _ (f : Flags) where
  both_ssrcs-Uses :
      (a v : Result SsrcError ℕ)
      → parse_ssrc f.audio_ssrc ≡ a
      → parse_ssrc f.video_ssrc ≡ v
      → f.list_sources ≡ false
      → (f.audio_port == 0 || f.video_port == 0) ≡ false
      → is_empty f.send_pcap ≡ false
      → (is_empty f.audio_to || is_empty f.video_to) ≡ false
      → Uses f (both_ssrcs a v)
  both_ssrcs-Uses (err e) v ea ev runs ports sends there = tt
  both_ssrcs-Uses (ok a) (err e) ea ev runs ports sends there = tt
  both_ssrcs-Uses (ok a) (ok v) ea ev runs ports sends there =
      replays a v runs ports sends there ea ev

  ssrcs_of-Uses : Uses f (ssrcs_of f)
  unfolding ssrcs_of
  ssrcs_of-Uses =
      if_split (Uses f) f.list_sources
        (λ listed. if_split (Uses f) (is_empty f.send_pcap) (λ e. tt) (λ e. lists listed e))
        (λ runs.
          if_split (Uses f) (f.audio_port == 0 || f.video_port == 0) (λ e. tt)
            (λ ports.
              if_split (Uses f) (is_empty f.send_pcap) (λ e. receives runs ports e)
                (λ sends.
                  if_split (Uses f) (is_empty f.audio_to || is_empty f.video_to) (λ e. tt)
                    (λ there.
                      if_cases (Uses f) (is_empty f.audio_ssrc || is_empty f.video_ssrc) tt (
                        both_ssrcs-Uses (parse_ssrc f.audio_ssrc) (parse_ssrc f.video_ssrc) refl
                          refl runs ports sends there)))))

  parse_ssrc_given : (text : List ℕ) (n : ℕ) → parse_ssrc text ≡ ok n → is_empty text ≡ false
  unfolding parse_ssrc
  parse_ssrc_given [] n e = absurd (ground arith)
  parse_ssrc_given (c ∷ text) n e = refl

  ssrcs_of-Use : (a v : ℕ) → Use f a v → ssrcs_of f ≡ ok (a, v)
  unfolding ssrcs_of
  ssrcs_of-Use a v (lists listed sends) = rw (listed, sends) refl
  ssrcs_of-Use a v (receives runs ports none_sent) = rw (runs, ports, none_sent) refl
  ssrcs_of-Use a v (replays x y runs ports sends there ea ev) =
      let first = parse_ssrc_given f.audio_ssrc a ea in
      let second = parse_ssrc_given f.video_ssrc v ev in
      rw (runs, ports, sends, there, first, second, ea, ev) refl

abbrev Asked : Flags → Result FlagError Config → Type 0
Asked f (err e) = Unit {0}
Asked f (ok cfg) = IsAsked f cfg

with_pacing-Asked :
    (f : Flags) (ssrcs : ℕ × ℕ) (x : Result PacingError PacingConfig)
    → Use f ssrcs.0 ssrcs.1
    → parse_pacing f.pacing ≡ x
    → Asked f (with_pacing f ssrcs x)
with_pacing-Asked f ssrcs (err e) u paced = tt
with_pacing-Asked f ssrcs (ok pacing) u paced = record {
  same_flags = refl;
  uses = u;
  paces = paced;
  lasts = refl;
}

with_ssrcs-Asked : (f : Flags) (x : Result FlagError (ℕ × ℕ)) → Uses f x → Asked f (with_ssrcs f x)
with_ssrcs-Asked f (err e) u = tt
with_ssrcs-Asked f (ok ssrcs) u = with_pacing-Asked f ssrcs (parse_pacing f.pacing) u refl

check_flags_asked : (f : Flags) (cfg : Config) → IsAsked f cfg → check_flags f ≡ ok cfg
unfolding check_flags
check_flags_asked f cfg asked =
    let ssrcs : ℕ × ℕ = (cfg.audio_ssrc, cfg.video_ssrc) in
    let made : Config = record {
      flags = f;
      audio_ssrc = cfg.audio_ssrc;
      video_ssrc = cfg.video_ssrc;
      pacing = cfg.pacing;
      duration = f.duration * 1_000_000_000 % 2 ^ 64;
    } in
    let same : made ≡ cfg = λ i. record {
      flags = sym asked.same_flags i;
      audio_ssrc = cfg.audio_ssrc;
      video_ssrc = cfg.video_ssrc;
      pacing = cfg.pacing;
      duration = sym asked.lasts i;
    } in
    ap (with_ssrcs f) (ssrcs_of-Use f cfg.audio_ssrc cfg.video_ssrc asked.uses)
    ∙ ap (with_pacing f ssrcs) asked.paces
    ∙ ap ok same

-- The checks accept flags with just the configuration that they ask for: to list the sources of a
-- capture that is named; to receive on two ports that are not zero; or to replay the capture that
-- is named, on two such ports, to two destinations that are named, the packets of the two sources
-- that the SSRC flags denote, audio and video. In each case the pacing is the one that its flag
-- denotes, and the duration is in seconds. All other flags are refused.
pub check_flags_iff : (f : Flags) (cfg : Config) → (check_flags f ≡ ok cfg) ↔ IsAsked f cfg
unfolding check_flags
check_flags_iff f cfg = (
  λ e. subst (Asked f) e (with_ssrcs-Asked f (ssrcs_of f) (ssrcs_of-Uses f)),
  check_flags_asked f cfg,
)
