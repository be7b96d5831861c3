-- ===== src/Rtp/Rewrite.antt =====
-- The rewrites of a packet in place (setMarker, setTimestamp and the bytes that rewriteSeqForOutput
-- writes, in internal/session/video_proxy.go) and what the header parse reads after them.
use rtp_stream_cleaner.Prelude.{
  ℕ, ◌+◌, ◌*◌, ◌/◌, ◌%◌, ◌≤◌, ◌<◌, ◌≡◌, ◌≢◌, ◌⊎◌, inl, inr, ◌∙◌, refl, Bool, true, false, Option,
  none, some, List, All, All-set, length, length-set, drop, drop-set, set, bit_and, bit_or, ltb,
  if◌then◌else◌, arith,
}
use rtp_stream_cleaner.Prelude
use rtp_stream_cleaner.Bytes.{IsByte, byte, put_be16, put_be32}
use rtp_stream_cleaner.Bytes.Laws.{
  byte-IsByte, byte-set_ne, byte-set_self, byte-put_be16, byte-put_be32, be16-put_be16,
  be32-put_be32, be16_untouched, be32_untouched, length-put_be16, length-put_be32, drop-put_be16,
  drop-put_be32,
}
use rtp_stream_cleaner.Bytes.Bits.{and_0x7f, and_0x80, or_0x80}
use rtp_stream_cleaner.Rtp.{RtpHeader, header_at, parse_rtp_header}
use rtp_stream_cleaner.Rtp.Header.{parse_rtp_header_rewritten}

-- `b &^= 0x80` clears the top bit of a byte, so it keeps the other seven.
unfoldable pub set_marker : List ℕ → Bool → List ℕ
set_marker packet marker =
    if ltb (length packet) 2
    then packet
    else if marker
    then set packet 1 (bit_or (byte packet 1) 0x80)
    else set packet 1 (bit_and (byte packet 1) 0x7f)

unfoldable pub set_timestamp : List ℕ → ℕ → List ℕ
set_timestamp packet timestamp =
    if ltb (length packet) 8 then packet else put_be32 packet 4 timestamp

-- The write of rewriteSeqForOutput: `packet[2:4]` becomes `seq`.
unfoldable pub set_seq : List ℕ → ℕ → List ℕ
set_seq packet seq = if ltb (length packet) 4 then packet else put_be16 packet 2 seq

abbrev pub with_marker : Bool → RtpHeader → RtpHeader
with_marker m h = record h { marker = m }

abbrev pub with_ts : ℕ → RtpHeader → RtpHeader
with_ts ts h = record h { ts = ts }

abbrev pub with_seq : ℕ → RtpHeader → RtpHeader
with_seq seq h = record h { seq = seq }

module _ (p : List ℕ) where
  pub length-set_marker : (m : Bool) → length (set_marker p m) ≡ length p
  unfolding set_marker
  length-set_marker m =
      ground
        (arith, length-set p 1 (bit_or (byte p 1) 0x80), length-set p 1 (bit_and (byte p 1) 0x7f))

  pub length-set_timestamp : (ts : ℕ) → length (set_timestamp p ts) ≡ length p
  unfolding set_timestamp
  length-set_timestamp ts = ground (arith, length-put_be32 p 4 ts)

  pub length-set_seq : (seq : ℕ) → length (set_seq p seq) ≡ length p
  unfolding set_seq
  length-set_seq seq = ground (arith, length-put_be16 p 2 seq)

  byte-set_marker : (m : Bool) (j : ℕ) → 1 ≢ j → byte (set_marker p m) j ≡ byte p j
  unfolding set_marker
  byte-set_marker m j h = ground (
    arith,
    byte-set_ne p 1 (bit_or (byte p 1) 0x80) j h,
    byte-set_ne p 1 (bit_and (byte p 1) 0x7f) j h,
  )

  byte-set_timestamp : (ts j : ℕ) → (j < 4) ⊎ (8 ≤ j) → byte (set_timestamp p ts) j ≡ byte p j
  unfolding set_timestamp
  byte-set_timestamp ts j h = ground (arith, byte-put_be32 p 4 ts j h)

  byte-set_seq : (seq j : ℕ) → (j < 2) ⊎ (4 ≤ j) → byte (set_seq p seq) j ≡ byte p j
  unfolding set_seq
  byte-set_seq seq j h = ground (arith, byte-put_be16 p 2 seq j h)

  pub drop-set_marker : (m : Bool) → drop 2 (set_marker p m) ≡ drop 2 p
  unfolding set_marker
  drop-set_marker m =
      ground
        (arith, drop-set p 1 2 (bit_or (byte p 1) 0x80), drop-set p 1 2 (bit_and (byte p 1) 0x7f))

  pub drop-set_timestamp : (ts : ℕ) → drop 8 (set_timestamp p ts) ≡ drop 8 p
  unfolding set_timestamp
  drop-set_timestamp ts = ground (arith, drop-put_be32 p 4 ts 8)

  pub drop-set_seq : (seq : ℕ) → drop 4 (set_seq p seq) ≡ drop 4 p
  unfolding set_seq
  drop-set_seq seq = ground (arith, drop-put_be16 p 2 seq 4)

module _ (p : List ℕ) (bytes : All IsByte p) where
  marked_byte :
      (m : Bool) → 2 ≤ length p → byte (set_marker p m) 1 ≡ byte p 1 % 128 + (if m then 128 else 0)
  unfolding set_marker
  marked_byte m h = ground (
    arith,
    byte-set_self p 1 (bit_or (byte p 1) 0x80),
    byte-set_self p 1 (bit_and (byte p 1) 0x7f),
    or_0x80 (byte p 1) (byte-IsByte p bytes 1),
    and_0x7f (byte p 1) (byte-IsByte p bytes 1),
  )

  fields-set_marker :
      (m : Bool)
      → 12 ≤ length p
      → (n : ℕ) → header_at (set_marker p m) n ≡ with_marker m (header_at p n)
  fields-set_marker m long n =
      let q = set_marker p m in
      let kept = byte-set_marker p m in
      let b : ℕ = byte p 1 % 128 + (if m then 128 else 0) in
      let small : b < 256 = ground arith in
      ground (
        arith,
        marked_byte m,
        and_0x7f (byte p 1) (byte-IsByte p bytes 1),
        and_0x7f b small,
        and_0x80 b small,
        be16_untouched p q 2 (kept 2 (omega arith)) (kept 3 (omega arith)),
        be32_untouched p q 4 (kept 4 (omega arith)) (kept 5 (omega arith)) (kept 6 (omega arith))
            (kept 7 (omega arith)),
        be32_untouched p q 8 (kept 8 (omega arith)) (kept 9 (omega arith)) (kept 10 (omega arith))
            (kept 11 (omega arith)),
      )

  -- Setting the marker changes the marker of the header alone, whatever it was, and nothing behind
  -- byte 1.
  pub parse_rtp_header-set_marker :
      (m : Bool)
      → (parse_rtp_header (set_marker p m)
          ≡ Prelude.Option.map (with_marker m) (parse_rtp_header p))
        × (drop 2 (set_marker p m) ≡ drop 2 p)
  parse_rtp_header-set_marker m = (
    parse_rtp_header_rewritten p (set_marker p m) (with_marker m) (length-set_marker p m)
        (byte-set_marker p m 0 (omega arith)) (λ j h. byte-set_marker p m j (omega arith))
        (fields-set_marker m),
    drop-set_marker p m,
  )

module _ (p : List ℕ) where
  fields-set_timestamp :
      (ts : ℕ)
      → ts < 4294967296
      → 12 ≤ length p
      → (n : ℕ) → header_at (set_timestamp p ts) n ≡ with_ts ts (header_at p n)
  unfolding set_timestamp
  fields-set_timestamp ts fits long n =
      let q = put_be32 p 4 ts in
      let kept = byte-put_be32 p 4 ts in
      ground (
        arith,
        kept 1 (inl (omega arith)),
        be32-put_be32 p 4 ts (omega arith) fits,
        be16_untouched p q 2 (kept 2 (inl (omega arith))) (kept 3 (inl (omega arith))),
        be32_untouched p q 8 (kept 8 (inr (omega arith))) (kept 9 (inr (omega arith)))
            (kept 10 (inr (omega arith))) (kept 11 (inr (omega arith))),
      )

  -- Setting a 32-bit timestamp changes the timestamp of the header alone, and nothing behind byte 7.
  pub parse_rtp_header-set_timestamp :
      (ts : ℕ)
      → ts < 4294967296
      → (parse_rtp_header (set_timestamp p ts)
          ≡ Prelude.Option.map (with_ts ts) (parse_rtp_header p))
        × (drop 8 (set_timestamp p ts) ≡ drop 8 p)
  parse_rtp_header-set_timestamp ts fits = (
    parse_rtp_header_rewritten p (set_timestamp p ts) (with_ts ts) (length-set_timestamp p ts)
        (byte-set_timestamp p ts 0 (inl (omega arith)))
        (λ j h. byte-set_timestamp p ts j (inr (omega arith))) (fields-set_timestamp ts fits),
    drop-set_timestamp p ts,
  )

  fields-set_seq :
      (seq : ℕ)
      → seq < 65536
      → 12 ≤ length p
      → (n : ℕ) → header_at (set_seq p seq) n ≡ with_seq seq (header_at p n)
  unfolding set_seq
  fields-set_seq seq fits long n =
      let q = put_be16 p 2 seq in
      let kept = byte-put_be16 p 2 seq in
      ground (
        arith,
        kept 1 (inl (omega arith)),
        be16-put_be16 p 2 seq (omega arith) fits,
        be32_untouched p q 4 (kept 4 (inr (omega arith))) (kept 5 (inr (omega arith)))
            (kept 6 (inr (omega arith))) (kept 7 (inr (omega arith))),
        be32_untouched p q 8 (kept 8 (inr (omega arith))) (kept 9 (inr (omega arith)))
            (kept 10 (inr (omega arith))) (kept 11 (inr (omega arith))),
      )

  -- Setting a 16-bit sequence number changes that of the header alone, and nothing behind byte 3.
  pub parse_rtp_header-set_seq :
      (seq : ℕ)
      → seq < 65536
      → (parse_rtp_header (set_seq p seq) ≡ Prelude.Option.map (with_seq seq) (parse_rtp_header p))
        × (drop 4 (set_seq p seq) ≡ drop 4 p)
  parse_rtp_header-set_seq seq fits = (
    parse_rtp_header_rewritten p (set_seq p seq) (with_seq seq) (length-set_seq p seq)
        (byte-set_seq p seq 0 (inl (omega arith))) (λ j h. byte-set_seq p seq j (inr (omega arith)))
        (fields-set_seq seq fits),
    drop-set_seq p seq,
  )
