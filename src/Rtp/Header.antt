-- ===== src/Rtp/Header.antt =====
-- What a successful header parse promises, and what rewrites of the first twelve bytes do to it.
use rtp_stream_cleaner.Prelude.{
  ℕ, ◌+◌, ◌*◌, ◌%◌, ◌≤◌, ◌<◌, ◌≡◌, sym, ap, ◌∙◌, inl, inr, some, List, length, All, arith, bit_and,
  Option-cases,
}
use rtp_stream_cleaner.Prelude
use rtp_stream_cleaner.Bytes.{IsByte, byte, be16}
use rtp_stream_cleaner.Bytes.Laws.{byte-IsByte, be16-lt, be32-lt, be16_untouched}
use rtp_stream_cleaner.Bytes.Bits.{and_0x7f}
use rtp_stream_cleaner.Rtp.{RtpHeader, header_at, parse_rtp_header}

pub record IsWellFormed (packet : List ℕ) (h : RtpHeader) : Type 0 where
  pub fixed_part : 12 ≤ h.header_len
  pub inside : h.header_len ≤ length packet
  pub aligned : h.header_len % 4 ≡ 0
  pub pt_range : h.pt < 128
  pub seq_range : h.seq < 65536
  pub ts_range : h.ts < 4294967296
  pub ssrc_range : h.ssrc < 4294967296

-- A parsed header lies inside the packet, is made of whole 32-bit words, and its fields have
-- the widths of RTP.
pub parse_rtp_header-IsWellFormed :
    (packet : List ℕ) (h : RtpHeader)
    → All IsByte packet
    → parse_rtp_header packet ≡ some h
    → IsWellFormed packet h
unfolding parse_rtp_header
parse_rtp_header-IsWellFormed packet h bytes e = ground (
  arith,
  and_0x7f (byte packet 1) (byte-IsByte packet bytes 1),
  be16-lt packet bytes 2,
  be32-lt packet bytes 4,
  be32-lt packet bytes 8,
)

-- Two packets of one length that agree on byte 0 and behind byte 11 have headers of one length.
pub parse_rtp_header_touched :
    (p q : List ℕ)
    → length q ≡ length p
    → byte q 0 ≡ byte p 0
    → ((j : ℕ) → 12 ≤ j → byte q j ≡ byte p j)
    → parse_rtp_header q ≡ Prelude.Option.map (λ h. header_at q h.header_len) (parse_rtp_header p)
unfolding parse_rtp_header
parse_rtp_header_touched p q size first later =
    let at : ℕ = 12 + bit_and (byte p 0) 0x0f * 4 + 2 in
    ground (arith, be16_untouched p q at (later at (omega arith)) (later (at + 1) (omega arith)))

parse_rtp_header_own :
    (p : List ℕ) (h : RtpHeader)
    → parse_rtp_header p ≡ some h
    → (12 ≤ length p) × (h ≡ header_at p h.header_len)
unfolding parse_rtp_header
parse_rtp_header_own p h e = ground arith

-- So a rewrite of bytes 1 to 11 acts on the parsed header as it acts on the fields.
pub parse_rtp_header_rewritten :
    (p q : List ℕ) (f : RtpHeader → RtpHeader)
    → length q ≡ length p
    → byte q 0 ≡ byte p 0
    → ((j : ℕ) → 12 ≤ j → byte q j ≡ byte p j)
    → (12 ≤ length p → (n : ℕ) → header_at q n ≡ f (header_at p n))
    → parse_rtp_header q ≡ Prelude.Option.map f (parse_rtp_header p)
parse_rtp_header_rewritten p q f size first later fields =
    elim (Option-cases (parse_rtp_header p)) [
      | inl e ↦ rw (parse_rtp_header_touched p q size first later, e)
      | inr (h, e) ↦
          let (long, own) = parse_rtp_header_own p h e in
          rw (parse_rtp_header_touched p q size first later, e)
            (ap some (fields long h.header_len ∙ ap f (sym own)))
    ]

pub parse_rtp_header-seq :
    (p : List ℕ) (h : RtpHeader) → parse_rtp_header p ≡ some h → h.seq ≡ be16 p 2
unfolding parse_rtp_header
parse_rtp_header-seq p h e = ground arith
