-- ===== src/Rtp/H264.antt =====
-- The NAL unit header behind an RTP header (internal/rtpfix/h264.go).
use rtp_stream_cleaner.Prelude.{
  ℕ, ◌<◌, ◌≡◌, Bool, true, false, not, ◌&&◌, Option, none, some, List, All, length, bit_and, leb,
  ltb, ◌==◌, if◌then◌else◌, arith, ◌%◌, ◌||◌, ◌⊎◌, inl, inr, Bool-cases, Option-cases,
}
use rtp_stream_cleaner.Bytes.{IsByte, byte}
use rtp_stream_cleaner.Bytes.Laws.{byte-IsByte}
use rtp_stream_cleaner.Bytes.Bits.{and_0x1f, and_0x40, and_0x80}

pub record H264Info : Type 0 where
  pub is_slice : Bool
  pub is_fu : Bool
  pub fu_start : Bool
  pub fu_end : Bool
  pub nal_type : ℕ
  pub is_sps : Bool
  pub is_pps : Bool
  pub is_idr : Bool

-- The flags that follow from the NAL type, the same for both kinds of payload.
abbrev pub classify : Bool → Bool → Bool → ℕ → H264Info
classify is_fu fu_start fu_end nal_type = record {
  is_slice = leb 1 nal_type && leb nal_type 5;
  is_fu = is_fu;
  fu_start = fu_start;
  fu_end = fu_end;
  nal_type = nal_type;
  is_sps = nal_type == 7;
  is_pps = nal_type == 8;
  is_idr = nal_type == 5;
}

unfoldable pub parse_h264 : List ℕ → Option H264Info
parse_h264 payload =
    if length payload == 0
    then none
    else (let unit_type : ℕ = bit_and (byte payload 0) 0x1f in
        if unit_type == 28
        then (if ltb (length payload) 2
            then none
            else (let fu_header : ℕ = byte payload 1 in
                some (
                  classify true (not (bit_and fu_header 0x80 == 0))
                    (not (bit_and fu_header 0x40 == 0)) (bit_and fu_header 0x1f))))
        else some (classify false false false unit_type))

unfoldable pub is_frame_start : H264Info → Bool
is_frame_start info =
    if not info.is_slice then false else if info.is_fu then info.fu_start else true

unfoldable pub is_frame_end : H264Info → Bool
is_frame_end info = if not info.is_slice then false else if info.is_fu then info.fu_end else true

-- What the flags say about one another.
pub record IsConsistent (info : H264Info) : Type 0 where
  pub type_range : info.nal_type < 32
  pub sps_no_slice : (info.is_sps && info.is_slice) ≡ false
  pub pps_no_slice : (info.is_pps && info.is_slice) ≡ false
  pub sps_no_pps : (info.is_sps && info.is_pps) ≡ false
  pub idr_slice : (info.is_idr && not info.is_slice) ≡ false
  pub start_slice : (is_frame_start info && not info.is_slice) ≡ false
  pub end_slice : (is_frame_end info && not info.is_slice) ≡ false
  pub whole_start : (info.is_slice && not info.is_fu && not (is_frame_start info)) ≡ false
  pub whole_end : (info.is_slice && not info.is_fu && not (is_frame_end info)) ≡ false

-- What follows from the flags of a parsed NAL header.
pub parse_h264-IsConsistent :
    (payload : List ℕ) (info : H264Info)
    → All IsByte payload
    → parse_h264 payload ≡ some info
    → IsConsistent info
unfolding parse_h264 is_frame_start is_frame_end
parse_h264-IsConsistent payload info bytes e = record {
  type_range = ground (
    arith,
    and_0x1f (byte payload 0) (byte-IsByte payload bytes 0),
    and_0x1f (byte payload 1) (byte-IsByte payload bytes 1),
  );
  sps_no_slice = ground arith;
  pps_no_slice = ground arith;
  sps_no_pps = ground arith;
  idr_slice = ground arith;
  start_slice = ground arith;
  end_slice = ground arith;
  whole_start = ground arith;
  whole_end = ground arith;
}

-- The NAL unit that a payload starts with, by the numbers of its bits: a fragment has type 28, two
-- bytes at least, and in the second one whether it starts the unit, whether it ends it, and the type.
pub record IsNal (payload : List ℕ) (info : H264Info) : Type 0 where
  pub fragment : info.is_fu ≡ (byte payload 0 % 32 == 28)
  pub unit_type :
      info.nal_type
      ≡ (if byte payload 0 % 32 == 28 then byte payload 1 % 32 else byte payload 0 % 32)
  pub starts : info.fu_start ≡ (byte payload 0 % 32 == 28 && leb 128 (byte payload 1))
  pub ends : info.fu_end ≡ (byte payload 0 % 32 == 28 && leb 64 (byte payload 1 % 128))
  pub slice : info.is_slice ≡ (leb 1 info.nal_type && leb info.nal_type 5)
  pub idr : info.is_idr ≡ (info.nal_type == 5)
  pub sps : info.is_sps ≡ (info.nal_type == 7)
  pub pps : info.is_pps ≡ (info.nal_type == 8)

-- Empty, or a fragment of a single byte.
abbrev pub is_cut : List ℕ → Bool
is_cut payload = length payload == 0 || (byte payload 0 % 32 == 28 && ltb (length payload) 2)

module _ (payload : List ℕ) (bytes : All IsByte payload) where
  parse_h264_cut : is_cut payload ≡ true → parse_h264 payload ≡ none
  unfolding parse_h264
  parse_h264_cut cut =
      let low = and_0x1f (byte payload 0) (byte-IsByte payload bytes 0) in ground (arith, low)

  parse_h264_whole : is_cut payload ≡ false → (info : H264Info) × (parse_h264 payload ≡ some info)
  unfolding parse_h264
  parse_h264_whole whole = elim (Option-cases (parse_h264 payload)) [
    | inl none_left ↦
        let low = and_0x1f (byte payload 0) (byte-IsByte payload bytes 0) in
        absurd (ground (arith, low))
    | inr found ↦ found
  ]

  parse_h264-IsNal : (info : H264Info) → parse_h264 payload ≡ some info → IsNal payload info
  unfolding parse_h264
  parse_h264-IsNal info e =
      let b0 = byte-IsByte payload bytes 0 in
      let b1 = byte-IsByte payload bytes 1 in
      let low = and_0x1f (byte payload 0) b0 in
      let low_fu = and_0x1f (byte payload 1) b1 in
      let start = and_0x80 (byte payload 1) b1 in
      let end = and_0x40 (byte payload 1) b1 in
      record {
        fragment = ground (arith, low);
        unit_type = ground (arith, low, low_fu);
        starts = ground (arith, low, start);
        ends = ground (arith, low, end);
        slice = ground arith;
        idr = ground arith;
        sps = ground arith;
        pps = ground arith;
      }

  -- A payload of bytes that is empty or a fragment of a single byte has no NAL header. Every other
  -- one has the header that its bits say: whether it is a fragment (type 28), then whether that
  -- starts or ends its unit, and the unit's type, by which it is a slice, an IDR, an SPS or a PPS.
  -- The header is then at most one of slice, SPS and PPS; an IDR is a slice; only a slice starts
  -- or ends a frame, and a slice that is no fragment does both.
  pub parse_h264_lem :
      ((is_cut payload ≡ true) × (parse_h264 payload ≡ none))
      ⊎ ((is_cut payload ≡ false)
          × (info : H264Info) × (parse_h264 payload ≡ some info)
          × IsNal payload info
          × IsConsistent info)
  parse_h264_lem = elim (Bool-cases (is_cut payload)) [
    | inl cut ↦ inl (cut, parse_h264_cut cut)
    | inr whole ↦
        let (info, e) = parse_h264_whole whole in
        inr (whole, info, e, parse_h264-IsNal info e, parse_h264-IsConsistent payload info bytes e)
  ]
