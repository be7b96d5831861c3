-- ===== src/RtpPeer/SourceCounts.antt =====
-- What the table of a capture's sources says.
use native.Mathlib.Nat.{zero-add}
use rtp_stream_cleaner.Prelude.{
  ℕ, ◌+◌, ◌≡◌, refl, sym, ap, ◌∙◌, Bool, true, false, not, ◌&&◌, Option, none, some, List, [], ◌∷◌,
  length, ◌==◌, if◌then◌else◌, Result, ok, err, arith, if_split, ==_iff,
}
use rtp_stream_cleaner.Rtp
use rtp_stream_cleaner.Rtp.H264.{H264Info}
use rtp_stream_cleaner.Rtp.Parse.{ParseError, parse}
use rtp_stream_cleaner.Pcap.{is_eof}
use rtp_stream_cleaner.Pcap.Ng.{Reader}
use rtp_stream_cleaner.Pcap.Reader.{Read, read_packets}
use rtp_stream_cleaner.RtpPeer.{ExtractError}
use rtp_stream_cleaner.RtpPeer.Extract.{extract_udp_payload}
use rtp_stream_cleaner.RtpPeer.Sources.{
  SourceStats, no_packets, PayloadTypes, Sources, value_or, change, insert_entry, sort_entries,
  count_nal, nal_of, count_packet, add_parsed, add_extracted, collect, sort_inner, table,
  list_sources,
}

pub data Column : Type 0 where
  packets_column : Column
  sps_column : Column
  pps_column : Column
  idr_column : Column
  non_idr_column : Column

abbrev pub cell : Column → SourceStats → ℕ
cell packets_column t = t.packets
cell sps_column t = t.sps
cell pps_column t = t.pps
cell idr_column t = t.idr
cell non_idr_column t = t.non_idr

abbrev pub flag : Column → H264Info → Bool
flag packets_column info = false
flag sps_column info = info.is_sps
flag pps_column info = info.is_pps
flag idr_column info = info.is_slice && info.is_idr
flag non_idr_column info = info.is_slice && not info.is_idr

abbrev pub starts : Column → Option H264Info → ℕ
starts c none = 0
starts c (some info) = if not (info.is_fu && not info.fu_start) && flag c info then 1 else 0

-- What a packet of the source adds to a column.
abbrev pub amount : Column → Option H264Info → ℕ
amount packets_column nal = 1
amount c nal = starts c nal

-- The same column summed over the capture, packet by packet.
module _ (c : Column) (ssrc payload_type : ℕ) where
  abbrev pub of_parsed : List ℕ → Result ParseError Rtp.Parse.Packet → ℕ
  of_parsed payload (err e) = 0
  of_parsed payload (ok packet) =
      if ssrc == packet.ssrc && payload_type == packet.payload_type
      then amount c (nal_of payload packet)
      else 0

  abbrev pub of_extracted : Result ExtractError (List ℕ) → ℕ
  of_extracted (err e) = 0
  of_extracted (ok payload) = of_parsed payload (parse payload)

  abbrev pub total_of : List Read → ℕ
  total_of [] = 0
  total_of (read ∷ reads) =
      of_extracted (extract_udp_payload read.packet.bytes read.link_type) + total_of reads

abbrev pub cell_at : Column → ℕ → ℕ → Sources → ℕ
cell_at c ssrc payload_type sources =
    cell c (value_or no_packets payload_type (value_or [] ssrc sources))

cell-count_nal :
    (c : Column) (nal : Option H264Info) (t : SourceStats)
    → cell c (count_nal nal t) ≡ cell c t + starts c nal
cell-count_nal packets_column none t = omega arith
cell-count_nal sps_column none t = omega arith
cell-count_nal pps_column none t = omega arith
cell-count_nal idr_column none t = omega arith
cell-count_nal non_idr_column none t = omega arith
cell-count_nal packets_column (some info) t = ground arith
cell-count_nal sps_column (some info) t = ground arith
cell-count_nal pps_column (some info) t = ground arith
cell-count_nal idr_column (some info) t = ground arith
cell-count_nal non_idr_column (some info) t = ground arith

module _ {A : Type 0} (d : A) where
  value_or-change :
      (k key : ℕ) (f : A → A) (entries : List (ℕ × A))
      → value_or d k (change d key f entries)
        ≡ (if k == key then f (value_or d key entries) else value_or d k entries)
  value_or-change k key f [] = refl
  value_or-change k key f ((other, value) ∷ entries) =
      ground (arith, value_or-change k key f entries)

  value_or-insert_entry :
      (k : ℕ) (e : ℕ × A) (entries : List (ℕ × A))
      → value_or d k (insert_entry e entries) ≡ (if k == e.0 then e.1 else value_or d k entries)
  value_or-insert_entry k e [] = refl
  value_or-insert_entry k e (g ∷ entries) = ground (arith, value_or-insert_entry k e entries)

  value_or-sort_entries :
      (k : ℕ) (entries : List (ℕ × A)) → value_or d k (sort_entries entries) ≡ value_or d k entries
  value_or-sort_entries k [] = refl
  value_or-sort_entries k (e ∷ entries) =
      value_or-insert_entry k e (sort_entries entries)
      ∙ ap (λ (r : A). if k == e.0 then e.1 else r) (value_or-sort_entries k entries)

cell-count_packet :
    (c : Column) (payload : List ℕ) (packet : Rtp.Parse.Packet) (t : SourceStats)
    → cell c (count_packet payload packet t) ≡ cell c t + amount c (nal_of payload packet)
cell-count_packet c payload packet t =
    let nal = nal_of payload packet in
    let counted = cell-count_nal c nal (record t { packets = t.packets + 1 }) in
    counted ∙ one_packet c nal
  where
    one_packet :
        (x : Column) (nal : Option H264Info)
        → cell x (record t { packets = t.packets + 1 }) + starts x nal ≡ cell x t + amount x nal
    one_packet packets_column none = omega arith
    one_packet packets_column (some info) = ground arith
    one_packet sps_column nal = refl
    one_packet pps_column nal = refl
    one_packet idr_column nal = refl
    one_packet non_idr_column nal = refl

module _ (c : Column) (ssrc payload_type : ℕ) where
  cell-change :
      (p : ℕ) (f : SourceStats → SourceStats) (n : ℕ) (types : PayloadTypes)
      → ((t : SourceStats) → cell c (f t) ≡ cell c t + n)
      → cell c (value_or no_packets payload_type (change no_packets p f types))
        ≡ cell c (value_or no_packets payload_type types) + (if payload_type == p then n else 0)
  cell-change p f n types adds =
      let old = cell c (value_or no_packets payload_type types) in
      ap (cell c) (value_or-change no_packets payload_type p f types)
      ∙ if_split (λ (t : SourceStats). cell c t ≡ old + (if payload_type == p then n else 0))
          (payload_type == p)
          (λ e.
            let same = (==_iff payload_type p).0 e in
            rw e (
              adds (value_or no_packets p types)
              ∙ ap (λ (k : ℕ). cell c (value_or no_packets k types) + n) (sym same)))
          (λ e. rw e (omega arith))

  cell_at-change :
      (s p : ℕ) (f : SourceStats → SourceStats) (n : ℕ) (sources : Sources)
      → ((t : SourceStats) → cell c (f t) ≡ cell c t + n)
      → cell_at c ssrc payload_type (change [] s (change no_packets p f) sources)
        ≡ cell_at c ssrc payload_type sources + (if ssrc == s && payload_type == p then n else 0)
  cell_at-change s p f n sources adds =
      let old = cell_at c ssrc payload_type sources in
      ap (λ (types : PayloadTypes). cell c (value_or no_packets payload_type types))
        (value_or-change [] ssrc s (change no_packets p f) sources)
      ∙ if_split
          (λ (types : PayloadTypes).
            cell c (value_or no_packets payload_type types)
            ≡ old + (if ssrc == s && payload_type == p then n else 0))
          (ssrc == s)
          (λ e.
            let same = (==_iff ssrc s).0 e in
            let added : ℕ = if payload_type == p then n else 0 in
            rw e (
              cell-change p f n (value_or [] s sources) adds
              ∙ ap (λ (k : ℕ). cell_at c k payload_type sources + added) (sym same)))
          (λ e. rw e (omega arith))

  cell_at-add_parsed :
      (payload : List ℕ) (x : Result ParseError Rtp.Parse.Packet) (sources : Sources)
      → cell_at c ssrc payload_type (add_parsed payload x sources)
        ≡ cell_at c ssrc payload_type sources + of_parsed c ssrc payload_type payload x
  cell_at-add_parsed payload (err e) sources = omega arith
  cell_at-add_parsed payload (ok packet) sources =
      cell_at-change packet.ssrc packet.payload_type (count_packet payload packet)
        (amount c (nal_of payload packet)) sources (cell-count_packet c payload packet)

  of_parsed_nothing :
      (payload : List ℕ)
      → length payload ≡ 0
      → of_parsed c ssrc payload_type payload (parse payload) ≡ 0
  unfolding parse
  of_parsed_nothing payload e = rw e refl

  cell_at-add_extracted :
      (x : Result ExtractError (List ℕ)) (sources : Sources)
      → cell_at c ssrc payload_type (add_extracted x sources)
        ≡ cell_at c ssrc payload_type sources + of_extracted c ssrc payload_type x
  cell_at-add_extracted (err e) sources = omega arith
  cell_at-add_extracted (ok payload) sources =
      if_split
        (λ (q : Sources).
          cell_at c ssrc payload_type q
          ≡ cell_at c ssrc payload_type sources
            + of_parsed c ssrc payload_type payload (parse payload))
        (length payload == 0) (λ nothing. omega (arith, of_parsed_nothing payload (ground arith)))
        (λ something. cell_at-add_parsed payload (parse payload) sources)

  cell_at-collect :
      (reads : List Read) (sources : Sources)
      → cell_at c ssrc payload_type (collect reads sources)
        ≡ cell_at c ssrc payload_type sources + total_of c ssrc payload_type reads
  unfolding collect
  cell_at-collect [] sources = omega arith
  cell_at-collect (read ∷ reads) sources =
      let x = extract_udp_payload read.packet.bytes read.link_type in
      omega
        (arith, cell_at-collect reads (add_extracted x sources), cell_at-add_extracted x sources)

  value_or-sort_inner :
      (sources : Sources)
      → value_or no_packets payload_type (value_or [] ssrc (sort_inner sources))
        ≡ value_or no_packets payload_type (value_or [] ssrc sources)
  value_or-sort_inner [] = refl
  value_or-sort_inner ((s, types) ∷ sources) =
      either (ssrc == s) (sort_entries types) types (value_or [] ssrc (sort_inner sources))
        (value_or [] ssrc sources) (value_or-sort_entries no_packets payload_type types)
        (value_or-sort_inner sources)
    where
      either :
          (b : Bool) (x y z w : PayloadTypes)
          → value_or no_packets payload_type x ≡ value_or no_packets payload_type y
          → value_or no_packets payload_type z ≡ value_or no_packets payload_type w
          → value_or no_packets payload_type (if b then x else z)
            ≡ value_or no_packets payload_type (if b then y else w)
      either true x y z w first second = first
      either false x y z w first second = second

  cell_at-table :
      (sources : Sources)
      → cell_at c ssrc payload_type (table sources) ≡ cell_at c ssrc payload_type sources
  unfolding table
  cell_at-table sources =
      ap (cell c) (value_or-sort_inner (sort_entries sources))
      ∙ ap (λ (types : PayloadTypes). cell c (value_or no_packets payload_type types))
          (value_or-sort_entries [] ssrc sources)

cell-no_packets : (c : Column) → cell c no_packets ≡ 0
cell-no_packets packets_column = refl
cell-no_packets sps_column = refl
cell-no_packets pps_column = refl
cell-no_packets idr_column = refl
cell-no_packets non_idr_column = refl

-- The table of a capture's sources counts right: where reading the capture ends at the end of the file,
-- listSources returns a table that has, for each SSRC and payload type and in each of the five
-- columns, the sum over the packets of the capture of what each adds: one packet for an RTP packet
-- of that source and type, and one SPS, PPS, IDR or other slice where its payload is, or starts,
-- a NAL unit of that kind. A source or type without a row counts as zeros.
pub list_sources-total_of :
    (r : Reader)
    → is_eof (read_packets r).1 ≡ true
    → (sources : Sources) × (list_sources (ok r) ≡ ok sources)
      × ((c : Column) (ssrc payload_type : ℕ)
          → cell_at c ssrc payload_type sources ≡ total_of c ssrc payload_type (read_packets r).0)
unfolding list_sources
list_sources-total_of r at_end =
    let reads = (read_packets r).0 in
    (
      table (collect reads []),
      rw at_end refl,
      λ c ssrc payload_type.
          cell_at-table c ssrc payload_type (collect reads [])
          ∙ cell_at-collect c ssrc payload_type reads []
          ∙ ap (λ (k : ℕ). k + total_of c ssrc payload_type reads) (cell-no_packets c)
          ∙ zero-add _,
    )
