-- ===== src/RtpPeer/Sources.antt =====
-- listSources of cmd/rtppeer/main.go: how many packets and NAL units of which kind each RTP source
-- of a capture has under each payload type. A map is the list of its entries, and what is printed
-- is the table that is returned.
use rtp_stream_cleaner.Prelude.{
  ℕ, ◌+◌, not, ◌&&◌, Option, none, some, List, [], ◌∷◌, length, drop, leb, ltb, ◌==◌, if◌then◌else◌,
  Result, ok, err,
}
use rtp_stream_cleaner.Rtp
use rtp_stream_cleaner.Rtp.H264.{H264Info, parse_h264}
use rtp_stream_cleaner.Rtp.Parse.{ParseError, parse}
use rtp_stream_cleaner.Pcap.{PcapError, is_eof}
use rtp_stream_cleaner.Pcap.Ng.{Reader}
use rtp_stream_cleaner.Pcap.Reader.{Read, read_packets}
use rtp_stream_cleaner.RtpPeer.{ExtractError}
use rtp_stream_cleaner.RtpPeer.Extract.{extract_udp_payload}

pub record SourceStats : Type 0 where
  pub packets : ℕ
  pub sps : ℕ
  pub pps : ℕ
  pub idr : ℕ
  pub non_idr : ℕ

abbrev pub no_packets : SourceStats
no_packets = record { packets = 0; sps = 0; pps = 0; idr = 0; non_idr = 0 }

abbrev pub PayloadTypes : Type 0
PayloadTypes = List (ℕ × SourceStats)

abbrev pub Sources : Type 0
Sources = List (ℕ × PayloadTypes)

module _ {A : Type 0} where
  abbrev pub value_or : A → ℕ → List (ℕ × A) → A
  value_or d k [] = d
  value_or d k ((key, value) ∷ entries) = if k == key then value else value_or d k entries

  -- The value of a key is changed, and made from d where the key is new.
  abbrev pub change : A → ℕ → (A → A) → List (ℕ × A) → List (ℕ × A)
  change d k f [] = (k, f d) ∷ []
  change d k f ((key, value) ∷ entries) =
      if k == key then (key, f value) ∷ entries else (key, value) ∷ change d k f entries

  abbrev pub insert_entry : ℕ × A → List (ℕ × A) → List (ℕ × A)
  insert_entry e [] = e ∷ []
  insert_entry e (f ∷ entries) = if leb e.0 f.0 then e ∷ f ∷ entries else f ∷ insert_entry e entries

  -- The entries by their keys, as sort.Slice and sort.Ints put the keys.
  abbrev pub sort_entries : List (ℕ × A) → List (ℕ × A)
  sort_entries [] = []
  sort_entries (e ∷ entries) = insert_entry e (sort_entries entries)

abbrev pub count_slice : H264Info → SourceStats → SourceStats
count_slice info t =
    if info.is_slice
    then (if info.is_idr
        then record t { idr = t.idr + 1 }
        else record t { non_idr = t.non_idr + 1 })
    else t

abbrev pub count_pps : H264Info → SourceStats → SourceStats
count_pps info t = if info.is_pps then record t { pps = t.pps + 1 } else t

abbrev pub count_sps : H264Info → SourceStats → SourceStats
count_sps info t = if info.is_sps then record t { sps = t.sps + 1 } else t

-- A fragment counts only where it starts its NAL unit.
abbrev pub count_nal : Option H264Info → SourceStats → SourceStats
count_nal none t = t
count_nal (some info) t =
    if info.is_fu && not info.fu_start
    then t
    else count_slice info (count_pps info (count_sps info t))

abbrev pub nal_of : List ℕ → Rtp.Parse.Packet → Option H264Info
nal_of payload packet =
    if ltb packet.header_size (length payload)
    then parse_h264 (drop packet.header_size payload)
    else none

abbrev pub count_packet : List ℕ → Rtp.Parse.Packet → SourceStats → SourceStats
count_packet payload packet t =
    count_nal (nal_of payload packet) (record t { packets = t.packets + 1 })

abbrev pub add_parsed : List ℕ → Result ParseError Rtp.Parse.Packet → Sources → Sources
add_parsed payload (err e) sources = sources
add_parsed payload (ok packet) sources =
    change [] packet.ssrc (change no_packets packet.payload_type (count_packet payload packet))
      sources

abbrev pub add_extracted : Result ExtractError (List ℕ) → Sources → Sources
add_extracted (err e) sources = sources
add_extracted (ok payload) sources =
    if length payload == 0 then sources else add_parsed payload (parse payload) sources

unfoldable pub collect : List Read → Sources → Sources
collect [] sources = sources
collect (read ∷ reads) sources =
    collect reads (add_extracted (extract_udp_payload read.packet.bytes read.link_type) sources)

abbrev pub sort_inner : Sources → Sources
sort_inner [] = []
sort_inner ((ssrc, types) ∷ sources) = (ssrc, sort_entries types) ∷ sort_inner sources

unfoldable pub table : Sources → Sources
table sources = sort_inner (sort_entries sources)

abbrev pub listing : List Read × PcapError → Result PcapError Sources
listing (reads, last) = if is_eof last then ok (table (collect reads [])) else err last

unfoldable pub list_sources : Result PcapError Reader → Result PcapError Sources
list_sources (err e) = err e
list_sources (ok r) = listing (read_packets r)
