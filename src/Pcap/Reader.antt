-- ===== src/Pcap/Reader.antt =====
-- OpenReader, nextPcap, Next and LinkType of internal/pcapio/pcapio.go.
use rtp_stream_cleaner.Prelude.{
  ℕ, zero, suc, ◌+◌, ◌*◌, Bool, true, false, none, List, [], ◌∷◌, length, ◌==◌, if◌then◌else◌,
  Result, ok, err,
}
use rtp_stream_cleaner.Bytes.{be32}
use rtp_stream_cleaner.Bytes.Order.{ByteOrder, little_endian, big_endian, uint32}
use rtp_stream_cleaner.Pcap.{
  Packet, PcapError, end_of_file, read_magic, unsupported_magic, read_pcap_header, out_of_fuel,
  ReadFull, full, short, read_full,
}
use rtp_stream_cleaner.Pcap.Ng.{Reader, next_pcapng}

abbrev pub new_reader : List ℕ → ByteOrder → Bool → ℕ → Reader
new_reader rest byte_order is_pcapng link_type = record {
  rest = rest;
  link_type = link_type;
  byte_order = byte_order;
  is_pcapng = is_pcapng;
  ng_ifaces = [];
  ng_section = none;
}

abbrev pub after_pcap_header : ByteOrder → ReadFull → Result PcapError Reader
after_pcap_header bo (short e) = err (read_pcap_header e)
after_pcap_header bo (full header rest) = ok (new_reader rest bo false (uint32 bo header 16))

-- A pcapng reader seeks back to the start of the file.
abbrev pub after_magic : List ℕ → ReadFull → Result PcapError Reader
after_magic file (short e) = err (read_magic e)
after_magic file (full magic rest) =
    if be32 magic 0 == 0x0a0d0d0a
    then ok (new_reader file little_endian true 0)
    else if be32 magic 0 == 0xa1b2c3d4
    then after_pcap_header big_endian (read_full 20 rest)
    else if be32 magic 0 == 0xd4c3b2a1
    then after_pcap_header little_endian (read_full 20 rest)
    else err (unsupported_magic (be32 magic 0))

unfoldable pub open_reader : List ℕ → Result PcapError Reader
open_reader file = after_magic file (read_full 4 file)

abbrev pub after_record_data : Reader → List ℕ → ReadFull → Result PcapError (Packet × Reader)
after_record_data r header (short e) = err end_of_file
after_record_data r header (full bytes rest) = ok (
  record {
    timestamp = uint32 r.byte_order header 0 * 1_000_000_000 + uint32 r.byte_order header 4 * 1000;
    bytes = bytes;
  },
  record r { rest = rest },
)

abbrev pub after_record_header : Reader → ReadFull → Result PcapError (Packet × Reader)
after_record_header r (short e) = err end_of_file
after_record_header r (full header body) =
    after_record_data r header (read_full (uint32 r.byte_order header 8) body)

unfoldable pub next_pcap : Reader → Result PcapError (Packet × Reader)
next_pcap r = after_record_header r (read_full 16 r.rest)

-- Each round of the loop for pcapng takes a block off the file, so a round for each byte is enough.
unfoldable pub next : Reader → Result PcapError (Packet × Reader)
next r = if r.is_pcapng then next_pcapng (suc (length r.rest)) r else next_pcap r

-- A packet, and what LinkType answers after the call that returned it.
pub record Read : Type 0 where
  pub packet : Packet
  pub link_type : ℕ

-- What a caller gets that calls Next until it fails: the packets and the last error. Each call
-- that succeeds takes bytes off the file, so a call for each byte and one more are enough.
abbrev pub after_next :
    (Reader → List Read × PcapError) → Result PcapError (Packet × Reader) → List Read × PcapError
after_next again (err e) = ([], e)
after_next again (ok (packet, r)) =
    let rest = again r in (record { packet = packet; link_type = r.link_type } ∷ rest.0, rest.1)

unfoldable pub drain : ℕ → Reader → List Read × PcapError
drain zero r = ([], out_of_fuel)
drain (suc fuel) r = after_next (drain fuel) (next r)

unfoldable pub read_packets : Reader → List Read × PcapError
read_packets r = drain (suc (length r.rest)) r
