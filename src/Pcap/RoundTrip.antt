-- ===== src/Pcap/RoundTrip.antt =====
-- Reading back a file that the writer wrote.
use mathlib.Core.List.{map}
use rtp_stream_cleaner.Prelude.{
  ℕ, zero, suc, ◌+◌, ◌*◌, ◌/◌, ◌%◌, ◌≤◌, ◌<◌, ◌≡◌, refl, ap, ◌∙◌, false, List, [], ◌∷◌, ◌++◌,
  append_assoc, All, length, length-append, take, take-append, drop, drop-append, Result, ok, err,
  arith,
}
use rtp_stream_cleaner.Bytes.{be32}
use rtp_stream_cleaner.Bytes.Order.{little_endian, le32}
use rtp_stream_cleaner.Pcap.{Packet, PcapError, end_of_file, full, read_full, link_type_ether}
use rtp_stream_cleaner.Pcap.Writer.{
  Writer, Captured, WriteError, file_header, new_writer, frame_of, record_header, write_file,
}
use rtp_stream_cleaner.Pcap.Written.{
  takes_all, write_packets, record_bytes, records, write_packets_whole,
}
use rtp_stream_cleaner.Pcap.Ng.{Reader}
use rtp_stream_cleaner.Pcap.Reader.{
  Read, new_reader, after_next, after_magic, after_pcap_header, open_reader, next_pcap, next, drain,
  read_packets, after_record_header, after_record_data,
}

-- A read of the bytes in front.
read_full-append : (n : ℕ) (xs ys : List ℕ) → n ≡ length xs → read_full n (xs ++ ys) ≡ full xs ys
unfolding read_full
read_full-append zero [] ys e = refl
read_full-append zero (x ∷ xs) ys e = absurd (omega arith)
read_full-append (suc n) xs ys e =
    let size = length-append xs ys in
    let front = take-append (suc n) xs ys e in
    let back = drop-append (suc n) xs ys e in ground arith

le32_of_bytes :
    (v : ℕ)
    → v < 4294967296
    → v % 256 + v / 256 % 256 * 256 + v / 65536 % 256 * 65536 + v / 16777216 % 256 * 16777216 ≡ v
le32_of_bytes v h = omega arith

length-record_header : (ts size : ℕ) → 16 ≡ length (record_header ts size)
unfolding record_header
length-record_header ts size = refl

module _ (ts size : ℕ) (size_fits : size < 4294967296) where
  seconds_read :
      ts / 1_000_000_000 < 4294967296 → le32 (record_header ts size) 0 ≡ ts / 1_000_000_000
  unfolding record_header
  seconds_read h =
      let s : ℕ = ts / 1_000_000_000 in
      let kept : s % 4294967296 ≡ s = omega arith in rw kept (le32_of_bytes s h)

  microseconds_read : le32 (record_header ts size) 4 ≡ ts % 1_000_000_000 / 1000
  unfolding record_header
  microseconds_read = le32_of_bytes (ts % 1_000_000_000 / 1000) (omega arith)

  size_read : le32 (record_header ts size) 8 ≡ size
  unfolding record_header
  size_read =
      let kept : size % 4294967296 ≡ size = omega arith in rw kept (le32_of_bytes size size_fits)

abbrev pub Fits : Captured → Type 0
Fits c = (c.ts / 1_000_000_000 < 4294967296) × (length (frame_of c) < 4294967296)

abbrev pub reader : List ℕ → Reader
reader rest = new_reader rest little_endian false link_type_ether

-- The clock of a record ticks in microseconds.
abbrev pub packet_of : Captured → Packet
packet_of c = record { timestamp = c.ts / 1000 * 1000; bytes = frame_of c }

to_microseconds :
    (ts : ℕ)
    → ts / 1_000_000_000 * 1_000_000_000 + ts % 1_000_000_000 / 1000 * 1000 ≡ ts / 1000 * 1000
to_microseconds ts = omega arith

after_record_data-record :
    (c : Captured) (more : List ℕ)
    → Fits c
    → after_record_data
        (reader (record_bytes c ++ more))
        (record_header c.ts (length (frame_of c)))
        (full (frame_of c) more)
      ≡ ok (packet_of c, reader more)
after_record_data-record c more fits =
    let n : ℕ = length (frame_of c) in
    rw (seconds_read c.ts n fits.1 fits.0, microseconds_read c.ts n fits.1, to_microseconds c.ts)
      refl

next_pcap-record :
    (c : Captured) (more : List ℕ)
    → Fits c
    → next_pcap (reader (record_bytes c ++ more)) ≡ ok (packet_of c, reader more)
unfolding next_pcap
next_pcap-record c more fits =
    let n : ℕ = length (frame_of c) in
    let header : List ℕ = record_header c.ts n in
    let r = reader (record_bytes c ++ more) in
    ap (λ (bytes : List ℕ). after_record_header r (read_full 16 bytes))
      (append_assoc header (frame_of c) more)
    ∙ ap (after_record_header r)
        (read_full-append 16 header (frame_of c ++ more) (length-record_header c.ts n))
    ∙ ap (λ (k : ℕ). after_record_data r header (read_full k (frame_of c ++ more)))
        (size_read c.ts n fits.1)
    ∙ ap (after_record_data r header) (read_full-append n (frame_of c) more refl)
    ∙ after_record_data-record c more fits

next-record :
    (c : Captured) (more : List ℕ)
    → Fits c
    → next (reader (record_bytes c ++ more)) ≡ ok (packet_of c, reader more)
unfolding next
next-record c more fits = next_pcap-record c more fits

next-nothing : next (reader []) ≡ err end_of_file
unfolding next next_pcap read_full
next-nothing = refl

abbrev pub read_back : Captured → Read
read_back c = record { packet = packet_of c; link_type = link_type_ether }

drain-records :
    (captured : List Captured) (fuel : ℕ)
    → All Fits captured
    → length captured < fuel
    → drain fuel (reader (records captured)) ≡ (map read_back captured, end_of_file)
unfolding drain
drain-records captured zero fit h = absurd (omega arith)
drain-records [] (suc fuel) fit h = ap (after_next (drain fuel)) next-nothing
drain-records (c ∷ captured) (suc fuel) (fits, fit) h =
    ap (after_next (drain fuel)) (next-record c (records captured) fits)
    ∙ ap (λ (x : List Read × PcapError). (read_back c ∷ x.0, x.1))
        (drain-records captured fuel fit (omega arith))

length-records : (captured : List Captured) → length captured ≤ length (records captured)
length-records [] = omega arith
length-records (c ∷ captured) =
    let ih = length-records captured in
    let size = length-append (record_bytes c) (records captured) in
    let header = length-append (record_header c.ts (length (frame_of c))) (frame_of c) in
    let known = length-record_header c.ts (length (frame_of c)) in omega arith

abbrev pub written_file : Result WriteError Writer → List Captured → List ℕ
written_file (err e) captured = []
written_file (ok w) captured = (write_packets takes_all w captured).written

new_writer-file_header :
    new_writer takes_all ≡ ok (record { written = file_header; closed = false })
unfolding new_writer write_file
new_writer-file_header = refl

written_file_whole :
    (captured : List Captured)
    → written_file (new_writer takes_all) captured ≡ file_header ++ records captured
written_file_whole captured =
    ap (λ x. written_file x captured) new_writer-file_header
    ∙ write_packets_whole captured (record { written = file_header; closed = false }) refl

open_reader-file_header : (rest : List ℕ) → open_reader (file_header ++ rest) ≡ ok (reader rest)
unfolding open_reader be32
open_reader-file_header rest =
    let file : List ℕ = file_header ++ rest in
    ap (after_magic file)
      (read_full-append 4 (take 4 file_header) (drop 4 file_header ++ rest) refl)
    ∙ ap (after_pcap_header little_endian) (read_full-append 20 (drop 4 file_header) rest refl)

abbrev pub reads_of : Result PcapError Reader → List Read × PcapError
reads_of (err e) = ([], e)
reads_of (ok r) = read_packets r

pub open_reader-written_file :
    (captured : List Captured)
    → open_reader (written_file (new_writer takes_all) captured) ≡ ok (reader (records captured))
open_reader-written_file captured =
    ap open_reader (written_file_whole captured) ∙ open_reader-file_header (records captured)

pub read_packets-records :
    (captured : List Captured)
    → All Fits captured
    → read_packets (reader (records captured)) ≡ (map read_back captured, end_of_file)
unfolding read_packets
read_packets-records captured fit =
    drain-records captured (suc (length (records captured))) fit
      (let shorter = length-records captured in omega arith)

-- A capture reads back as it was written: into a file that takes every write whole the writer puts
-- its header and then the datagrams, and the file opens as a reader whose packets are their
-- frames, in the order of the writes, each with its time cut to microseconds and with the link
-- type of Ethernet, until the end of the file. The seconds of each time fit into 32 bits, and so
-- does the length of each frame.
pub read_packets-write_packets :
    (captured : List Captured)
    → All Fits captured
    → reads_of (open_reader (written_file (new_writer takes_all) captured))
      ≡ (map read_back captured, end_of_file)
read_packets-write_packets captured fit =
    ap reads_of (open_reader-written_file captured) ∙ read_packets-records captured fit
