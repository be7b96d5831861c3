-- ===== src/Pcap/Written.antt =====
-- What the writer leaves in a file that takes every write whole.
use rtp_stream_cleaner.Prelude.{
  ℕ, ◌≡◌, refl, sym, ap, ◌∙◌, true, false, Option, none, List, [], ◌∷◌, ◌++◌, append_assoc,
  append-nil, length, take-length, leb, arith,
}
use rtp_stream_cleaner.Pcap.Writer.{
  Writer, Disk, Captured, WriteError, frame_of, record_header, write_packet, write_file,
}

-- A disk that takes every write whole.
abbrev pub takes_all : Disk
takes_all held bytes = length bytes

-- One call after another; the errors are the callers' to see.
unfoldable pub write_packets : Disk → Writer → List Captured → Writer
write_packets disk w [] = w
write_packets disk w (c ∷ captured) = write_packets disk (write_packet disk w c).0 captured

abbrev pub record_bytes : Captured → List ℕ
record_bytes c = record_header c.ts (length (frame_of c)) ++ frame_of c

abbrev pub records : List Captured → List ℕ
records [] = []
records (c ∷ captured) = record_bytes c ++ records captured

write_file_whole :
    (w : Writer) (bytes : List ℕ)
    → write_file takes_all w bytes ≡ (record w { written = w.written ++ bytes }, true)
unfolding write_file
write_file_whole w bytes =
    let whole = take-length bytes in
    let long : leb (length bytes) (length bytes) ≡ true = ground arith in rw (whole, long) refl

write_packet_whole :
    (w : Writer) (c : Captured)
    → w.closed ≡ false
    → write_packet takes_all w c ≡ (record w { written = w.written ++ record_bytes c }, none)
unfolding write_packet
write_packet_whole w c open_now =
    let header = record_header c.ts (length (frame_of c)) in
    let grouped = append_assoc w.written header (frame_of c) in
    let q = record w { written = w.written ++ header } in
    rw (write_file_whole w header, write_file_whole q (frame_of c), grouped) (ground arith)

pub write_packets_whole :
    (captured : List Captured) (w : Writer)
    → w.closed ≡ false
    → (write_packets takes_all w captured).written ≡ w.written ++ records captured
unfolding write_packets
write_packets_whole [] w open_now = sym (append-nil w.written)
write_packets_whole (c ∷ captured) w open_now =
    let after = record w { written = w.written ++ record_bytes c } in
    let one =
      ap (λ (p : Writer × Option WriteError). (write_packets takes_all p.0 captured).written)
        (write_packet_whole w c open_now) in
    one
    ∙ write_packets_whole captured after open_now
    ∙ append_assoc w.written (record_bytes c) (records captured)
