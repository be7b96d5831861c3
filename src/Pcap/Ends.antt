-- ===== src/Pcap/Ends.antt =====
-- How much of a file each read and each block takes off it.
use rtp_stream_cleaner.Prelude.{
  ℕ, zero, suc, ◌+◌, ◌-◌, ◌≤◌, ◌<◌, ◌≡◌, if_cases, if_split, ◌^◌, ◌%◌, refl, inl, inr, Bool, true,
  false, Option, none, some, List, length, length-drop, arith, ltb, ◌==◌, Result, ok, err,
  Bool-cases,
}
use rtp_stream_cleaner.Bytes.Order.{le32, uint32}
use rtp_stream_cleaner.Pcap.{
  Packet, PcapError, end_of_file, out_of_fuel, full, short, read_full, ReadFull, eof,
}
use rtp_stream_cleaner.Pcap.Ng.{
  NgInterface, Reader, Step, found, skipped, stopped, section_block, interface_block, add_interface,
  packet_block, section_order, after_block, after_trailer, after_payload, after_header, dispatch,
  next_block, next_pcapng,
}
use rtp_stream_cleaner.Pcap.Reader.{
  Read, after_record_data, after_record_header, after_next, next_pcap, next, drain, read_packets,
}

abbrev pub is_out_of_fuel : PcapError → Bool
is_out_of_fuel out_of_fuel = true
is_out_of_fuel e = false

-- What a step leaves of the file, and that it does not itself run out of fuel.
abbrev Leaves : ℕ → Step → Type 0
Leaves n (found packet q) = length q.rest ≤ n
Leaves n (skipped q) = length q.rest ≤ n
Leaves n (stopped e) = is_out_of_fuel e ≡ false

add_interface-Leaves :
    (r : Reader) (link_type : ℕ) (iface : Option NgInterface)
    → Leaves (length r.rest) (add_interface r link_type iface)
add_interface-Leaves r link_type none = refl
add_interface-Leaves r link_type (some iface) = omega arith

module _ (r : Reader) (payload : List ℕ) where
  section_block-Leaves : Leaves (length r.rest) (section_block r payload)
  unfolding section_block
  section_block-Leaves = if_cases (Leaves (length r.rest)) (ltb (length payload) 4) refl (
      if_cases (Leaves (length r.rest)) (le32 payload 0 == 0x1A2B3C4D) (omega arith)
        (if_cases (Leaves (length r.rest)) (le32 payload 0 == 0x4D3C2B1A) (omega arith) refl))

  interface_block-Leaves : Leaves (length r.rest) (interface_block r payload)
  unfolding interface_block
  interface_block-Leaves =
      if_cases (Leaves (length r.rest)) (ltb (length payload) 8) refl (add_interface-Leaves r _ _)

  packet_block-Leaves : Leaves (length r.rest) (packet_block r payload)
  unfolding packet_block
  packet_block-Leaves =
      let end : ℕ = (20 + uint32 (section_order r.ng_section) payload 12) % 2 ^ 32 in
      if_cases (Leaves (length r.rest)) (ltb (length payload) 20) refl (
        if_cases (Leaves (length r.rest)) (ltb (length payload) end) refl
          (if_cases (Leaves (length r.rest)) (ltb end 20) refl (omega arith)))

  dispatch-Leaves : (block_type : ℕ) → Leaves (length r.rest) (dispatch r block_type payload)
  dispatch-Leaves block_type =
      if_cases (Leaves (length r.rest)) (block_type == 0x0A0D0D0A) section_block-Leaves (
        if_cases (Leaves (length r.rest)) (block_type == 0x00000001) interface_block-Leaves (
          if_cases (Leaves (length r.rest)) (block_type == 0x00000006) packet_block-Leaves
            (omega arith)))

-- The same with less of the file left than before.
abbrev Takes : ℕ → Step → Type 0
Takes n (found packet q) = length q.rest < n
Takes n (skipped q) = length q.rest < n
Takes n (stopped e) = is_out_of_fuel e ≡ false

Leaves-Takes : (k n : ℕ) (s : Step) → k < n → Leaves k s → Takes n s
Leaves-Takes k n (found packet q) h l = omega arith
Leaves-Takes k n (skipped q) h l = omega arith
Leaves-Takes k n (stopped e) h l = l

-- A read that succeeds takes n bytes off a file.
abbrev Reads : ℕ → ReadFull → Type 0
Reads n (short e) = Unit {0}
Reads n (full bytes rest) = length rest ≤ n

read_full-Reads : (k : ℕ) (file : List ℕ) → Reads (length file - k) (read_full k file)
unfolding read_full
read_full-Reads k file =
    let left = length-drop {0} k file in
    if_split (Reads (length file - k)) (k == 0) (λ nothing. ground arith)
      (λ some_asked.
        if_cases (Reads (length file - k)) (length file == 0) tt
          (if_cases (Reads (length file - k)) (ltb (length file) k) tt (omega (arith, left))))

after_trailer-Takes :
    (r : Reader) (block_type : ℕ) (payload : List ℕ) (n k : ℕ) (x : ReadFull)
    → Reads k x
    → k < n
    → Takes n (after_trailer r block_type payload x)
after_trailer-Takes r block_type payload n k (short e) h l = refl
after_trailer-Takes r block_type payload n k (full trailer rest) h l =
    Leaves-Takes (length rest) n (dispatch (record r { rest = rest }) block_type payload)
      (omega arith) (dispatch-Leaves (record r { rest = rest }) payload block_type)

after_payload-Takes :
    (r : Reader) (block_type n k : ℕ) (x : ReadFull)
    → Reads k x
    → k < n
    → Takes n (after_payload r block_type x)
after_payload-Takes r block_type n k (short e) h l = refl
after_payload-Takes r block_type n k (full payload after) h l =
    after_trailer-Takes r block_type payload n (length after - 4) (read_full 4 after)
      (read_full-Reads 4 after) (omega arith)

after_header-Takes :
    (r : Reader) (n k : ℕ) (x : ReadFull) → Reads k x → k < n → Takes n (after_header r x)
after_header-Takes r n k (short e) h l = refl
after_header-Takes r n k (full header body) h l =
    let size : ℕ = le32 header 4 - 12 in
    if_cases (Takes n) (ltb (le32 header 4) 12) refl (
      after_payload-Takes r (le32 header 0) n (length body - size) (read_full size body)
        (read_full-Reads size body) (omega arith))

next_block-Takes : (r : Reader) → 0 < length r.rest → Takes (length r.rest) (next_block r)
unfolding next_block
next_block-Takes r some_left =
    after_header-Takes r (length r.rest) (length r.rest - 8) (read_full 8 r.rest)
      (read_full-Reads 8 r.rest) (omega arith)

next_block_of_nil : (r : Reader) → length r.rest ≡ 0 → next_block r ≡ stopped end_of_file
unfolding next_block read_full
next_block_of_nil r e = ground arith

-- A call that succeeds takes bytes off the file, and no call runs out of fuel.
abbrev Shrinks : ℕ → Result PcapError (Packet × Reader) → Type 0
Shrinks n (ok answer) = length answer.1.rest < n
Shrinks n (err e) = is_out_of_fuel e ≡ false

Shrinks-mono :
    (k n : ℕ) (x : Result PcapError (Packet × Reader)) → k ≤ n → Shrinks k x → Shrinks n x
Shrinks-mono k n (ok answer) h s = omega arith
Shrinks-mono k n (err e) h s = s

after_block-Shrinks :
    (n : ℕ) (again : Reader → Result PcapError (Packet × Reader))
    → ((q : Reader) → length q.rest < n → Shrinks (length q.rest) (again q))
    → (s : Step) → Takes n s
    → Shrinks n (after_block again s)
after_block-Shrinks n again ih (found packet q) t = t
after_block-Shrinks n again ih (skipped q) t =
    Shrinks-mono (length q.rest) n (again q) (omega arith) (ih q t)
after_block-Shrinks n again ih (stopped e) t = t

next_pcapng-Shrinks :
    (fuel : ℕ) (r : Reader) → length r.rest < fuel → Shrinks (length r.rest) (next_pcapng fuel r)
unfolding next_pcapng
next_pcapng-Shrinks zero r h = absurd (omega arith)
next_pcapng-Shrinks (suc fuel) r h = elim (Bool-cases (length r.rest == 0)) [
  | inl nothing ↦
      let e = next_block_of_nil r (ground arith) in
      after_block-Shrinks (length r.rest) (next_pcapng fuel)
        (λ q less. next_pcapng-Shrinks fuel q (omega arith)) (next_block r) (rw e refl)
  | inr left ↦
      after_block-Shrinks (length r.rest) (next_pcapng fuel)
        (λ q less. next_pcapng-Shrinks fuel q (omega arith)) (next_block r)
        (next_block-Takes r (ground arith))
]

after_record_data-Shrinks :
    (r : Reader) (header : List ℕ) (n k : ℕ) (x : ReadFull)
    → Reads k x
    → k < n
    → Shrinks n (after_record_data r header x)
after_record_data-Shrinks r header n k (short e) h l = refl
after_record_data-Shrinks r header n k (full bytes rest) h l = omega arith

after_record_header-Shrinks :
    (r : Reader) (n k : ℕ) (x : ReadFull) → Reads k x → k < n → Shrinks n (after_record_header r x)
after_record_header-Shrinks r n k (short e) h l = refl
after_record_header-Shrinks r n k (full header body) h l =
    let size : ℕ = uint32 r.byte_order header 8 in
    after_record_data-Shrinks r header n (length body - size) (read_full size body)
      (read_full-Reads size body) (omega arith)

read_full_nothing : (k : ℕ) (file : List ℕ) → length file ≡ 0 → read_full (suc k) file ≡ short eof
unfolding read_full
read_full_nothing k file e = ground arith

next-Shrinks : (r : Reader) → Shrinks (length r.rest) (next r)
unfolding next next_pcap
next-Shrinks r =
    if_cases (Shrinks (length r.rest)) r.is_pcapng
      (next_pcapng-Shrinks (suc (length r.rest)) r (omega arith))
      (elim (Bool-cases (length r.rest == 0)) [
        | inl nothing ↦ rw (read_full_nothing 15 r.rest (ground arith)) refl
        | inr left ↦
            after_record_header-Shrinks r (length r.rest) (length r.rest - 16) (read_full 16 r.rest)
              (read_full-Reads 16 r.rest) (ground arith)
      ])

after_next-ends :
    (n : ℕ) (again : Reader → List Read × PcapError)
    → ((q : Reader) → length q.rest < n → is_out_of_fuel (again q).1 ≡ false)
    → (x : Result PcapError (Packet × Reader)) → Shrinks n x
    → is_out_of_fuel (after_next again x).1 ≡ false
after_next-ends n again ih (err e) s = s
after_next-ends n again ih (ok answer) s = ih answer.1 s

drain-ends :
    (fuel : ℕ) (r : Reader) → length r.rest < fuel → is_out_of_fuel (drain fuel r).1 ≡ false
unfolding drain
drain-ends zero r h = absurd (omega arith)
drain-ends (suc fuel) r h =
    after_next-ends (length r.rest) (drain fuel) (λ q less. drain-ends fuel q (omega arith))
      (next r) (next-Shrinks r)

-- Reading ends for every reader, of either format and over any bytes: both the loop over the blocks
-- of a pcapng file and the calls until one fails stop before the rounds that are counted out for
-- them, so the last error is one of the program's own.
pub read_packets-ends : (r : Reader) → is_out_of_fuel (read_packets r).1 ≡ false
unfolding read_packets
read_packets-ends r = drain-ends (suc (length r.rest)) r (omega arith)
