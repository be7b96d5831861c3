-- ===== src/Pcap/Ng.antt =====
-- The blocks of a pcapng file, as nextPcapng of internal/pcapio/pcapio.go reads them.
use rtp_stream_cleaner.Prelude.{
  ℕ, zero, suc, ◌+◌, ◌-◌, ◌*◌, ◌/◌, ◌%◌, ◌^◌, Bool, ◌&&◌, Option, none, some, List, [], ◌∷◌, ◌++◌,
  length, take, drop, bit_and, leb, ltb, ◌==◌, if◌then◌else◌, Result, ok, err,
}
use rtp_stream_cleaner.Bytes.{byte}
use rtp_stream_cleaner.Bytes.Order.{
  ByteOrder, little_endian, big_endian, le16, le32, uint16, uint32,
}
use rtp_stream_cleaner.Pcap.{
  Packet, PcapError, end_of_file, invalid_block_length, read_block_payload, read_block_trailer,
  section_header_too_short, unknown_byte_order, interface_header_too_short, packet_header_too_short,
  packet_data_too_short, runtime_panic, out_of_fuel, ReadFull, full, short, read_full,
  link_type_ether,
}

pub record NgInterface : Type 0 where
  pub link_type : ℕ
  pub ts_res : ℕ

-- The fields of Reader. The map ngIfaces has the keys 0, 1, ..., so it is a list.
pub record Reader : Type 0 where
  pub rest : List ℕ
  pub link_type : ℕ
  pub byte_order : ByteOrder
  pub is_pcapng : Bool
  pub ng_ifaces : List NgInterface
  pub ng_section : Option ByteOrder

-- The options of a block, in their order; `fuel` is the number of bytes.
unfoldable pub parse_ng_options : ℕ → List ℕ → List (ℕ × List ℕ)
parse_ng_options zero p = []
parse_ng_options (suc fuel) p =
    let code : ℕ = le16 p 0 in
    let size : ℕ = le16 p 2 in
    let value = drop 4 p in
    let padded : ℕ = size + (4 - size % 4) % 4 in
    let rest = parse_ng_options fuel (drop padded value) in
    if ltb (length p) 4
    then []
    else if code == 0
    then []
    else if ltb (length value) size
    then []
    else if ltb (length value) padded
    then (code, take size value) ∷ []
    else (code, take size value) ∷ rest

-- An int64 quotient of a second by a divisor that wrapped around; a divisor of 0 panics.
abbrev pub second_over : ℕ → Option ℕ
second_over divisor =
    let d : ℕ = divisor % 2 ^ 64 in
    if d == 0
    then none
    else if leb (2 ^ 63) d
    then some ((2 ^ 64 - 1_000_000_000 / (2 ^ 64 - d)) % 2 ^ 64)
    else some (1_000_000_000 / d)

-- time.Second / (1 << res), or time.Second / (10 << (res & 0x7f)).
unfoldable pub ts_resolution : ℕ → Option ℕ
ts_resolution res =
    if bit_and res 0x80 == 0 then second_over (2 ^ res) else second_over (10 * 2 ^ bit_and res 0x7f)

abbrev pub with_resolution : NgInterface → Option ℕ → Option NgInterface
with_resolution iface none = none
with_resolution iface (some res) = some (record iface { ts_res = res })

abbrev pub apply_option : NgInterface → ℕ × List ℕ → Option NgInterface
apply_option iface (code, value) =
    if code == 9 && leb 1 (length value)
    then with_resolution iface (ts_resolution (byte value 0))
    else some iface

unfoldable pub apply_options : Option NgInterface → List (ℕ × List ℕ) → Option NgInterface
apply_options none options = none
apply_options (some iface) [] = some iface
apply_options (some iface) (option ∷ options) = apply_options (apply_option iface option) options

abbrev pub section_order : Option ByteOrder → ByteOrder
section_order none = little_endian
section_order (some bo) = bo

-- What one block does to the reader: a packet, nothing to return yet, or an error.
pub data Step : Type 0 where
  found : Packet → Reader → Step
  skipped : Reader → Step
  stopped : PcapError → Step

unfoldable pub section_block : Reader → List ℕ → Step
section_block r payload =
    if ltb (length payload) 4
    then stopped section_header_too_short
    else if le32 payload 0 == 0x1A2B3C4D
    then skipped (record r { ng_section = some little_endian })
    else if le32 payload 0 == 0x4D3C2B1A
    then skipped (record r { ng_section = some big_endian })
    else stopped unknown_byte_order

abbrev pub add_interface : Reader → ℕ → Option NgInterface → Step
add_interface r link_type none = stopped runtime_panic
add_interface r link_type (some iface) = skipped (record r {
  ng_ifaces = r.ng_ifaces ++ (iface ∷ []);
  link_type = if r.link_type == 0 then link_type else r.link_type;
})

unfoldable pub interface_block : Reader → List ℕ → Step
interface_block r payload =
    if ltb (length payload) 8
    then stopped interface_header_too_short
    else (let link_type : ℕ = uint16 (section_order r.ng_section) payload 0 in
        let options = drop 8 payload in
        add_interface r link_type (
          apply_options (some (record { link_type = link_type; ts_res = 1000 }))
            (parse_ng_options (length options) options)))

abbrev pub lookup : List NgInterface → ℕ → NgInterface
lookup [] id = record { link_type = link_type_ether; ts_res = 1000 }
lookup (iface ∷ ifaces) zero = iface
lookup (iface ∷ ifaces) (suc id) = lookup ifaces id

-- payload[20:20+capLen], whose end is a uint32 that may wrap to a number below 20.
unfoldable pub packet_block : Reader → List ℕ → Step
packet_block r payload =
    if ltb (length payload) 20
    then stopped packet_header_too_short
    else (let bo = section_order r.ng_section in
        let iface = lookup r.ng_ifaces (uint32 bo payload 0) in
        let cap_len : ℕ = uint32 bo payload 12 in
        let end : ℕ = (20 + cap_len) % 2 ^ 32 in
        if ltb (length payload) end
        then stopped packet_data_too_short
        else if ltb end 20
        then stopped runtime_panic
        else found
            (record {
              timestamp =
                  (uint32 bo payload 4 * 4294967296 + uint32 bo payload 8) * iface.ts_res % 2 ^ 64;
              bytes = take cap_len (drop 20 payload);
            })
            (record r { link_type = iface.link_type }))

abbrev pub dispatch : Reader → ℕ → List ℕ → Step
dispatch r block_type payload =
    if block_type == 0x0A0D0D0A
    then section_block r payload
    else if block_type == 0x00000001
    then interface_block r payload
    else if block_type == 0x00000006
    then packet_block r payload
    else skipped r

-- One round of the loop: a block header, the block and its trailer, as far as they can be read.
abbrev pub after_trailer : Reader → ℕ → List ℕ → ReadFull → Step
after_trailer r block_type payload (short e) = stopped (read_block_trailer e)
after_trailer r block_type payload (full trailer rest) =
    dispatch (record r { rest = rest }) block_type payload

abbrev pub after_payload : Reader → ℕ → ReadFull → Step
after_payload r block_type (short e) = stopped (read_block_payload e)
after_payload r block_type (full payload after) =
    after_trailer r block_type payload (read_full 4 after)

abbrev pub after_header : Reader → ReadFull → Step
after_header r (short e) = stopped end_of_file
after_header r (full header body) =
    if ltb (le32 header 4) 12
    then stopped invalid_block_length
    else after_payload r (le32 header 0) (read_full (le32 header 4 - 12) body)

unfoldable pub next_block : Reader → Step
next_block r = after_header r (read_full 8 r.rest)

-- The loop of nextPcapng, on fuel.
abbrev pub after_block :
    (Reader → Result PcapError (Packet × Reader)) → Step → Result PcapError (Packet × Reader)
after_block again (found packet q) = ok (packet, q)
after_block again (skipped q) = again q
after_block again (stopped e) = err e

unfoldable pub next_pcapng : ℕ → Reader → Result PcapError (Packet × Reader)
next_pcapng zero r = err out_of_fuel
next_pcapng (suc fuel) r = after_block (next_pcapng fuel) (next_block r)
