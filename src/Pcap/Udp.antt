-- ===== src/Pcap/Udp.antt =====
-- The UDP checksum of a built frame.
use rtp_stream_cleaner.Prelude.{
  ℕ, ◌+◌, ◌-◌, ◌%◌, ◌≤◌, ◌<◌, ◌≡◌, ◌↔◌, refl, ap, ◌∙◌, List, ◌++◌, All, length, arith, ◌==◌, set,
  if◌then◌else◌,
}
use rtp_stream_cleaner.Prelude.Words.{add32}
use rtp_stream_cleaner.Bytes.{IsByte, be16, put_be16}
use rtp_stream_cleaner.Pcap.Checksum.{fold_sum, rounds, checksum, udp_checksum, pseudo_header}
use rtp_stream_cleaner.Pcap.Frame.{ip_fields, ip_header, udp_fields, udp_header}
use rtp_stream_cleaner.Pcap.Sums.{total, total-bound, fold_sum_lem, checksum-total, Four}
use rtp_stream_cleaner.Pcap.Built.{total-append, source, destination, source-Four, destination-Four}

sum_of_complements :
    (f a b c p u y : ℕ)
    → f ≤ 65535
    → f % 65535 ≡ (a + b + c) % 65535
    → (a + p) % 65535 ≡ 0
    → (b + u) % 65535 ≡ 0
    → (c + y) % 65535 ≡ 0
    → (65535 - f) % 65535 ≡ (p + u + y) % 65535
sum_of_complements f a b c p u y word e ea eb ec = omega arith

-- The field as the code makes it from a folded sum.
field_of :
    (f : ℕ)
    → f ≤ 65535
    → (if 65535 - f % 65536 == 0 then 65535 else 65535 - f % 65536)
      ≡ (if f == 65535 then 65535 else 65535 - f)
field_of f h = ground arith

field_range :
    (f s : ℕ)
    → f ≤ 65535
    → (65535 - f) % 65535 ≡ s % 65535
    → ((if f == 65535 then 65535 else 65535 - f) % 65535 ≡ s % 65535)
      × ((if f == 65535 then 65535 else 65535 - f) ≤ 65535)
      × (1 ≤ (if f == 65535 then 65535 else 65535 - f))
field_range f s h e = (ground arith, ground arith, ground arith)

module _ (ip udp payload : List ℕ) where
  abbrev pseudo : List ℕ
  pseudo = pseudo_header ip (length udp + length payload)

  abbrev blank : List ℕ
  blank = set (set udp 6 0) 7 0

  abbrev covered : ℕ
  covered = total pseudo + total blank + total payload

  -- The field is the sum itself, where the complement of the sum is wanted: each part is
  -- complemented, and so is their sum.
  udp_checksum-covered :
      total pseudo < 4294967296
      → total blank < 4294967296
      → total payload < 4294967296
      → (udp_checksum ip udp payload % 65535 ≡ covered % 65535)
        × (udp_checksum ip udp payload ≤ 65535)
        × (1 ≤ udp_checksum ip udp payload)
  unfolding udp_checksum
  udp_checksum-covered p u y =
      let cp = checksum-total pseudo p in
      let cu = checksum-total blank u in
      let cy = checksum-total payload y in
      let sum : ℕ = checksum pseudo + checksum blank + checksum payload in
      let folded = fold_sum_lem sum (omega (arith, cp.0, cu.0, cy.0)) in
      let e : add32 (add32 (add32 0 (checksum pseudo)) (checksum blank)) (checksum payload) ≡ sum =
        omega (arith, cp.0, cu.0, cy.0) in
      let congruent =
        sum_of_complements (fold_sum rounds sum) (checksum pseudo) (checksum blank)
          (checksum payload) (total pseudo) (total blank) (total payload) folded.0 folded.1 cp.1
          cu.1 cy.1 in
      rw (e, field_of (fold_sum rounds sum) folded.0)
        (field_range (fold_sum rounds sum) covered folded.0 congruent)

-- A receiver's test, which is that the checksum is zero.
checksum_zero :
    (bytes : List ℕ)
    → total bytes < 4294967296
    → 0 < total bytes
    → (checksum bytes ≡ 0) ↔ (total bytes % 65535 ≡ 0)
checksum_zero bytes h some_set = let (word, fills, full) = checksum-total bytes h in ground arith

module _ (src_port dst_port : ℕ) (payload : List ℕ) where
  abbrev fields : List ℕ
  fields = udp_fields src_port dst_port (8 + length payload)

  total-fields :
      (cs : ℕ)
      → cs ≤ 65535
      → (total (put_be16 fields 6 cs) ≡ total fields + cs)
        × (total fields < 262144)
        × (length fields ≡ 8)
        × (length (put_be16 fields 6 cs) ≡ 8)
        × (set (set fields 6 0) 7 0 ≡ fields)
  unfolding udp_fields put_be16
  total-fields cs h = (omega arith, omega arith, refl, refl, refl)

  total-pseudo :
      (src4 dst4 : List ℕ) (size n : ℕ)
      → Four src4
      → Four dst4
      → let p = pseudo_header (ip_header src4 dst4 size) n in
        (total p < 524288) × (0 < total p) × (length p ≡ 12)
  unfolding ip_header ip_fields put_be16
  total-pseudo src4 dst4 size n s t =
      rw (s.parts, t.parts) (omega (arith, s.bytes, t.bytes), omega arith, refl)

-- The IPv4 header of a built frame, the pseudo header that its receiver puts before the UDP header,
-- and the sum that the checksum is to cover.
abbrev pub built_ip : List ℕ → List ℕ → List ℕ → List ℕ
built_ip src_ip dst_ip payload =
    ip_header (source src_ip) (destination dst_ip) (20 + 8 + length payload)

abbrev pub received : List ℕ → List ℕ → ℕ → ℕ → List ℕ → List ℕ
received src_ip dst_ip src_port dst_port payload =
    let ip = built_ip src_ip dst_ip payload in
    pseudo_header ip (8 + length payload) ++ (udp_header ip src_port dst_port payload ++ payload)

abbrev pub to_cover : List ℕ → List ℕ → ℕ → ℕ → List ℕ → ℕ
to_cover src_ip dst_ip src_port dst_port payload =
    let ip = built_ip src_ip dst_ip payload in
    total (pseudo_header ip (8 + length payload))
    + total (udp_fields src_port dst_port (8 + length payload))
    + total payload

twice :
    (cs sum all : ℕ)
    → all ≡ sum + cs
    → cs % 65535 ≡ sum % 65535
    → (all % 65535 ≡ 0) ↔ (sum % 65535 ≡ 0)
twice cs sum all e same = (λ h. omega arith, λ h. omega arith)

-- What the header holds in its checksum field.
field_read :
    (src_port dst_port n cs : ℕ)
    → cs ≤ 65535
    → be16 (put_be16 (udp_fields src_port dst_port n) 6 cs) 6 ≡ cs
unfolding udp_fields put_be16 be16
field_read src_port dst_port n cs h = omega arith

-- The UDP checksum of a built frame with byte addresses and at most 65535 bytes of payload is not
-- zero, and congruent modulo 65535 to the sum of what it covers, not to the complement of that sum;
-- so the frame passes its receiver's test just where the sum is a multiple of 65535.
pub checksum-udp_header :
    (src_ip dst_ip : List ℕ) (src_port dst_port : ℕ) (payload : List ℕ)
    → All IsByte src_ip
    → All IsByte dst_ip
    → All IsByte payload
    → length payload ≤ 65535
    → let sum : ℕ = to_cover src_ip dst_ip src_port dst_port payload in
      let header = udp_header (built_ip src_ip dst_ip payload) src_port dst_port payload in
      (be16 header 6 % 65535 ≡ sum % 65535)
      × (1 ≤ be16 header 6)
      × ((checksum (received src_ip dst_ip src_port dst_port payload) ≡ 0) ↔ (sum % 65535 ≡ 0))
unfolding udp_header
checksum-udp_header src_ip dst_ip src_port dst_port payload hs hd hp small =
    let s = source-Four src_ip hs in
    let t = destination-Four dst_ip hd in
    let n : ℕ = 8 + length payload in
    let ip = built_ip src_ip dst_ip payload in
    let udp = udp_fields src_port dst_port n in
    let front = pseudo_header ip n in
    let cs : ℕ = udp_checksum ip udp payload in
    let p =
      total-pseudo src_port dst_port payload (source src_ip) (destination dst_ip)
        (20 + 8 + length payload) n s t in
    let u = total-fields src_port dst_port payload 0 (omega arith) in
    let y = total-bound payload hp in
    let e : pseudo ip udp payload ≡ front =
      ap (λ (k : ℕ). pseudo_header ip (k + length payload)) u.2 in
    let f : blank ip udp payload ≡ udp = u.4 in
    let (covers, word, positive) =
      udp_checksum-covered ip udp payload (omega (arith, p.0, ap total e))
        (omega (arith, u.1, ap total f)) (omega (arith, y)) in
    let w = total-fields src_port dst_port payload cs word in
    let inner = total-append 4 (put_be16 udp 6 cs) payload w.3 in
    let whole = total-append 6 front (put_be16 udp 6 cs ++ payload) p.2 in
    let test =
      checksum_zero (front ++ (put_be16 udp 6 cs ++ payload))
        (omega (arith, whole, inner, w.0, p.0, u.1, y, word)) (omega (arith, whole, p.1)) in
    let sum : ℕ = to_cover src_ip dst_ip src_port dst_port payload in
    let same : cs % 65535 ≡ sum % 65535 = omega (arith, covers, ap total e, ap total f) in
    let (there, back) =
      twice cs sum (total (front ++ (put_be16 udp 6 cs ++ payload)))
        (omega (arith, whole, inner, w.0)) same in
    (
      ap (λ (k : ℕ). k % 65535) (field_read src_port dst_port n cs word) ∙ same,
      omega (arith, field_read src_port dst_port n cs word, positive),
      (λ h. there (test.0 h), λ h. test.1 (back h)),
    )
