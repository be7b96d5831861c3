-- ===== src/Pcap/Checksum.antt =====
-- checksum and udpChecksum of internal/pcapio/pcapio.go. `x & 0xffff` is x % 65536 and `^x` of a
-- uint16 is 65535 - x.
use rtp_stream_cleaner.Prelude.{
  ℕ, zero, suc, ◌+◌, ◌-◌, ◌*◌, ◌/◌, ◌%◌, List, [], ◌∷◌, length, take, drop, ltb, ◌==◌,
  if◌then◌else◌, set,
}
use rtp_stream_cleaner.Prelude.Words.{add32}
use rtp_stream_cleaner.Bytes.{put_be16}
use rtp_stream_cleaner.Pcap.{zeros, copy_at}

-- The words of the data, and a last odd byte as a high one, added up in a uint32.
unfoldable pub sum_words : ℕ → List ℕ → ℕ
sum_words sum [] = sum
sum_words sum (x ∷ []) = add32 sum (x * 256)
sum_words sum (x ∷ y ∷ rest) = sum_words (add32 sum (x * 256 + y)) rest

-- for sum > 0xffff { sum = (sum >> 16) + (sum & 0xffff) }
unfoldable pub fold_sum : ℕ → ℕ → ℕ
fold_sum zero sum = sum
fold_sum (suc fuel) sum =
    let next : ℕ = add32 (sum / 65536) (sum % 65536) in
    let rest : ℕ = fold_sum fuel next in if ltb 65535 sum then rest else sum

-- A uint32 is folded in two rounds at most; `rounds` is one more.
abbrev pub rounds : ℕ
rounds = 3

unfoldable pub checksum : List ℕ → ℕ
unfolding sum_words fold_sum
checksum bytes = 65535 - fold_sum rounds (sum_words 0 bytes) % 65536

abbrev pub pseudo_header : List ℕ → ℕ → List ℕ
pseudo_header ip_header size =
    put_be16
      (set
        (set
          (copy_at (copy_at (zeros 12) 0 4 (take 4 (drop 12 ip_header))) 4 4
            (take 4 (drop 16 ip_header)))
          8 0)
        9 17)
      10 (size % 65536)

unfoldable pub udp_checksum : List ℕ → List ℕ → List ℕ → ℕ
udp_checksum ip_header udp_header payload =
    let pseudo = pseudo_header ip_header (length udp_header + length payload) in
    let blank = set (set udp_header 6 0) 7 0 in
    let sum : ℕ = add32 (add32 (add32 0 (checksum pseudo)) (checksum blank)) (checksum payload) in
    let cs : ℕ = 65535 - fold_sum rounds sum % 65536 in if cs == 0 then 0xffff else cs
