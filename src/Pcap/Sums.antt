-- ===== src/Pcap/Sums.antt =====
-- What the checksums of a built frame say about it.
use rtp_stream_cleaner.Prelude.{
  ℕ, ◌+◌, ◌*◌, ◌%◌, ◌≤◌, ◌<◌, ◌≡◌, refl, inl, inr, none, some, List, [], ◌∷◌, All, All-drop, length,
  length-drop, take, drop, arith, ◌==◌, Bool-cases, ◌&&◌,
}
use rtp_stream_cleaner.Prelude.Words.{add32}
use rtp_stream_cleaner.Bytes.{IsByte}
use rtp_stream_cleaner.Net.{bytes_equal, v4_in_v6_prefix}
use rtp_stream_cleaner.Pcap.Checksum.{sum_words, fold_sum, rounds, checksum}
use rtp_stream_cleaner.Pcap.Frame.{to4, or_default}

-- The sum of the words with no wrap.
abbrev pub total : List ℕ → ℕ
total [] = 0
total (x ∷ []) = x * 256
total (x ∷ y ∷ rest) = x * 256 + y + total rest

pub sum_words-total :
    (sum : ℕ) (bytes : List ℕ)
    → sum < 4294967296
    → sum_words sum bytes ≡ (sum + total bytes) % 4294967296
unfolding sum_words
sum_words-total sum [] h = omega arith
sum_words-total sum (x ∷ []) h = omega arith
sum_words-total sum (x ∷ y ∷ rest) h =
    omega (arith, sum_words-total (add32 sum (x * 256 + y)) rest (omega arith))

-- The loop ends within the rounds given: what it leaves is a word, congruent to the sum modulo
-- 65535, and zero only for a sum of zero.
pub fold_sum_lem :
    (sum : ℕ)
    → sum < 4294967296
    → (fold_sum rounds sum ≤ 65535)
      × (fold_sum rounds sum % 65535 ≡ sum % 65535)
      × ((fold_sum rounds sum == 0) ≡ (sum == 0))
unfolding fold_sum
fold_sum_lem sum h = (ground arith, ground arith, ground arith)

-- A checksum is the word that fills the sum up to a multiple of 65535.
pub checksum-total :
    (bytes : List ℕ)
    → total bytes < 4294967296
    → (checksum bytes ≤ 65535)
      × ((checksum bytes + total bytes) % 65535 ≡ 0)
      × ((checksum bytes == 65535) ≡ (total bytes == 0))
unfolding checksum
checksum-total bytes h =
    let (word, same, none_left) =
      fold_sum_lem (sum_words 0 bytes) (ground (arith, sum_words-total 0 bytes (omega arith))) in
    let sum = sum_words-total 0 bytes (omega arith) in (ground arith, ground arith, ground arith)

pub total-bound : (bytes : List ℕ) → All IsByte bytes → total bytes * 2 ≤ 65535 * (length bytes + 1)
total-bound [] b = omega arith
total-bound (x ∷ []) b = omega arith
total-bound (x ∷ y ∷ rest) b = omega (arith, total-bound rest b.1.1)

-- The four bytes of an address that the header takes.
pub record Four (ip : List ℕ) : Type 0 where
  pub a : ℕ
  pub b : ℕ
  pub c : ℕ
  pub d : ℕ
  pub rest : List ℕ
  pub parts : ip ≡ a ∷ b ∷ c ∷ d ∷ rest
  pub bytes : IsByte a × IsByte b × IsByte c × IsByte d

Four-bytes : (ip : List ℕ) → All IsByte ip → 4 ≤ length ip → Four ip
Four-bytes [] h n = absurd (omega arith)
Four-bytes (a ∷ []) h n = absurd (omega arith)
Four-bytes (a ∷ b ∷ []) h n = absurd (omega arith)
Four-bytes (a ∷ b ∷ c ∷ []) h n = absurd (omega arith)
Four-bytes (a ∷ b ∷ c ∷ d ∷ rest) h n = record {
  a = a;
  b = b;
  c = c;
  d = d;
  rest = rest;
  parts = refl;
  bytes = (h.0, h.1.0, h.1.1.0, h.1.1.1.0);
}

-- What an address contributes: its own bytes, or the front of the fallback.
pub address_bytes :
    (ip fallback : List ℕ)
    → All IsByte ip
    → All IsByte fallback
    → 4 ≤ length fallback
    → Four (or_default (to4 ip) fallback)
unfolding to4
address_bytes ip fallback h f n = elim (Bool-cases (length ip == 4)) [
  | inl four ↦ let e : to4 ip ≡ some ip = ground arith in rw e (Four-bytes ip h (ground arith))
  | inr other ↦ elim (Bool-cases (length ip == 16 && bytes_equal (take 12 ip) v4_in_v6_prefix)) [
    | inl mapped ↦
        let e : to4 ip ≡ some (drop 12 ip) = ground arith in
        rw e (
          Four-bytes (drop 12 ip) (All-drop IsByte 12 ip h) (ground (arith, length-drop {0} 12 ip)))
    | inr foreign ↦ let e : to4 ip ≡ none = ground arith in rw e (Four-bytes fallback f n)
  ]
]
