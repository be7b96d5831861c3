-- ===== src/Net.antt =====
-- What the proxies use of Go's net package: addresses, their comparison, and the calls that write
-- a datagram. The zone of a scoped IPv6 address is left out.
use rtp_stream_cleaner.Prelude.{
  ℕ, Bool, true, false, ◌&&◌, List, [], ◌∷◌, length, take, drop, ◌==◌, if◌then◌else◌,
}

pub record UdpAddr : Type 0 where
  pub ip : List ℕ
  pub port : ℕ

unfoldable pub bytes_equal : List ℕ → List ℕ → Bool
bytes_equal [] [] = true
bytes_equal [] (y ∷ ys) = false
bytes_equal (x ∷ xs) [] = false
bytes_equal (x ∷ xs) (y ∷ ys) = x == y && bytes_equal xs ys

-- The prefix of an IPv4 address that is written in sixteen bytes.
abbrev pub v4_in_v6_prefix : List ℕ
v4_in_v6_prefix = 0 ∷ 0 ∷ 0 ∷ 0 ∷ 0 ∷ 0 ∷ 0 ∷ 0 ∷ 0 ∷ 0 ∷ 0xff ∷ 0xff ∷ []

-- net.IP.Equal: an IPv4 address and its form in sixteen bytes are equal.
unfoldable pub ip_equal : List ℕ → List ℕ → Bool
unfolding bytes_equal
ip_equal ip x =
    if length ip == length x
    then bytes_equal ip x
    else if length ip == 4 && length x == 16
    then bytes_equal (take 12 x) v4_in_v6_prefix && bytes_equal ip (drop 12 x)
    else if length ip == 16 && length x == 4
    then bytes_equal (take 12 ip) v4_in_v6_prefix && bytes_equal (drop 12 ip) x
    else false

-- One call that writes a datagram, and whether it returned without an error.
pub record Write : Type 0 where
  pub packet : List ℕ
  pub dest : UdpAddr
  pub delivered : Bool

-- The network's answer to a write, which may depend on all the writes before it.
abbrev pub Link : Type 0
Link = List Write → List ℕ → UdpAddr → Bool
