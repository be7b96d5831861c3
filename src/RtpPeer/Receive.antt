-- ===== src/RtpPeer/Receive.antt =====
-- recvLoop of cmd/rtppeer/main.go: a datagram that is read, on either of the two sockets. A read
-- that fails or times out changes nothing but the log. The two loops share the counters, which are
-- atomic and wrap around, and the writer, which has a mutex, so their iterations come in some order.
use mathlib.Core.List.{map}
use rtp_stream_cleaner.Prelude
use rtp_stream_cleaner.Prelude.{
  ℕ, ◌+◌, ◌%◌, ◌^◌, ◌≡◌, ◌∙◌, refl, ap, Option, none, some, List, [], ◌∷◌, length, arith,
}
use rtp_stream_cleaner.Prelude.Words.{add64}
use rtp_stream_cleaner.Net.{UdpAddr}
use rtp_stream_cleaner.Pcap.Writer.{Writer, Disk, Captured, write_packet}
use rtp_stream_cleaner.Pcap.Written.{write_packets}
use rtp_stream_cleaner.RtpPeer.Send.{Label, audio, video, Stats}

pub record Receiver : Type 0 where
  pub stats : Stats
  pub writer : Option Writer

-- buf[:n] and addr as ReadFromUDP gives them, and the clock as WritePacket is called.
pub record Received : Type 0 where
  pub payload : List ℕ
  pub addr : UdpAddr
  pub at : ℕ

abbrev pub count_received : Label → Stats → Stats
count_received audio t = record t { recv_audio_pkts = add64 t.recv_audio_pkts 1 }
count_received video t = record t { recv_video_pkts = add64 t.recv_video_pkts 1 }

-- The arguments of WritePacket: from the sender to the socket's own address.
abbrev pub captured : UdpAddr → Received → Captured
captured local_addr d = record {
  ts = d.at;
  src_ip = d.addr.ip;
  dst_ip = local_addr.ip;
  src_port = d.addr.port;
  dst_port = local_addr.port;
  payload = d.payload;
}

-- The capture is optional, and an error of the write is only logged.
abbrev pub record_packet : Disk → Option Writer → Captured → Option Writer
record_packet disk none c = none
record_packet disk (some w) c = some (write_packet disk w c).0

-- `sockets` has the local address of each socket.
unfoldable pub receive : Disk → (Label → UdpAddr) → Receiver → Label × Received → Receiver
receive disk sockets r (label, d) =
    let t = record (r.stats) { recv_bytes = add64 r.stats.recv_bytes (length d.payload) } in
    record {
      stats = count_received label t;
      writer = record_packet disk r.writer (captured (sockets label) d);
    }

unfoldable pub receive_all :
    Disk → (Label → UdpAddr) → Receiver → List (Label × Received) → Receiver
receive_all disk sockets r [] = r
receive_all disk sockets r (datagram ∷ datagrams) =
    receive_all disk sockets (receive disk sockets r datagram) datagrams

-- What goes into the capture for some datagrams.
abbrev pub captures : (Label → UdpAddr) → List (Label × Received) → List Captured
captures sockets [] = []
captures sockets ((label, d) ∷ datagrams) = captured (sockets label) d ∷ captures sockets datagrams

abbrev pub is_audio : Label → ℕ
is_audio audio = 1
is_audio video = 0

abbrev pub is_video : Label → ℕ
is_video audio = 0
is_video video = 1

abbrev pub count_of : (Label → ℕ) → List (Label × Received) → ℕ
count_of f [] = 0
count_of f ((label, d) ∷ datagrams) = f label + count_of f datagrams

abbrev pub payload_bytes : List (Label × Received) → ℕ
payload_bytes [] = 0
payload_bytes ((label, d) ∷ datagrams) = length d.payload + payload_bytes datagrams

abbrev pub sender_of : Captured → UdpAddr
sender_of c = record { ip = c.src_ip; port = c.src_port }

abbrev pub receiver_of : Captured → UdpAddr
receiver_of c = record { ip = c.dst_ip; port = c.dst_port }

-- The packets to record are the datagrams: from their senders, to the sockets' addresses, with their
-- times and payloads.
pub record IsOf (sockets : Label → UdpAddr) (packets : List Captured)
    (datagrams : List (Label × Received)) : Type 0 where
  pub senders : map sender_of packets ≡ map (λ (e : Label × Received). e.1.addr) datagrams
  pub receivers : map receiver_of packets ≡ map (λ (e : Label × Received). sockets e.0) datagrams
  pub times :
      map (λ (c : Captured). c.ts) packets ≡ map (λ (e : Label × Received). e.1.at) datagrams
  pub payloads :
      map (λ (c : Captured). c.payload) packets
      ≡ map (λ (e : Label × Received). e.1.payload) datagrams

captures-IsOf :
    (sockets : Label → UdpAddr) (datagrams : List (Label × Received))
    → IsOf sockets (captures sockets datagrams) datagrams
captures-IsOf sockets [] = record {
  senders = refl;
  receivers = refl;
  times = refl;
  payloads = refl;
}
captures-IsOf sockets ((label, d) ∷ datagrams) =
    let rest = captures-IsOf sockets datagrams in
    record {
      senders = ap (λ xs. d.addr ∷ xs) rest.senders;
      receivers = ap (λ xs. sockets label ∷ xs) rest.receivers;
      times = ap (λ xs. d.at ∷ xs) rest.times;
      payloads = ap (λ xs. d.payload ∷ xs) rest.payloads;
    }

-- What the two loops have done after some datagrams; the counters are words of 64 bits.
pub record IsRecorded (disk : Disk) (sockets : Label → UdpAddr) (r q : Receiver)
    (datagrams : List (Label × Received)) : Type 0 where
  pub audio_pkts :
      q.stats.recv_audio_pkts % 2 ^ 64
      ≡ (r.stats.recv_audio_pkts + count_of is_audio datagrams) % 2 ^ 64
  pub video_pkts :
      q.stats.recv_video_pkts % 2 ^ 64
      ≡ (r.stats.recv_video_pkts + count_of is_video datagrams) % 2 ^ 64
  pub bytes : q.stats.recv_bytes % 2 ^ 64 ≡ (r.stats.recv_bytes + payload_bytes datagrams) % 2 ^ 64
  pub capture :
      q.writer
      ≡ Prelude.Option.map
          (λ (w : Writer). write_packets disk w (captures sockets datagrams))
          r.writer
  pub packets : IsOf sockets (captures sockets datagrams) datagrams

module _ (disk : Disk) (sockets : Label → UdpAddr) where
  IsRecorded-nothing : (r : Receiver) → IsRecorded disk sockets r r []
  unfolding write_packets
  IsRecorded-nothing r = record {
    audio_pkts = omega arith;
    video_pkts = omega arith;
    bytes = omega arith;
    capture = same r.writer;
    packets = captures-IsOf sockets [];
  }
    where
      same : (o : Option Writer) → o ≡ Prelude.Option.map (λ (w : Writer). w) o
      same none = refl
      same (some w) = refl

  capture_first :
      (o : Option Writer) (c : Captured) (later : List Captured)
      → Prelude.Option.map (λ (w : Writer). write_packets disk w later) (record_packet disk o c)
        ≡ Prelude.Option.map (λ (w : Writer). write_packets disk w (c ∷ later)) o
  unfolding write_packets
  capture_first none c later = refl
  capture_first (some w) c later = refl

  IsRecorded-one :
      (r q : Receiver) (label : Label) (d : Received) (datagrams : List (Label × Received))
      → IsRecorded disk sockets (receive disk sockets r (label, d)) q datagrams
      → IsRecorded disk sockets r q ((label, d) ∷ datagrams)
  unfolding receive
  IsRecorded-one r q audio d datagrams more = record {
    audio_pkts = omega (arith, more.audio_pkts);
    video_pkts = omega (arith, more.video_pkts);
    bytes = omega (arith, more.bytes);
    capture =
        more.capture
        ∙ capture_first r.writer (captured (sockets audio) d) (captures sockets datagrams);
    packets = captures-IsOf sockets ((audio, d) ∷ datagrams);
  }
  IsRecorded-one r q video d datagrams more = record {
    audio_pkts = omega (arith, more.audio_pkts);
    video_pkts = omega (arith, more.video_pkts);
    bytes = omega (arith, more.bytes);
    capture =
        more.capture
        ∙ capture_first r.writer (captured (sockets video) d) (captures sockets datagrams);
    packets = captures-IsOf sockets ((video, d) ∷ datagrams);
  }

-- In whatever order the datagrams of the two sockets come and whatever the disk does, the counters
-- grow, modulo 2^64, by the datagrams of each socket and the bytes of their payloads, and where a
-- capture is written, each datagram is given to the writer once, in that order, with its time and its
-- payload, from its sender and to the address of its socket.
pub receive_all-IsRecorded :
    (disk : Disk) (sockets : Label → UdpAddr) (r : Receiver) (datagrams : List (Label × Received))
    → IsRecorded disk sockets r (receive_all disk sockets r datagrams) datagrams
unfolding receive_all
receive_all-IsRecorded disk sockets r [] = IsRecorded-nothing disk sockets r
receive_all-IsRecorded disk sockets r ((label, d) ∷ datagrams) =
    let q = receive disk sockets r (label, d) in
    IsRecorded-one disk sockets r (receive_all disk sockets q datagrams) label d datagrams
      (receive_all-IsRecorded disk sockets q datagrams)
