-- ===== src/Peer.antt =====
-- How a proxy learns the doorphone's address: updateDoorphonePeer and getDoorphonePeer, which
-- internal/session/audio_proxy.go and video_proxy.go have in the same words. Each runs under peerMu.
use rtp_stream_cleaner.Prelude.{
  ℕ, ◌+◌, ◌-◌, ◌<◌, ◌≡◌, refl, Bool, true, false, ◌&&◌, Option, none, some, List, [], ◌∷◌, leb,
  ◌==◌, if◌then◌else◌, All, arith,
}
use rtp_stream_cleaner.Net.{UdpAddr, ip_equal}

pub record Peer : Type 0 where
  pub doorphone_peer : Option UdpAddr
  pub doorphone_learned_at : ℕ

abbrev pub no_peer : Peer
no_peer = record { doorphone_peer = none; doorphone_learned_at = 0 }

abbrev pub same_addr : UdpAddr → UdpAddr → Bool
same_addr a b = ip_equal a.ip b.ip && a.port == b.port

-- Once a peer is known. A clock behind the time of learning reads as no time passed.
abbrev pub relearn : ℕ → Peer → UdpAddr → UdpAddr → ℕ → Peer × Bool
relearn window p known addr now =
    if same_addr known addr
    then (p, true)
    else if leb (now - p.doorphone_learned_at) window
    then (record p { doorphone_peer = some addr }, true)
    else (p, false)

unfoldable pub update_doorphone_peer : ℕ → Peer → Option UdpAddr → ℕ → Peer × Bool
update_doorphone_peer window p none now = (p, false)
update_doorphone_peer window p (some addr) now = elim p.doorphone_peer [
  | none ↦ (record { doorphone_peer = some addr; doorphone_learned_at = now }, true)
  | some known ↦ relearn window p known addr now
]

-- The sources of the packets of leg A, each with the time of its arrival, oldest first.
unfoldable pub learn : ℕ → Peer → List (UdpAddr × ℕ) → Peer
unfolding update_doorphone_peer
learn window p [] = p
learn window p ((addr, now) ∷ rest) =
    learn window (update_doorphone_peer window p (some addr) now).0 rest

-- A known peer is replaced only inside the window, which starts when the first one is learned.
pub update_known :
    (window : ℕ) (p : Peer) (known addr : UdpAddr) (now : ℕ)
    → p.doorphone_peer ≡ some known
    → update_doorphone_peer window p (some addr) now ≡ relearn window p known addr now
unfolding update_doorphone_peer
update_known window p known addr now e = rw e

-- Once the learning window is over, no packet from any source changes the peer or reopens the
-- window, and a packet is accepted just if it comes from the peer's address and port.
pub learn-update_doorphone_peer :
    (window : ℕ) (p : Peer) (known addr : UdpAddr) (now : ℕ) (packets : List (UdpAddr × ℕ))
    → p.doorphone_peer ≡ some known
    → All (λ (packet : UdpAddr × ℕ). p.doorphone_learned_at + window < packet.1) packets
    → p.doorphone_learned_at + window < now
    → (learn window p packets ≡ p)
      × (update_doorphone_peer window (learn window p packets) (some addr) now
          ≡ (p, same_addr known addr))
unfolding learn
learn-update_doorphone_peer window p known addr now [] e late last =
    (refl, rw (update_known window p known addr now e) (ground arith))
learn-update_doorphone_peer window p known addr now ((source, time) ∷ rest) e late last =
    let kept : (update_doorphone_peer window p (some source) time).0 ≡ p =
      rw (update_known window p known source time e) (ground arith) in
    rw kept (learn-update_doorphone_peer window p known addr now rest e late.1 last)
