-- ===== src/Manager/Invariant.antt =====
-- What the manager keeps between its operations, and how stopping sessions restores it.
use rtp_stream_cleaner.Prelude.{
  ℕ, ◌+◌, ◌≤◌, ◌≡◌, Bool, true, false, not, ◌&&◌, List, [], ◌∷◌, All, if◌then◌else◌, arith,
}
use rtp_stream_cleaner.Ports.Sort.{elem}
use rtp_stream_cleaner.Ports.{update}
use rtp_stream_cleaner.Ports.Invariant
use rtp_stream_cleaner.Ports.Lease.{release-IsValid}
use rtp_stream_cleaner.Session.{Session}
use rtp_stream_cleaner.Session.Coherent.{IsCoherent}
use rtp_stream_cleaner.Manager.{Manager, ports_of, close_all, stop_session, stop_all}
use rtp_stream_cleaner.Manager.Sessions.{count, held, DistinctIds}

-- Each port in use is held once, by one session of the map or by one that is yet to be stopped, and
-- its socket is open; a port that is not in use is held by none and closed.
pub record IsOwing (m : Manager) (stopping : List Session) : Type 0 where
  pub allocator_valid : Invariant.IsValid m.allocator
  pub held_once :
      (x : ℕ) → held m.sessions x + held stopping x ≡ (if m.allocator.in_use x then 1 else 0)
  pub open_in_use : (x : ℕ) → m.sockets x ≡ m.allocator.in_use x
  pub distinct : DistinctIds m.sessions
  pub coherent : All IsCoherent m.sessions

abbrev pub IsValid : Manager → Type 0
IsValid m = IsOwing m []

pub count-elem :
    (x : ℕ) (ports : List ℕ)
    → (1 ≤ count x ports → elem x ports ≡ true) × (elem x ports ≡ true → 1 ≤ count x ports)
count-elem x [] = (λ h. absurd (omega arith), λ h. absurd (ground arith))
count-elem x (y ∷ ports) =
    let (there, back) = count-elem x ports in
    (λ h. ground (arith, there), λ h. ground (arith, back))

close_all-elem :
    (sockets : ℕ → Bool) (ports : List ℕ) (x : ℕ)
    → close_all sockets ports x ≡ (sockets x && not (elem x ports))
close_all-elem sockets [] x = ground arith
close_all-elem sockets (port ∷ ports) x =
    ground (arith, close_all-elem (update sockets port false) ports x)

pub stop_session-IsOwing :
    (m : Manager) (s : Session) (stopping : List Session)
    → IsOwing m (s ∷ stopping)
    → IsOwing (stop_session m s) stopping
unfolding stop_session
stop_session-IsOwing m s stopping o =
    let (valid, low, high, in_use) = release-IsValid m.allocator (ports_of s) o.allocator_valid in
    record {
      allocator_valid = valid;
      held_once = λ x.
          let (there, back) = count-elem x (ports_of s) in ground (arith, o.held_once x, in_use x);
      open_in_use =
          λ x. ground (arith, o.open_in_use x, in_use x, close_all-elem m.sockets (ports_of s) x);
      distinct = o.distinct;
      coherent = o.coherent;
    }

pub stop_all-IsValid :
    (m : Manager) (stopping : List Session) → IsOwing m stopping → IsValid (stop_all m stopping)
unfolding stop_all
stop_all-IsValid m [] o = o
stop_all-IsValid m (s ∷ stopping) o =
    stop_all-IsValid (stop_session m s) stopping (stop_session-IsOwing m s stopping o)
