-- ===== src/Manager/Run.antt =====
-- All the states that the manager's operations can reach.
use rtp_stream_cleaner.Prelude.{
  ℕ, ◌≤◌, ◌≡◌, inl, inr, refl, true, false, Option, [], length, take, ◌==◌, if◌then◌else◌,
  Bool-cases, arith, ltb,
}
use rtp_stream_cleaner.Net.{UdpAddr}
use rtp_stream_cleaner.Ports.Invariant.{whole_range, whole_range-IsValid}
use rtp_stream_cleaner.Session.{Text}
use rtp_stream_cleaner.Manager.{
  Manager, Request, create_with_dest, update_rtp_dest, delete, remove_idle_sessions,
}
use rtp_stream_cleaner.Manager.Sessions.{held}
use rtp_stream_cleaner.Manager.Opening.{has_unused, every}
use rtp_stream_cleaner.Manager.Invariant.{IsValid}
use rtp_stream_cleaner.Manager.Create.{create_with_dest-failed, create_with_dest-made}
use rtp_stream_cleaner.Manager.Remove.{
  update_rtp_dest-IsValid, delete-IsValid, remove_idle_sessions-IsValid,
}

-- The manager at its start, over a range of ports.
abbrev pub new_manager : ℕ → ℕ → ℕ → Manager
new_manager min_port max_port idle_timeout = record {
  sessions = [];
  allocator = whole_range min_port max_port;
  idle_timeout = idle_timeout;
  sockets = λ port. false;
}

-- One call after another; a creation is one whose choice of an identifier ends.
pub data IsReachable (first : Manager) : Manager → Type 0 where
  start : IsReachable first first
  creates :
      {m : Manager}
      → IsReachable first m
      → (r : Request) → has_unused m.sessions r.ids ≡ true
      → IsReachable first (create_with_dest m r).0
  updates :
      {m : Manager}
      → IsReachable first m
      → (id : Text) (audio_dest video_dest : Option UdpAddr)
      → IsReachable first (update_rtp_dest m id audio_dest video_dest).0
  deletes : {m : Manager} → IsReachable first m → (id : Text) → IsReachable first (delete m id).0
  reaps :
      {m : Manager}
      → IsReachable first m
      → (now : ℕ) → IsReachable first (remove_idle_sessions m now)

pub create_with_dest-IsValid :
    (m : Manager) (r : Request)
    → has_unused m.sessions r.ids ≡ true
    → IsValid m
    → IsValid (create_with_dest m r).0
create_with_dest-IsValid m r some_unused v =
    let lowest = take 4 m.allocator.available in
    elim (Bool-cases (ltb (length m.allocator.available) 4)) [
      | inl few ↦ let (e, same) = create_with_dest-failed m r v (inl (ground arith)) in rw same v
      | inr enough ↦ elim (Bool-cases (every r.listens lowest)) [
        | inl all ↦ (create_with_dest-made m r v (ground arith) all some_unused).5
        | inr not_all ↦
            let (e, same) = create_with_dest-failed m r v (inr (ground arith, not_all)) in rw same v
      ]
    ]

reaps-IsValid : (m : Manager) (now : ℕ) → IsValid m → IsValid (remove_idle_sessions m now)
unfolding remove_idle_sessions
reaps-IsValid m now v = elim (Bool-cases (m.idle_timeout == 0)) [
  | inl off ↦ rw (remove_idle_sessions, off) v
  | inr on ↦ (remove_idle_sessions-IsValid m now (ground arith) v).0
]

pub IsReachable-IsValid : {first m : Manager} → IsValid first → IsReachable first m → IsValid m
IsReachable-IsValid v start = v
IsReachable-IsValid v (creates {m} reached r some_unused) =
    create_with_dest-IsValid m r some_unused (IsReachable-IsValid v reached)
IsReachable-IsValid v (updates {m} reached id audio_dest video_dest) =
    (update_rtp_dest-IsValid m id audio_dest video_dest (IsReachable-IsValid v reached)).0
IsReachable-IsValid v (deletes {m} reached id) =
    elim (delete-IsValid m id (IsReachable-IsValid v reached)) [
      | inl (unknown, same) ↦ rw same (IsReachable-IsValid v reached)
      | inr (s, known, done, gone, freed, valid) ↦ valid
    ]
IsReachable-IsValid v (reaps {m} reached now) = reaps-IsValid m now (IsReachable-IsValid v reached)

pub new_manager-IsValid :
    (min_port max_port idle_timeout : ℕ)
    → min_port ≤ max_port
    → IsValid (new_manager min_port max_port idle_timeout)
new_manager-IsValid min_port max_port idle_timeout h = record {
  allocator_valid = whole_range-IsValid min_port max_port h;
  held_once = λ x. refl;
  open_in_use = λ x. refl;
  distinct = tt;
  coherent = tt;
}

-- From an empty manager over a range that is not backwards, whatever is created, updated, deleted
-- and reaped, in any order, with any failure of a creation whose draw of an identifier ends: no port
-- is leaked or shared. A port is in use, with an open socket, just if exactly one session
-- of the map holds it, once; and a port that no session holds is not in use and has no socket.
pub IsReachable-held :
    (min_port max_port idle_timeout : ℕ) {m : Manager}
    → min_port ≤ max_port
    → IsReachable (new_manager min_port max_port idle_timeout) m
    → (port : ℕ)
    → (held m.sessions port ≡ (if m.allocator.in_use port then 1 else 0))
      × (m.sockets port ≡ m.allocator.in_use port)
IsReachable-held min_port max_port idle_timeout range reached port =
    let v =
      IsReachable-IsValid (new_manager-IsValid min_port max_port idle_timeout range) reached in
    (ground (arith, v.held_once port), v.open_in_use port)
