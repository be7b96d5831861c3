-- ===== src/Tests/Manager.antt =====
-- The manager over six ports, and the theorems of sessions and manager at its states.
use rtp_stream_cleaner.Prelude.{
  ℕ, ◌≡◌, ◌⊎◌, inr, refl, true, false, not, ◌&&◌, none, some, Bool, [], ◌∷◌, All, arith, ◌==◌,
  if◌then◌else◌,
}
use rtp_stream_cleaner.Net.{UdpAddr, bytes_equal}
use rtp_stream_cleaner.Ports.{ports_from, allocate, mark_all, release, no_ports_available}
use rtp_stream_cleaner.Ports.Sort.{elem}
use rtp_stream_cleaner.Session.{Session, apply_rtp_dest}
use rtp_stream_cleaner.Session.Coherent.{IsCoherent, apply_rtp_dest-IsCoherent}
use rtp_stream_cleaner.Manager.{
  Manager, Request, CreateError, allocation, stop_session, remove, made, failed, get, choose_id,
  new_session, open_sockets, insert_session, create_with_dest, update_rtp_dest, delete,
  remove_idle_sessions, ports_of,
}
use rtp_stream_cleaner.Manager.Sessions.{held, is_taken}
use rtp_stream_cleaner.Manager.Opening.{new_session-IsCoherent}
use rtp_stream_cleaner.Manager.Invariant.{IsValid}
use rtp_stream_cleaner.Manager.Create.{create_with_dest-failed, create_with_dest-made}
use rtp_stream_cleaner.Manager.Remove.{
  update_rtp_dest-IsValid, delete-IsValid, remove_idle_sessions-IsValid,
}
use rtp_stream_cleaner.Manager.Reaper.{
  IsActiveSince, reap_idle_sessions, tick_list, reap_idle_sessions-IsActiveSince,
}
use rtp_stream_cleaner.Manager.Run.{
  new_manager, new_manager-IsValid, start, creates, deletes, IsReachable-held,
  create_with_dest-IsValid,
}

abbrev rtpengine : UdpAddr
rtpengine = record { ip = 10 ∷ 0 ∷ 0 ∷ 5 ∷ []; port = 40100 }

abbrev no_port : UdpAddr
no_port = record { ip = 10 ∷ 0 ∷ 0 ∷ 5 ∷ []; port = 0 }

-- A call with audio, whose video is refused by port 0.
abbrev request : (ℕ → Bool) → Request
request listens = record {
  call_id = 1 ∷ [];
  from_tag = 2 ∷ [];
  to_tag = 3 ∷ [];
  audio_dest = some rtpengine;
  video_dest = some no_port;
  listens = listens;
  ids = (7 ∷ []) ∷ (8 ∷ []) ∷ [];
  created_at = 100;
  active_at = 100;
}

abbrev everywhere : ℕ → Bool
everywhere port = true

abbrev but_one : ℕ → Bool
but_one port = not (port == 30001)

abbrev idle : Manager
idle = new_manager 30000 30005 60

idle-IsValid : IsValid idle
idle-IsValid = new_manager-IsValid 30000 30005 60 (omega arith)

abbrev busy : Manager
busy = (create_with_dest idle (request everywhere)).0

busy-IsValid : IsValid busy
unfolding ports_from get
busy-IsValid = create_with_dest-IsValid idle (request everywhere) refl idle-IsValid

create_with_dest-failed_example :
    (e : CreateError) × (create_with_dest idle (request but_one) ≡ (idle, failed e))
unfolding ports_from
create_with_dest-failed_example =
    create_with_dest-failed idle (request but_one) idle-IsValid (inr (omega arith, refl))

create_with_dest-made_example :
    (s : Session) × ((create_with_dest idle (request everywhere)).1 ≡ made s)
    × ((create_with_dest idle (request everywhere)).0.sessions ≡ s ∷ [])
    × (is_taken [] s.id ≡ false)
    × (ports_of s ≡ 30000 ∷ 30001 ∷ 30002 ∷ 30003 ∷ [])
    × IsValid (create_with_dest idle (request everywhere)).0
unfolding ports_from get
create_with_dest-made_example =
    create_with_dest-made idle (request everywhere) idle-IsValid (omega arith) refl refl

apply_rtp_dest-IsCoherent_example : IsCoherent (
    apply_rtp_dest
      (new_session (request everywhere) (1 ∷ 2 ∷ 3 ∷ 4 ∷ []))
      (some rtpengine)
      (some no_port))
apply_rtp_dest-IsCoherent_example =
    apply_rtp_dest-IsCoherent (new_session (request everywhere) (1 ∷ 2 ∷ 3 ∷ 4 ∷ []))
      (some rtpengine) (some no_port)
      (new_session-IsCoherent (request everywhere) (1 ∷ 2 ∷ 3 ∷ 4 ∷ []))

update_rtp_dest-IsValid_example :
    (get (update_rtp_dest busy (7 ∷ []) none (some rtpengine)).0.sessions (7 ∷ []))
    ≡ (update_rtp_dest busy (7 ∷ []) none (some rtpengine)).1
unfolding bytes_equal
update_rtp_dest-IsValid_example =
    (update_rtp_dest-IsValid busy (7 ∷ []) none (some rtpengine) busy-IsValid).2 (7 ∷ [])

delete-IsValid_example :
    ((get busy.sessions (7 ∷ []) ≡ none) × (delete busy (7 ∷ []) ≡ (busy, false)))
    ⊎ ((s : Session) × (get busy.sessions (7 ∷ []) ≡ some s)
        × ((delete busy (7 ∷ [])).1 ≡ true)
        × (is_taken (delete busy (7 ∷ [])).0.sessions (7 ∷ []) ≡ false)
        × ((x : ℕ)
            → (delete busy (7 ∷ [])).0.allocator.in_use x
              ≡ (busy.allocator.in_use x && not (elem x (ports_of s))))
        × IsValid (delete busy (7 ∷ [])).0)
delete-IsValid_example = delete-IsValid busy (7 ∷ []) busy-IsValid

remove_idle_sessions-IsValid_example : (remove_idle_sessions busy 159).sessions ≡ busy.sessions
unfolding create_with_dest insert_session allocate ports_from open_sockets choose_id get
    apply_rtp_dest
remove_idle_sessions-IsValid_example =
    (remove_idle_sessions-IsValid busy 159 (omega arith) busy-IsValid).1

reap_idle_sessions-IsActiveSince_example :
    All (IsActiveSince 100) (reap_idle_sessions busy (tick_list 100 1_000_000_000 3)).sessions
unfolding create_with_dest insert_session allocate ports_from open_sockets choose_id get
reap_idle_sessions-IsActiveSince_example = reap_idle_sessions-IsActiveSince busy 100 0 (omega arith)

IsReachable-held_example :
    (held (delete busy (7 ∷ [])).0.sessions 30001
      ≡ (if (delete busy (7 ∷ [])).0.allocator.in_use 30001 then 1 else 0))
    × ((delete busy (7 ∷ [])).0.sockets 30001 ≡ (delete busy (7 ∷ [])).0.allocator.in_use 30001)
unfolding ports_from get
IsReachable-held_example =
    IsReachable-held 30000 30005 60 (omega arith)
      (deletes (creates start (request everywhere) refl) (7 ∷ [])) 30001

-- Two of the six ports are left, so a second call is refused and the deletion frees the ports.
second_refused :
    (create_with_dest busy (request everywhere)).1 ≡ failed (allocation no_ports_available)
unfolding create_with_dest insert_session allocate ports_from open_sockets choose_id get
second_refused = refl

freed :
    (delete busy (7 ∷ [])).0.allocator.available
    ≡ 30000 ∷ 30001 ∷ 30002 ∷ 30003 ∷ 30004 ∷ 30005 ∷ []
unfolding create_with_dest insert_session allocate ports_from open_sockets choose_id get delete
    stop_session release mark_all remove apply_rtp_dest bytes_equal
freed = refl
