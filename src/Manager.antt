-- ===== src/Manager.antt =====
-- The session manager (internal/session/manager.go): create, get, update, delete and the removal of
-- idle sessions. Each operation runs as one step; the map of sessions is the list of its values,
-- which carry their keys. `sockets` tells which ports have an open socket of the manager's sessions;
-- the proxies hold them and close them when they stop.
pub mod Sessions
pub mod Invariant
pub mod Opening
pub mod Create
pub mod Run
pub mod Reaper
pub mod Remove
use rtp_stream_cleaner.Prelude.{
  ℕ, ◌-◌, Bool, true, false, not, Option, none, some, List, [], ◌∷◌, get_or, leb, ◌==◌,
  if◌then◌else◌, ok, err,
}
use rtp_stream_cleaner.Net.{UdpAddr, bytes_equal}
use rtp_stream_cleaner.Ports.{PortAllocator, AllocatorError, allocate, release, update}
use rtp_stream_cleaner.Session.{
  Text, Session, Leg, Activity, created, closing, no_reason, apply_rtp_dest,
}

pub record Manager : Type 0 where
  pub sessions : List Session
  pub allocator : PortAllocator
  pub idle_timeout : ℕ
  pub sockets : ℕ → Bool

pub data CreateError : Type 0 where
  allocation : AllocatorError → CreateError
  audio_a_socket : CreateError
  audio_b_socket : CreateError
  video_a_socket : CreateError
  video_b_socket : CreateError

-- `choosing`: every identifier generated so far is taken, and the loop goes on.
pub data Outcome : Type 0 where
  made : Session → Outcome
  failed : CreateError → Outcome
  choosing : Outcome

-- The arguments, and what the call takes from outside: which ports the system lets it listen on,
-- the identifiers that it generates, in their order, and two readings of the clock.
pub record Request : Type 0 where
  pub call_id : Text
  pub from_tag : Text
  pub to_tag : Text
  pub audio_dest : Option UdpAddr
  pub video_dest : Option UdpAddr
  pub listens : ℕ → Bool
  pub ids : List Text
  pub created_at : ℕ
  pub active_at : ℕ

unfoldable pub get : List Session → Text → Option Session
get [] id = none
get (s ∷ sessions) id = if bytes_equal s.id id then some s else get sessions id

abbrev pub is_some : Option Session → Bool
is_some none = false
is_some (some s) = true

-- The loop that draws identifiers until one is not in the map.
unfoldable pub choose_id : List Session → List Text → Option Text
choose_id sessions [] = none
choose_id sessions (id ∷ ids) =
    let rest = choose_id sessions ids in if is_some (get sessions id) then rest else some id

abbrev pub fresh_leg : Leg
fresh_leg = record { dest = none; is_enabled = true; reason = no_reason }

abbrev pub new_session : Request → List ℕ → Session
new_session r ports = record {
  id = [];
  call_id = r.call_id;
  from_tag = r.from_tag;
  to_tag = r.to_tag;
  created_at = r.created_at;
  audio = record {
    a_port = get_or ports 0 0;
    b_port = get_or ports 1 0;
    rtpengine_dest = none;
    enabled = true;
    disabled_reason = no_reason;
  };
  video = record {
    a_port = get_or ports 2 0;
    b_port = get_or ports 3 0;
    rtpengine_dest = none;
    enabled = true;
    disabled_reason = no_reason;
  };
  audio_leg = fresh_leg;
  video_leg = fresh_leg;
  activity = record { last_activity_nsec = r.active_at; state = created };
}

-- The four calls of listenUDP, in order; when one fails, those before it are closed.
unfoldable pub open_sockets :
    (ℕ → Bool) → (ℕ → Bool) → ℕ → ℕ → ℕ → ℕ → (ℕ → Bool) × Option CreateError
open_sockets sockets listens a b video_a video_b =
    if not (listens a)
    then (sockets, some audio_a_socket)
    else (let s1 = update sockets a true in
        if not (listens b)
        then (update s1 a false, some audio_b_socket)
        else (let s2 = update s1 b true in
            if not (listens video_a)
            then (update (update s2 a false) b false, some video_a_socket)
            else (let s3 = update s2 video_a true in
                if not (listens video_b)
                then (
                  update (update (update s3 a false) b false) video_a false,
                  some video_b_socket,
                )
                else (update s3 video_b true, none))))

unfoldable pub insert_session : Manager → Session → List Text → Manager × Outcome
insert_session m s ids = elim (choose_id m.sessions ids) [
  | none ↦ (m, choosing)
  | some id ↦
      let named = record s { id = id } in (record m { sessions = named ∷ m.sessions }, made named)
]

abbrev pub start_session :
    Manager → List ℕ → Session → List Text → (ℕ → Bool) × Option CreateError → Manager × Outcome
start_session m ports s ids (sockets, some error) =
    (record m { sockets = sockets; allocator = release m.allocator ports }, failed error)
start_session m ports s ids (sockets, none) = insert_session (record m { sockets = sockets }) s ids

abbrev pub create_session : Manager → Request → List ℕ → Manager × Outcome
create_session m r ports =
    let s = apply_rtp_dest (new_session r ports) r.audio_dest r.video_dest in
    start_session m ports s r.ids
      (open_sockets m.sockets r.listens s.audio.a_port s.audio.b_port s.video.a_port s.video.b_port)

unfoldable pub create_with_dest : Manager → Request → Manager × Outcome
create_with_dest m r = elim (allocate m.allocator 4) [
  | err e ↦ (m, failed (allocation e))
  | ok answer ↦ create_session (record m { allocator = answer.1 }) r answer.0
]

-- The session under a key is replaced by its update.
unfoldable pub update_sessions :
    List Session → Text → Option UdpAddr → Option UdpAddr → List Session
update_sessions [] id audio_dest video_dest = []
update_sessions (s ∷ sessions) id audio_dest video_dest =
    let rest = update_sessions sessions id audio_dest video_dest in
    if bytes_equal s.id id then apply_rtp_dest s audio_dest video_dest ∷ sessions else s ∷ rest

unfoldable pub update_rtp_dest :
    Manager → Text → Option UdpAddr → Option UdpAddr → Manager × Option Session
update_rtp_dest m id audio_dest video_dest =
    let sessions = update_sessions m.sessions id audio_dest video_dest in
    elim (get m.sessions id) [
      | none ↦ (m, none)
      | some s ↦ (record m { sessions = sessions }, some (apply_rtp_dest s audio_dest video_dest))
    ]

abbrev pub ports_of : Session → List ℕ
ports_of s = s.audio.a_port ∷ s.audio.b_port ∷ s.video.a_port ∷ s.video.b_port ∷ []

abbrev pub close_all : (ℕ → Bool) → List ℕ → ℕ → Bool
close_all sockets [] = sockets
close_all sockets (port ∷ ports) = close_all (update sockets port false) ports

unfoldable pub stop_session : Manager → Session → Manager
stop_session m s = record m {
  sockets = close_all m.sockets (ports_of s);
  allocator = release m.allocator (ports_of s);
}

abbrev pub set_closing : Session → Session
set_closing s = record s { activity = record a { state = closing } }
  where
    open s use {activity as a}

unfoldable pub remove : List Session → Text → List Session
remove [] id = []
remove (s ∷ sessions) id =
    let rest = remove sessions id in if bytes_equal s.id id then sessions else s ∷ rest

unfoldable pub delete : Manager → Text → Manager × Bool
delete m id = elim (get m.sessions id) [
  | none ↦ (m, false)
  | some s ↦ (stop_session (record m { sessions = remove m.sessions id }) (set_closing s), true)
]

-- A session whose last activity was never set counts as active now.
abbrev pub is_expired : ℕ → ℕ → Session → Bool
is_expired timeout now s =
    let set_at : ℕ = s.activity.last_activity_nsec in
    let last : ℕ = if set_at == 0 then now else set_at in leb timeout (now - last)

-- The sessions that stay, and those that are to be stopped.
unfoldable pub split_idle : ℕ → ℕ → List Session → List Session × List Session
split_idle timeout now [] = ([], [])
split_idle timeout now (s ∷ sessions) =
    let rest = split_idle timeout now sessions in
    if is_expired timeout now s then (rest.0, set_closing s ∷ rest.1) else (s ∷ rest.0, rest.1)

unfoldable pub stop_all : Manager → List Session → Manager
stop_all m [] = m
stop_all m (s ∷ expired) = stop_all (stop_session m s) expired

unfoldable pub remove_idle_sessions : Manager → ℕ → Manager
remove_idle_sessions m now =
    if m.idle_timeout == 0
    then m
    else (let parts = split_idle m.idle_timeout now m.sessions in
        stop_all (record m { sessions = parts.0 }) parts.1)
