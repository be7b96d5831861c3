-- ===== src/Manager/Remove.antt =====
-- Update, deletion and the removal of idle sessions keep the manager's invariant.
use rtp_stream_cleaner.Prelude.{
  ℕ, ◌≤◌, ◌≡◌, ◌⊎◌, inl, inr, refl, true, false, not, ◌&&◌, Option, none, some, List, [], ◌∷◌, All,
  ◌==◌, Option-cases, arith, sym, ap, ◌∙◌, if◌then◌else◌, Bool-cases,
}
use rtp_stream_cleaner.Prelude.Option
use rtp_stream_cleaner.Net.{UdpAddr, bytes_equal}
use rtp_stream_cleaner.Ports.Sort.{elem}
use rtp_stream_cleaner.Ports.Lease.{release-IsValid}
use rtp_stream_cleaner.Session.{Text, Session, apply_rtp_dest}
use rtp_stream_cleaner.Session.Coherent.{IsCoherent}
use rtp_stream_cleaner.Manager.{
  Manager, get, ports_of, update_rtp_dest, set_closing, remove, stop_session, delete, is_expired,
  split_idle, stop_all, remove_idle_sessions,
}
use rtp_stream_cleaner.Manager.Sessions.{
  is_taken, held-remove, remove-DistinctIds, remove-All, get-remove, held-update,
  update-DistinctIds, update-IsCoherent, held-split_idle, split_idle-DistinctIds, split_idle-All,
  split_idle_fresh, bytes_equal-eq, get-update_key, ports_of-update, unexpired,
  split_idle-unexpired,
}
use rtp_stream_cleaner.Manager.Invariant.{IsOwing, IsValid, stop_session-IsOwing, stop_all-IsValid}

unknown_key :
    (sessions : List Session) (id key : Text)
    → get sessions id ≡ none
    → get sessions key ≡ (if bytes_equal id key then none else get sessions key)
unknown_key sessions id key unknown = elim (Bool-cases (bytes_equal id key)) [
  | inl found ↦ rw found (ap (get sessions) (sym (bytes_equal-eq id key found)) ∙ unknown)
  | inr other ↦ rw other refl
]

-- An update of the destinations answers with the updated session, if the key is known. Afterwards
-- the key has that session, and every other key the session it had; under each key the four ports
-- are the same as before, and so are the allocator and the sockets; and the manager's invariant
-- holds again, by which each port in use belongs to one session and the sessions are coherent.
pub update_rtp_dest-IsValid :
    (m : Manager) (id : Text) (audio_dest video_dest : Option UdpAddr)
    → IsValid m
    → let answer = update_rtp_dest m id audio_dest video_dest in
      IsValid answer.0
      × (answer.1
          ≡ Option.map
              (λ (s : Session). apply_rtp_dest s audio_dest video_dest)
              (get m.sessions id))
      × ((key : Text)
          → get answer.0.sessions key
            ≡ (if bytes_equal id key then answer.1 else get m.sessions key))
      × ((key : Text)
          → Option.map ports_of (get answer.0.sessions key)
            ≡ Option.map ports_of (get m.sessions key))
      × (answer.0.allocator ≡ m.allocator)
      × (answer.0.sockets ≡ m.sockets)
unfolding update_rtp_dest
update_rtp_dest-IsValid m id audio_dest video_dest v = elim (Option-cases (get m.sessions id)) [
  | inl unknown ↦
      rw (update_rtp_dest, unknown)
        (v, refl, λ key. unknown_key m.sessions id key unknown, λ key. refl, refl, refl)
  | inr (s, known) ↦
      let updates = λ (key : Text).
        get-update_key id audio_dest video_dest m.sessions key
        ∙ ap
            (λ (o : Option Session).
              if bytes_equal id key
              then Option.map (λ (t : Session). apply_rtp_dest t audio_dest video_dest) o
              else get m.sessions key)
            known in
      rw (update_rtp_dest, known)
        (
          record {
            allocator_valid = v.allocator_valid;
            held_once = λ x.
                ground (arith, held-update id audio_dest video_dest m.sessions x, v.held_once x);
            open_in_use = v.open_in_use;
            distinct = update-DistinctIds id audio_dest video_dest m.sessions v.distinct;
            coherent = update-IsCoherent id audio_dest video_dest m.sessions v.coherent;
          },
          refl,
          updates,
          ports_of-update id audio_dest video_dest m.sessions,
          refl,
          refl,
        )
]

removed-IsOwing :
    (m : Manager) (id : Text) (s : Session)
    → IsValid m
    → get m.sessions id ≡ some s
    → IsOwing (record m { sessions = remove m.sessions id }) (set_closing s ∷ [])
removed-IsOwing m id s v known = record {
  allocator_valid = v.allocator_valid;
  held_once = λ x. ground (arith, held-remove m.sessions id s x known, v.held_once x);
  open_in_use = v.open_in_use;
  distinct = remove-DistinctIds m.sessions id v.distinct;
  coherent = remove-All IsCoherent m.sessions id v.coherent;
}

delete_unknown : (m : Manager) (id : Text) → get m.sessions id ≡ none → delete m id ≡ (m, false)
unfolding delete
delete_unknown m id unknown = rw (delete, unknown) refl

abbrev deleted : Manager → Text → Session → Manager
deleted m id s = stop_session (record m { sessions = remove m.sessions id }) (set_closing s)

delete_known :
    (m : Manager) (id : Text) (s : Session)
    → get m.sessions id ≡ some s
    → delete m id ≡ (deleted m id s, true)
unfolding delete
delete_known m id s known = rw (delete, known) refl

-- A deletion under an unknown key changes nothing and answers false. Under a known key it answers
-- true, the key is unknown afterwards, exactly the four ports of its session leave use, and each
-- other port in use still belongs to one session and has an open socket.
pub delete-IsValid :
    (m : Manager) (id : Text)
    → IsValid m
    → ((get m.sessions id ≡ none) × (delete m id ≡ (m, false)))
      ⊎ ((s : Session) × (get m.sessions id ≡ some s)
          × ((delete m id).1 ≡ true)
          × (is_taken (delete m id).0.sessions id ≡ false)
          × ((x : ℕ)
              → (delete m id).0.allocator.in_use x
                ≡ (m.allocator.in_use x && not (elem x (ports_of s))))
          × IsValid (delete m id).0)
unfolding stop_session
delete-IsValid m id v = elim (Option-cases (get m.sessions id)) [
  | inl unknown ↦ inl (unknown, delete_unknown m id unknown)
  | inr (s, known) ↦
      let e = delete_known m id s known in
      let (valid, low, high, in_use) = release-IsValid m.allocator (ports_of s) v.allocator_valid in
      let gone = record m { sessions = remove m.sessions id } in
      inr (
        s,
        known,
        rw e refl,
        rw e (get-remove m.sessions id v.distinct),
        rw e in_use,
        rw e (stop_session-IsOwing gone (set_closing s) [] (removed-IsOwing m id s v known)),
      )
]

stop_all_sessions :
    (m : Manager) (stopping : List Session) → (stop_all m stopping).sessions ≡ m.sessions
unfolding stop_all stop_session
stop_all_sessions m [] = refl
stop_all_sessions m (s ∷ stopping) = stop_all_sessions (stop_session m s) stopping

split-IsOwing :
    (m : Manager) (now : ℕ)
    → IsValid m
    → IsOwing
        (record m { sessions = (split_idle m.idle_timeout now m.sessions).0 })
        (split_idle m.idle_timeout now m.sessions).1
split-IsOwing m now v = record {
  allocator_valid = v.allocator_valid;
  held_once = λ x. ground (arith, held-split_idle m.idle_timeout now m.sessions x, v.held_once x);
  open_in_use = v.open_in_use;
  distinct = split_idle-DistinctIds m.idle_timeout now m.sessions v.distinct;
  coherent = split_idle-All m.idle_timeout now IsCoherent m.sessions v.coherent;
}

-- With a timeout set, the removal of idle sessions leaves just the sessions that are not expired, in
-- their order and unchanged, frees the ports and closes the sockets of all others, and those alone:
-- a port is in use afterwards, with an open socket, just if one session that stays holds it.
pub remove_idle_sessions-IsValid :
    (m : Manager) (now : ℕ)
    → 1 ≤ m.idle_timeout
    → IsValid m
    → let q = remove_idle_sessions m now in
      IsValid q
      × (q.sessions ≡ unexpired m.idle_timeout now m.sessions)
      × All (λ (s : Session). is_expired m.idle_timeout now s ≡ false) q.sessions
unfolding remove_idle_sessions
remove_idle_sessions-IsValid m now on v =
    let parts = split_idle m.idle_timeout now m.sessions in
    let rest = record m { sessions = parts.0 } in
    let enabled : (m.idle_timeout == 0) ≡ false = ground arith in
    let fresh = split_idle_fresh m.idle_timeout now m.sessions in
    rw enabled (
      stop_all-IsValid rest parts.1 (split-IsOwing m now v),
      stop_all_sessions rest parts.1 ∙ split_idle-unexpired m.idle_timeout now m.sessions,
      rw (stop_all_sessions rest parts.1) fresh,
    )
