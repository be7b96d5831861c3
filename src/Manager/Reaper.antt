-- ===== src/Manager/Reaper.antt =====
-- reapIdleSessions of internal/session/manager.go: the goroutine that removes idle sessions at each
-- tick of its clock, until Close asks it to stop.
use mathlib.Core.Path.{subst}
use rtp_stream_cleaner.Prelude.{
  ℕ, ◌+◌, ◌/◌, ◌≤◌, ◌<◌, ◌≡◌, ◌⊎◌, inl, inr, refl, sym, ◌∙◌, false, List, [], ◌∷◌, All, ltb, ◌==◌,
  if◌then◌else◌, arith, if_split, if_cases, Bool-cases, suc, zero,
}
use rtp_stream_cleaner.Session.{Session}
use rtp_stream_cleaner.Manager.{
  Manager, is_expired, split_idle, stop_session, stop_all, remove_idle_sessions,
}

-- What wakes the goroutine: a tick, with the time that the manager's clock then shows, or Close.
pub data Wake : Type 0 where
  tick : ℕ → Wake
  stop : Wake

-- Half the timeout, and a second at least.
abbrev pub interval_of : ℕ → ℕ
interval_of timeout = if ltb (timeout / 2) 1_000_000_000 then 1_000_000_000 else timeout / 2

unfoldable pub reap_idle_sessions : Manager → List Wake → Manager
reap_idle_sessions m [] = m
reap_idle_sessions m (stop ∷ wakes) = m
reap_idle_sessions m (tick now ∷ wakes) = reap_idle_sessions (remove_idle_sessions m now) wakes

-- A session that is not idle at a time: it was active within the timeout, or never yet.
abbrev pub IsFreshAt : ℕ → ℕ → Session → Type 0
IsFreshAt timeout now s =
    (s.activity.last_activity_nsec ≡ 0) ⊎ (now < s.activity.last_activity_nsec + timeout)

not_expired :
    (timeout now : ℕ) (s : Session) → is_expired timeout now s ≡ false → IsFreshAt timeout now s
not_expired timeout now s e = elim (Bool-cases (s.activity.last_activity_nsec == 0)) [
  | inl never ↦ inl (ground arith)
  | inr once ↦ inr (ground arith)
]

split_idle-IsFreshAt :
    (timeout now : ℕ) (sessions : List Session)
    → All (IsFreshAt timeout now) (split_idle timeout now sessions).0
unfolding split_idle
split_idle-IsFreshAt timeout now [] = tt
split_idle-IsFreshAt timeout now (s ∷ sessions) =
    let rest = split_idle-IsFreshAt timeout now sessions in
    if_split (λ (parts : List Session × List Session). All (IsFreshAt timeout now) parts.0)
      (is_expired timeout now s) (λ e. rest) (λ e. (not_expired timeout now s e, rest))

stop_all_keeps :
    (m : Manager) (expired : List Session)
    → ((stop_all m expired).sessions ≡ m.sessions)
      × ((stop_all m expired).idle_timeout ≡ m.idle_timeout)
unfolding stop_all stop_session
stop_all_keeps m [] = (refl, refl)
stop_all_keeps m (s ∷ expired) =
    let rest = stop_all_keeps (stop_session m s) expired in (rest.0, rest.1)

remove_idle_sessions-IsFreshAt :
    (m : Manager) (now : ℕ)
    → 0 < m.idle_timeout
    → All (IsFreshAt m.idle_timeout now) (remove_idle_sessions m now).sessions
unfolding remove_idle_sessions
remove_idle_sessions-IsFreshAt m now on =
    if_split (λ (q : Manager). All (IsFreshAt m.idle_timeout now) q.sessions) (m.idle_timeout == 0)
      (λ off. absurd (ground arith))
      (λ e.
        let parts = split_idle m.idle_timeout now m.sessions in
        let kept = stop_all_keeps (record m { sessions = parts.0 }) parts.1 in
        subst (All (IsFreshAt m.idle_timeout now)) (sym kept.0)
          (split_idle-IsFreshAt m.idle_timeout now m.sessions))

remove_idle_sessions_timeout :
    (m : Manager) (now : ℕ) → (remove_idle_sessions m now).idle_timeout ≡ m.idle_timeout
unfolding remove_idle_sessions
remove_idle_sessions_timeout m now =
    if_cases (λ (q : Manager). q.idle_timeout ≡ m.idle_timeout) (m.idle_timeout == 0) refl
      (stop_all_keeps (record m { sessions = (split_idle m.idle_timeout now m.sessions).0 })
        (split_idle m.idle_timeout now m.sessions).1).1

-- The ticks of a clock with that interval, and the time of the last.
abbrev pub tick_list : ℕ → ℕ → ℕ → List Wake
tick_list now interval zero = []
tick_list now interval (suc n) = tick (now + interval) ∷ tick_list (now + interval) interval n

abbrev pub last_tick : ℕ → ℕ → ℕ → ℕ
last_tick now interval zero = now
last_tick now interval (suc n) = last_tick (now + interval) interval n

last_tick_later : (now interval n : ℕ) → now ≤ last_tick now interval n
last_tick_later now interval zero = omega arith
last_tick_later now interval (suc n) = omega (arith, last_tick_later (now + interval) interval n)

reap_idle_sessions-IsFreshAt :
    (m : Manager) (timeout now interval n : ℕ)
    → m.idle_timeout ≡ timeout
    → 0 < timeout
    → All
        (IsFreshAt timeout (last_tick now interval (suc n)))
        (reap_idle_sessions m (tick_list now interval (suc n))).sessions
unfolding reap_idle_sessions
reap_idle_sessions-IsFreshAt m timeout now interval zero same on =
    subst
      (λ (t : ℕ).
        All (IsFreshAt t (now + interval)) (remove_idle_sessions m (now + interval)).sessions)
      same (remove_idle_sessions-IsFreshAt m (now + interval) (omega arith))
reap_idle_sessions-IsFreshAt m timeout now interval (suc n) same on =
    reap_idle_sessions-IsFreshAt (remove_idle_sessions m (now + interval)) timeout (now + interval)
      interval n (remove_idle_sessions_timeout m (now + interval) ∙ same) on

-- Active after a time, or never yet.
abbrev pub IsActiveSince : ℕ → Session → Type 0
IsActiveSince start s =
    (s.activity.last_activity_nsec ≡ 0) ⊎ (start < s.activity.last_activity_nsec)

IsFreshAt-IsActiveSince :
    (timeout now start : ℕ) (sessions : List Session)
    → start + timeout ≤ now
    → All (IsFreshAt timeout now) sessions
    → All (IsActiveSince start) sessions
IsFreshAt-IsActiveSince timeout now start [] h fresh = tt
IsFreshAt-IsActiveSince timeout now start (s ∷ sessions) h (fresh, more) =
    (either fresh, IsFreshAt-IsActiveSince timeout now start sessions h more)
  where
    either : IsFreshAt timeout now s → IsActiveSince start s
    either (inl never) = inl never
    either (inr late) = inr (omega arith)

-- A session that falls silent is removed: whatever the sessions and the timeout, as long as there is
-- one, after three ticks of the reaper's own interval, or more, and nothing else between them, every
-- session that is left was active after the time from which the ticks are counted, or never yet.
pub reap_idle_sessions-IsActiveSince :
    (m : Manager) (start n : ℕ)
    → 0 < m.idle_timeout
    → All
        (IsActiveSince start)
        (reap_idle_sessions m
          (tick_list start (interval_of m.idle_timeout) (suc (suc (suc n))))).sessions
reap_idle_sessions-IsActiveSince m start n on =
    let interval : ℕ = interval_of m.idle_timeout in
    let third : ℕ = start + interval + interval + interval in
    let after = last_tick_later third interval n in
    let long : m.idle_timeout ≤ interval + interval + interval = ground arith in
    IsFreshAt-IsActiveSince m.idle_timeout (last_tick third interval n) start _ (omega arith)
      (reap_idle_sessions-IsFreshAt m m.idle_timeout start interval (suc (suc n)) refl on)
