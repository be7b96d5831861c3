-- ===== src/Manager/Sessions.antt =====
-- The map of sessions as a list: who holds a port, which keys are taken, and what the operations do
-- to both.
use rtp_stream_cleaner.Prelude.{
  ℕ, ◌+◌, ◌≡◌, refl, sym, ap, Bool, true, false, not, ◌&&◌, Option, none, some, ◌∙◌, List, [], ◌∷◌,
  All, ◌==◌, if◌then◌else◌, if_split, if_both, arith, Bool-cases, inl, inr,
}
use rtp_stream_cleaner.Prelude.Option
use rtp_stream_cleaner.Net.{UdpAddr, bytes_equal}
use rtp_stream_cleaner.Session.{Text, Media, Session, apply_media, apply_rtp_dest}
use rtp_stream_cleaner.Session.Coherent.{IsCoherent, apply_rtp_dest-IsCoherent}
use rtp_stream_cleaner.Manager.{
  get, is_some, update_sessions, ports_of, remove, is_expired, split_idle,
}

-- How often a port occurs.
abbrev pub count : ℕ → List ℕ → ℕ
count x [] = 0
count x (y ∷ ys) = (if x == y then 1 else 0) + count x ys

-- How many sessions hold a port.
abbrev pub held : List Session → ℕ → ℕ
held [] x = 0
held (s ∷ sessions) x = count x (ports_of s) + held sessions x

abbrev pub is_taken : List Session → Text → Bool
is_taken sessions id = is_some (get sessions id)

abbrev pub DistinctIds : List Session → Type 0
DistinctIds [] = Unit
DistinctIds (s ∷ sessions) = (is_taken sessions s.id ≡ false) × DistinctIds sessions

pub bytes_equal-eq : (a b : Text) → bytes_equal a b ≡ true → a ≡ b
unfolding bytes_equal
bytes_equal-eq [] [] e = refl
bytes_equal-eq [] (y ∷ ys) e = absurd (ground arith)
bytes_equal-eq (x ∷ xs) [] e = absurd (ground arith)
bytes_equal-eq (x ∷ xs) (y ∷ ys) e =
    let head : x ≡ y = ground arith in
    let tail : xs ≡ ys = bytes_equal-eq xs ys (ground arith) in rw (head, tail) refl

pub held-remove :
    (sessions : List Session) (id : Text) (s : Session) (x : ℕ)
    → get sessions id ≡ some s
    → count x (ports_of s) + held (remove sessions id) x ≡ held sessions x
unfolding get remove
held-remove [] id s x e = absurd (ground arith)
held-remove (t ∷ sessions) id s x e = elim (Bool-cases (bytes_equal t.id id)) [
  | inl found ↦ ground arith
  | inr other ↦ ground (arith, held-remove sessions id s x)
]

is_taken-remove :
    (sessions : List Session) (id key : Text)
    → (is_taken (remove sessions id) key && not (is_taken sessions key)) ≡ false
unfolding get remove
is_taken-remove [] id key = refl
is_taken-remove (t ∷ sessions) id key = ground (arith, is_taken-remove sessions id key)

pub remove-DistinctIds :
    (sessions : List Session) (id : Text) → DistinctIds sessions → DistinctIds (remove sessions id)
unfolding remove
remove-DistinctIds [] id d = tt
remove-DistinctIds (t ∷ sessions) id d =
    if_split DistinctIds (bytes_equal t.id id) (λ found. d.1)
      (λ other.
        (ground (arith, is_taken-remove sessions id t.id), remove-DistinctIds sessions id d.1))

pub remove-All {ℓ} :
    (P : Session → Type ℓ) (sessions : List Session) (id : Text)
    → All P sessions
    → All P (remove sessions id)
unfolding remove
remove-All P [] id h = h
remove-All P (t ∷ sessions) id h =
    if_split (All P) (bytes_equal t.id id) (λ found. h.1)
      (λ other. (h.0, remove-All P sessions id h.1))

-- Sought under its key, a removed session is gone.
pub get-remove :
    (sessions : List Session) (id : Text)
    → DistinctIds sessions
    → is_taken (remove sessions id) id ≡ false
unfolding get remove
get-remove [] id d = refl
get-remove (t ∷ sessions) id d = elim (Bool-cases (bytes_equal t.id id)) [
  | inl found ↦ rw found (ap (is_taken sessions) (sym (bytes_equal-eq t.id id found)) ∙ d.0)
  | inr other ↦ ground (arith, get-remove sessions id d.1)
]

apply_media_ports :
    (m : Media) (dest : Option UdpAddr)
    → ((apply_media m dest).a_port ≡ m.a_port) × ((apply_media m dest).b_port ≡ m.b_port)
apply_media_ports m none = (refl, refl)
apply_media_ports m (some addr) = (ground arith, ground arith)

pub ports_of-apply_rtp_dest :
    (s : Session) (audio_dest video_dest : Option UdpAddr)
    → ports_of (apply_rtp_dest s audio_dest video_dest) ≡ ports_of s
unfolding apply_rtp_dest
ports_of-apply_rtp_dest s audio_dest video_dest =
    let (a, b) = apply_media_ports s.audio audio_dest in
    let (c, d) = apply_media_ports s.video video_dest in rw (a, b, c, d) refl

module _ (id : Text) (audio_dest video_dest : Option UdpAddr) where
  abbrev updated : List Session → List Session
  updated sessions = update_sessions sessions id audio_dest video_dest

  pub held-update : (sessions : List Session) (x : ℕ) → held (updated sessions) x ≡ held sessions x
  unfolding update_sessions
  held-update [] x = refl
  held-update (t ∷ sessions) x =
      let same =
        ap (λ (ports : List ℕ). count x ports) (ports_of-apply_rtp_dest t audio_dest video_dest) in
      ground (arith, held-update sessions x, same)

  is_taken-update :
      (sessions : List Session) (key : Text)
      → is_taken (updated sessions) key ≡ is_taken sessions key
  unfolding get update_sessions apply_rtp_dest
  is_taken-update [] key = refl
  is_taken-update (t ∷ sessions) key = ground (arith, is_taken-update sessions key)

  -- The session under the key is updated, and every other key keeps its session.
  get-update :
      (sessions : List Session)
      → get (updated sessions) id
        ≡ Option.map (λ (s : Session). apply_rtp_dest s audio_dest video_dest) (get sessions id)
  unfolding get update_sessions apply_rtp_dest
  get-update [] = refl
  get-update (t ∷ sessions) = ground (arith, get-update sessions)

  get-update_other :
      (sessions : List Session) (key : Text)
      → bytes_equal id key ≡ false
      → get (updated sessions) key ≡ get sessions key
  unfolding get update_sessions apply_rtp_dest
  get-update_other [] key other = refl
  get-update_other (t ∷ sessions) key other = elim (Bool-cases (bytes_equal t.id id)) [
    | inl found ↦
        let same : bytes_equal t.id key ≡ false =
          ap (λ (k : Text). bytes_equal k key) (bytes_equal-eq t.id id found) ∙ other in
        ground arith
    | inr another ↦ ground (arith, get-update_other sessions key other)
  ]

  pub get-update_key :
      (sessions : List Session) (key : Text)
      → get (updated sessions) key ≡ (
          if bytes_equal id key
          then Option.map
              (λ (s : Session). apply_rtp_dest s audio_dest video_dest)
              (get sessions id)
          else get sessions key)
  get-update_key sessions key = elim (Bool-cases (bytes_equal id key)) [
    | inl found ↦
        rw found
          (ap (get (updated sessions)) (sym (bytes_equal-eq id key found)) ∙ get-update sessions)
    | inr other ↦ rw other (get-update_other sessions key other)
  ]

  id_kept : (s : Session) → (apply_rtp_dest s audio_dest video_dest).id ≡ s.id
  unfolding apply_rtp_dest
  id_kept s = refl

  pub ports_of-update :
      (sessions : List Session) (key : Text)
      → Option.map ports_of (get (updated sessions) key) ≡ Option.map ports_of (get sessions key)
  unfolding get update_sessions
  ports_of-update [] key = refl
  ports_of-update (t ∷ sessions) key =
      let same = ports_of-apply_rtp_dest t audio_dest video_dest in
      let same_id = id_kept t in ground (arith, ports_of-update sessions key)

  pub update-DistinctIds :
      (sessions : List Session) → DistinctIds sessions → DistinctIds (updated sessions)
  unfolding update_sessions apply_rtp_dest
  update-DistinctIds [] d = tt
  update-DistinctIds (t ∷ sessions) d =
      if_split DistinctIds (bytes_equal t.id id) (λ found. d)
        (λ other. (ground (arith, is_taken-update sessions t.id), update-DistinctIds sessions d.1))

  pub update-IsCoherent :
      (sessions : List Session) → All IsCoherent sessions → All IsCoherent (updated sessions)
  unfolding update_sessions
  update-IsCoherent [] h = h
  update-IsCoherent (t ∷ sessions) h =
      if_split (All IsCoherent) (bytes_equal t.id id)
        (λ found. (apply_rtp_dest-IsCoherent t audio_dest video_dest h.0, h.1))
        (λ other. (h.0, update-IsCoherent sessions h.1))

module _ (timeout now : ℕ) where
  abbrev staying : List Session → List Session
  staying sessions = (split_idle timeout now sessions).0

  pub held-split_idle :
      (sessions : List Session) (x : ℕ)
      → held (split_idle timeout now sessions).0 x + held (split_idle timeout now sessions).1 x
        ≡ held sessions x
  unfolding split_idle
  held-split_idle [] x = refl
  held-split_idle (t ∷ sessions) x = ground (arith, held-split_idle sessions x)

  is_taken-split_idle :
      (sessions : List Session) (key : Text)
      → (is_taken (staying sessions) key && not (is_taken sessions key)) ≡ false
  unfolding get split_idle
  is_taken-split_idle [] key = refl
  is_taken-split_idle (t ∷ sessions) key = ground (arith, is_taken-split_idle sessions key)

  pub split_idle-DistinctIds :
      (sessions : List Session) → DistinctIds sessions → DistinctIds (staying sessions)
  unfolding split_idle
  split_idle-DistinctIds [] d = tt
  split_idle-DistinctIds (t ∷ sessions) d =
      if_split (λ (r : List Session × List Session). DistinctIds r.0) (is_expired timeout now t)
        (λ old. split_idle-DistinctIds sessions d.1)
        (λ fresh.
          (ground (arith, is_taken-split_idle sessions t.id), split_idle-DistinctIds sessions d.1))

  pub split_idle-All {ℓ} :
      (P : Session → Type ℓ) (sessions : List Session) → All P sessions → All P (staying sessions)
  unfolding split_idle
  split_idle-All P [] h = h
  split_idle-All P (t ∷ sessions) h =
      if_split (λ (r : List Session × List Session). All P r.0) (is_expired timeout now t)
        (λ old. split_idle-All P sessions h.1) (λ fresh. (h.0, split_idle-All P sessions h.1))

  -- The sessions that are not expired stay, in their order, and no others.
  abbrev pub unexpired : List Session → List Session
  unexpired [] = []
  unexpired (t ∷ sessions) =
      let rest = unexpired sessions in if is_expired timeout now t then rest else t ∷ rest

  pub split_idle-unexpired : (sessions : List Session) → staying sessions ≡ unexpired sessions
  unfolding split_idle
  split_idle-unexpired [] = refl
  split_idle-unexpired (t ∷ sessions) =
      if_both (λ (r : List Session × List Session) (xs : List Session). r.0 ≡ xs)
        (is_expired timeout now t) (split_idle-unexpired sessions)
        (ap (λ (xs : List Session). t ∷ xs) (split_idle-unexpired sessions))

  -- Every session that stays is not expired.
  pub split_idle_fresh :
      (sessions : List Session)
      → All (λ (s : Session). is_expired timeout now s ≡ false) (staying sessions)
  unfolding split_idle
  split_idle_fresh [] = tt
  split_idle_fresh (t ∷ sessions) =
      if_split
        (λ (r : List Session × List Session).
          All (λ (s : Session). is_expired timeout now s ≡ false) r.0)
        (is_expired timeout now t) (λ old. split_idle_fresh sessions)
        (λ fresh. (fresh, split_idle_fresh sessions))
