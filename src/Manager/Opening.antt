-- ===== src/Manager/Opening.antt =====
-- The parts of a creation: the choice of an identifier, the four sockets, the new session.
use rtp_stream_cleaner.Prelude.{
  ℕ, ◌≡◌, inl, inr, refl, Bool, true, false, not, ◌&&◌, ◌||◌, Option, none, some, List, [], ◌∷◌,
  length, get_or, if◌then◌else◌, Bool-cases, arith,
}
use rtp_stream_cleaner.Ports.Sort.{elem, Distinct}
use rtp_stream_cleaner.Session.{Text, Session, audio_state, video_state}
use rtp_stream_cleaner.Session.Coherent.{IsCoherent}
use rtp_stream_cleaner.Manager.{CreateError, Request, choose_id, new_session, open_sockets}
use rtp_stream_cleaner.Manager.Sessions.{count, is_taken}

-- The answer of the loop is an identifier that nobody has.
pub choose_id-fresh :
    (sessions : List Session) (ids : List Text) (id : Text)
    → choose_id sessions ids ≡ some id
    → is_taken sessions id ≡ false
unfolding choose_id
choose_id-fresh sessions [] id e = absurd (ground arith)
choose_id-fresh sessions (first ∷ ids) id e = elim (Bool-cases (is_taken sessions first)) [
  | inl taken ↦ choose_id-fresh sessions ids id (ground arith)
  | inr free ↦ let same : some first ≡ some id = ground arith in ground arith
]

-- Is one of the identifiers unused?
abbrev pub has_unused : List Session → List Text → Bool
has_unused sessions [] = false
has_unused sessions (id ∷ ids) = not (is_taken sessions id) || has_unused sessions ids

pub choose_id-decided :
    (sessions : List Session) (ids : List Text)
    → has_unused sessions ids ≡ true
    → (id : Text) × (choose_id sessions ids ≡ some id)
unfolding choose_id
choose_id-decided sessions [] h = absurd (ground arith)
choose_id-decided sessions (first ∷ ids) h = elim (Bool-cases (is_taken sessions first)) [
  | inl taken ↦ let (id, e) = choose_id-decided sessions ids (ground arith) in (id, ground arith)
  | inr free ↦ (first, ground arith)
]

abbrev pub every : (ℕ → Bool) → List ℕ → Bool
every test [] = true
every test (x ∷ xs) = test x && every test xs

module _ (sockets listens : ℕ → Bool) (a b video_a video_b : ℕ) where
  abbrev pub four : List ℕ
  four = a ∷ b ∷ video_a ∷ video_b ∷ []

  abbrev pub opened : (ℕ → Bool) × Option CreateError
  opened = open_sockets sockets listens a b video_a video_b

  -- The four sockets are opened, or none is left open.
  pub open_sockets-four :
      (x : ℕ)
      → (elem x four && sockets x) ≡ false
      → opened.0 x ≡ (sockets x || (elem x four && elim opened.1 [ none ↦ true | some e ↦ false ]))
  unfolding open_sockets
  open_sockets-four x closed = ground arith

  -- They are opened just if the system lets the manager listen on all four.
  pub open_sockets-every : elim opened.1 [ none ↦ true | some e ↦ false ] ≡ every listens four
  unfolding open_sockets
  open_sockets-every = ground arith

pub four_ports :
    (ports : List ℕ)
    → length ports ≡ 4
    → (get_or ports 0 0 ∷ get_or ports 1 0 ∷ get_or ports 2 0 ∷ get_or ports 3 0 ∷ []) ≡ ports
four_ports [] e = absurd (omega arith)
four_ports (a ∷ []) e = absurd (omega arith)
four_ports (a ∷ b ∷ []) e = absurd (omega arith)
four_ports (a ∷ b ∷ c ∷ []) e = absurd (omega arith)
four_ports (a ∷ b ∷ c ∷ d ∷ []) e = refl
four_ports (a ∷ b ∷ c ∷ d ∷ x ∷ rest) e = absurd (omega arith)

pub count-Distinct :
    (x : ℕ) (ports : List ℕ) → Distinct ports → count x ports ≡ (if elem x ports then 1 else 0)
count-Distinct x [] d = refl
count-Distinct x (y ∷ ports) d = ground (arith, count-Distinct x ports d.1)

pub new_session-IsCoherent : (r : Request) (ports : List ℕ) → IsCoherent (new_session r ports)
unfolding audio_state video_state
new_session-IsCoherent r ports = record {
  audio_agrees = refl;
  video_agrees = refl;
  audio_meaning = inr (refl, refl, inl refl);
  video_meaning = inr (refl, refl, inl refl);
}

pub named-IsCoherent : (s : Session) (id : Text) → IsCoherent s → IsCoherent (record s { id = id })
unfolding audio_state video_state
named-IsCoherent s id c = record {
  audio_agrees = c.audio_agrees;
  video_agrees = c.video_agrees;
  audio_meaning = c.audio_meaning;
  video_meaning = c.video_meaning;
}
