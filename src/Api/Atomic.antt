-- ===== src/Api/Atomic.antt =====
-- What a request can do to the manager, by its response.
use rtp_stream_cleaner.Prelude.{
  ℕ, ◌≤◌, ◌≡◌, ◌⊎◌, inl, inr, refl, Bool, true, false, not, ◌||◌, Option, none, some, List, length,
  take, ltb, if◌then◌else◌, if_cases, Bool-cases, Option-cases, arith, ◌↔◌, sym, ap, ◌∙◌,
}
use rtp_stream_cleaner.Net.{UdpAddr, bytes_equal}
use rtp_stream_cleaner.Session.{Text, Session}
use rtp_stream_cleaner.Manager.{
  Manager, CreateError, Request, made, failed, get, create_with_dest, update_rtp_dest,
}
use rtp_stream_cleaner.Manager.Opening.{has_unused, every}
use rtp_stream_cleaner.Manager.Invariant.{IsValid}
use rtp_stream_cleaner.Manager.Create.{create_with_dest-failed, create_with_dest-made}
use rtp_stream_cleaner.Manager.Remove.{delete-IsValid}
use rtp_stream_cleaner.Manager.Run.{IsReachable, IsReachable-IsValid, creates, updates, deletes}
use rtp_stream_cleaner.Api.{
  Handler, Parsing, CreateBody, Environment, ApiRequest, health, create_session, get_session,
  update_session, delete_session, Response, rejected, page_not_found, pending, healthy,
  session_created, session_found, session_deleted, is_empty, PortNumber, negative, natural,
  check_port, parse_dest, optional_dest, create_parsed, handle_session_create, handle_session_get,
  update_parsed, handle_session_update, handle_session_delete, route, serve,
}

-- Status 200.
abbrev pub is_success : Response → Bool
is_success (rejected status e) = false
is_success page_not_found = false
is_success pending = false
is_success healthy = true
is_success (session_created r) = true
is_success (session_found r) = true
is_success session_deleted = true

-- A creation fails without a trace or makes a session.
create_cases :
    (m : Manager) (r : Request)
    → IsValid m
    → has_unused m.sessions r.ids ≡ true
    → ((e : CreateError) × (create_with_dest m r ≡ (m, failed e)))
      ⊎ ((s : Session) × ((create_with_dest m r).1 ≡ made s))
create_cases m r v some_unused =
    let lowest = take 4 m.allocator.available in
    elim (Bool-cases (ltb (length m.allocator.available) 4)) [
      | inl few ↦ inl (create_with_dest-failed m r v (inl (ground arith)))
      | inr enough ↦ elim (Bool-cases (every r.listens lowest)) [
        | inl all ↦
            let (s, done, added, unused, ports, valid) =
              create_with_dest-made m r v (ground arith) all some_unused in
            inr (s, done)
        | inr not_all ↦ inl (create_with_dest-failed m r v (inr (ground arith, not_all)))
      ]
    ]

-- An answer that is no success comes with the manager as it was; any answer comes with a manager
-- that the manager's own operations reach.
record IsAtomic (first m : Manager) (answer : Manager × Response) : Type 0 where
  unchanged : (if is_success answer.1 then m else answer.0) ≡ m
  reached : IsReachable first answer.0

module _ (first m : Manager) (v : IsValid m) (from : IsReachable first m) where
  refusal : (response : Response) → IsAtomic first m (m, response)
  refusal response = record { unchanged = ground arith; reached = from }

  create_parsed-IsAtomic :
      (h : Handler) (env : Environment) (body : CreateBody) (audio video : Option (Option UdpAddr))
      → has_unused m.sessions env.ids ≡ true
      → IsAtomic first m (create_parsed h env m body audio video)
  create_parsed-IsAtomic h env body none video some_unused = refusal _
  create_parsed-IsAtomic h env body (some audio) none some_unused = refusal _
  create_parsed-IsAtomic h env body (some audio) (some video) some_unused =
      let r : Request = record {
        call_id = body.call_id;
        from_tag = body.from_tag;
        to_tag = body.to_tag;
        audio_dest = audio;
        video_dest = video;
        listens = env.listens;
        ids = env.ids;
        created_at = env.created_at;
        active_at = env.active_at;
      } in
      record {
        unchanged = elim (create_cases m r v some_unused) [
          | inl (e, same) ↦ rw same refl
          | inr (s, done) ↦ rw done refl
        ];
        reached = creates from r some_unused;
      }

  update_parsed-IsAtomic :
      (h : Handler) (id : Text) (audio video : Option (Option UdpAddr))
      → IsAtomic first m (update_parsed h m id audio video)
  unfolding update_rtp_dest
  update_parsed-IsAtomic h id none video = refusal _
  update_parsed-IsAtomic h id (some audio) none = refusal _
  update_parsed-IsAtomic h id (some audio) (some video) = record {
    unchanged = elim (Option-cases (get m.sessions id)) [
      | inl unknown ↦ rw (update_rtp_dest, unknown) refl
      | inr (s, known) ↦ rw (update_rtp_dest, known) refl
    ];
    reached = updates from id audio video;
  }

  handle_session_delete-IsAtomic : (id : Text) → IsAtomic first m (handle_session_delete m id)
  unfolding handle_session_delete
  handle_session_delete-IsAtomic id = record {
    unchanged = elim (delete-IsValid m id v) [
      | inl (unknown, same) ↦ rw same refl
      | inr (s, known, done, gone, freed, valid) ↦ rw done refl
    ];
    reached = deletes from id;
  }

  route-IsAtomic :
      (h : Handler) (lib : Parsing) (env : Environment) (request : ApiRequest)
      → has_unused m.sessions env.ids ≡ true
      → IsAtomic first m (route h lib env m request)
  unfolding route handle_session_create handle_session_get handle_session_update
  route-IsAtomic h lib env health u = refusal _
  route-IsAtomic h lib env (create_session none) u =
      if_cases (IsAtomic first m) (is_empty h.public_ip) (refusal _) (refusal _)
  route-IsAtomic h lib env (create_session (some body)) u =
      if_cases (IsAtomic first m) (is_empty h.public_ip) (refusal _) (
        if_cases (IsAtomic first m)
          (is_empty body.call_id || is_empty body.from_tag || is_empty body.to_tag) (refusal _)
          (create_parsed-IsAtomic h env body (optional_dest lib body.audio_dest)
            (optional_dest lib body.video_dest) u))
  route-IsAtomic h lib env (get_session id) u =
      if_cases (IsAtomic first m) (is_empty id) (refusal _) (refusal _)
  route-IsAtomic h lib env (update_session id none) u =
      if_cases (IsAtomic first m) (is_empty id) (refusal _) (refusal _)
  route-IsAtomic h lib env (update_session id (some body)) u =
      if_cases (IsAtomic first m) (is_empty id) (refusal _) (
        update_parsed-IsAtomic h id (optional_dest lib body.audio_dest)
          (optional_dest lib body.video_dest))
  route-IsAtomic h lib env (delete_session id) u =
      if_cases (IsAtomic first m) (is_empty id) (refusal _) (handle_session_delete-IsAtomic id)

  serve-IsAtomic :
      (h : Handler) (lib : Parsing) (env : Environment) (token : Text) (request : ApiRequest)
      → has_unused m.sessions env.ids ≡ true
      → IsAtomic first m (serve h lib env m token request)
  unfolding serve
  serve-IsAtomic h lib env token request u =
      if_cases (IsAtomic first m) (is_empty token || not (bytes_equal token h.service_password))
        (refusal _) (route-IsAtomic h lib env request u)

-- Let the sessions be in a state that calls have reached, and an identifier that no session has be
-- generated. Then each request, with the right token or not, takes them to a state that calls reach,
-- and an answer without status 200 leaves them, their ports and their sockets exactly as they were.
pub serve-IsReachable :
    (h : Handler) (lib : Parsing) (env : Environment) (first m : Manager) (token : Text)
    (request : ApiRequest)
    → IsValid first
    → IsReachable first m
    → has_unused m.sessions env.ids ≡ true
    → let answer = serve h lib env m token request in
      IsReachable first answer.0 × ((if is_success answer.1 then m else answer.0) ≡ m)
serve-IsReachable h lib env first m token request v from u =
    let atomic =
      serve-IsAtomic first m (IsReachable-IsValid v from) from h lib env token request u in
    (atomic.reached, atomic.unchanged)

-- The port of a destination: a natural number of 16 bits.
check_port_iff :
    (ip : List ℕ) (number : Option PortNumber) (dest : UdpAddr)
    → (check_port ip number ≡ some dest)
      ↔ ((dest.ip ≡ ip) × (number ≡ some (natural dest.port)) × (dest.port ≤ 65535))
check_port_iff ip none dest =
    (λ e. absurd (ground arith), λ (e, number, small). absurd (ground arith))
check_port_iff ip (some (negative n)) dest =
    (λ e. absurd (ground arith), λ (e, number, small). absurd (ground arith))
check_port_iff ip (some (natural n)) dest =
    (λ e. (ground arith, ground arith, ground arith), λ (e, number, small). ground arith)

module _ (lib : Parsing) (raw : Text) where
  parse_dest_parts :
      (host port : Text) (ip : List ℕ)
      → lib.split_host_port raw ≡ some (host, port)
      → lib.parse_ip host ≡ some ip
      → parse_dest lib raw ≡ check_port ip (lib.atoi port)
  unfolding parse_dest
  parse_dest_parts host port ip good good_ip = rw (parse_dest, good, good_ip) refl

  parse_dest_inv :
      (dest : UdpAddr)
      → parse_dest lib raw ≡ some dest
      → (host port : Text) × (lib.split_host_port raw ≡ some (host, port))
        × (lib.parse_ip host ≡ some dest.ip)
        × (lib.atoi port ≡ some (natural dest.port))
        × (dest.port ≤ 65535)
  unfolding parse_dest
  parse_dest_inv dest e = elim (Option-cases (lib.split_host_port raw)) [
    | inl bad ↦
        let refused : parse_dest lib raw ≡ none = rw (parse_dest, bad) refl in absurd (ground arith)
    | inr ((host, port), good) ↦ elim (Option-cases (lib.parse_ip host)) [
      | inl bad_ip ↦
          let refused : parse_dest lib raw ≡ none = rw (parse_dest, good, bad_ip) refl in
          absurd (ground arith)
      | inr (ip, good_ip) ↦
          let checked = sym (parse_dest_parts host port ip good good_ip) ∙ e in
          let (same_ip, number, small) = (check_port_iff ip (lib.atoi port) dest).0 checked in
          (host, port, good, good_ip ∙ ap some (sym same_ip), number, small)
    ]
  ]

-- A text is accepted as a destination if and only if it splits into a host that denotes an address
-- and a port that denotes a number from 0 to 65535, and then it is that address and port.
pub parse_dest_iff :
    (lib : Parsing) (raw : Text) (dest : UdpAddr)
    → (parse_dest lib raw ≡ some dest) ↔ (
        (host port : Text) × (lib.split_host_port raw ≡ some (host, port))
        × (lib.parse_ip host ≡ some dest.ip)
        × (lib.atoi port ≡ some (natural dest.port))
        × (dest.port ≤ 65535))
parse_dest_iff lib raw dest = (
  parse_dest_inv lib raw dest,
  λ (host, port, good, good_ip, number, small).
      parse_dest_parts lib raw host port dest.ip good good_ip
      ∙ (check_port_iff dest.ip (lib.atoi port) dest).1 (refl, number, small),
)
