-- ===== src/Api.antt =====
-- The HTTP handlers (internal/api/handler.go) over the session manager. The decoding of the body,
-- net.SplitHostPort, net.ParseIP and strconv.Atoi are not the program's own code: the first is done
-- before a request reaches the model, the others are the record `Parsing`. The counters and the
-- strings of times and addresses in a response are left out, and so are the fields "enable", which
-- is logged only, and "fix", which goes to the video proxy.
pub mod Atomic
use rtp_stream_cleaner.Prelude.{
  ℕ, Bool, true, false, not, ◌&&◌, ◌||◌, Option, none, some, List, [], ◌∷◌, ltb, ◌==◌,
  if◌then◌else◌,
}
use rtp_stream_cleaner.Net.{UdpAddr, bytes_equal}
use rtp_stream_cleaner.Ports.{AllocatorError, no_ports_available}
use rtp_stream_cleaner.Session.{Text, Media, Activity, Session, audio_state, video_state}
use rtp_stream_cleaner.Manager.{
  Manager, CreateError, allocation, Outcome, made, failed, choosing, Request, get, create_with_dest,
  update_rtp_dest, delete,
}

pub record Handler : Type 0 where
  pub public_ip : Text
  pub internal_ip : Text
  pub service_password : Text

-- An int of Go, as strconv.Atoi gives it.
pub data PortNumber : Type 0 where
  negative : ℕ → PortNumber
  natural : ℕ → PortNumber

pub record Parsing : Type 0 where
  pub split_host_port : Text → Option (Text × Text)
  pub parse_ip : Text → Option (List ℕ)
  pub atoi : Text → Option PortNumber

pub record CreateBody : Type 0 where
  pub call_id : Text
  pub from_tag : Text
  pub to_tag : Text
  pub audio_dest : Option Text
  pub video_dest : Option Text

-- A missing medium and one without a destination are the same to the handler.
pub record UpdateBody : Type 0 where
  pub audio_dest : Option Text
  pub video_dest : Option Text

-- What a creation takes from outside besides its request.
pub record Environment : Type 0 where
  pub listens : ℕ → Bool
  pub ids : List Text
  pub created_at : ℕ
  pub active_at : ℕ

-- The requests of the routes that Register names; a body that is not JSON is `none`.
pub data ApiRequest : Type 0 where
  health : ApiRequest
  create_session : Option CreateBody → ApiRequest
  get_session : Text → ApiRequest
  update_session : Text → Option UpdateBody → ApiRequest
  delete_session : Text → ApiRequest

pub data ApiError : Type 0 where
  unauthorized : ApiError
  public_ip_required : ApiError
  invalid_json_body : ApiError
  tags_required : ApiError
  audio_dest_invalid : ApiError
  video_dest_invalid : ApiError
  create_error : CreateError → ApiError
  session_not_found : ApiError

pub record CreateResponse : Type 0 where
  pub id : Text
  pub public_ip : Text
  pub internal_ip : Text
  pub audio_a_port : ℕ
  pub audio_b_port : ℕ
  pub video_a_port : ℕ
  pub video_b_port : ℕ

pub record GetResponse : Type 0 where
  pub id : Text
  pub call_id : Text
  pub from_tag : Text
  pub to_tag : Text
  pub public_ip : Text
  pub internal_ip : Text
  pub audio : Media
  pub video : Media
  pub activity : Activity

-- `rejected` carries the status code; the others have status 200, but for `page_not_found` (404)
-- and `pending`, where the draw of an identifier has not ended.
pub data Response : Type 0 where
  rejected : ℕ → ApiError → Response
  page_not_found : Response
  pending : Response
  healthy : Response
  session_created : CreateResponse → Response
  session_found : GetResponse → Response
  session_deleted : Response

abbrev pub is_empty : Text → Bool
is_empty [] = true
is_empty (c ∷ text) = false

abbrev pub new_handler : Text → Text → Text → Handler
new_handler public_ip internal_ip password = record {
  public_ip = public_ip;
  internal_ip = if is_empty internal_ip then public_ip else internal_ip;
  service_password = password;
}

abbrev pub check_port : List ℕ → Option PortNumber → Option UdpAddr
check_port ip none = none
check_port ip (some (negative n)) = none
check_port ip (some (natural port)) =
    if ltb 65535 port then none else some (record { ip = ip; port = port })

unfoldable pub parse_dest : Parsing → Text → Option UdpAddr
parse_dest lib raw = elim (lib.split_host_port raw) [
  | none ↦ none
  | some parts ↦ elim (lib.parse_ip parts.0) [
    | none ↦ none
    | some ip ↦ check_port ip (lib.atoi parts.1)
  ]
]

abbrev pub keep_dest : Option UdpAddr → Option (Option UdpAddr)
keep_dest none = none
keep_dest (some dest) = some (some dest)

-- An optional destination; `none` is the error.
abbrev pub optional_dest : Parsing → Option Text → Option (Option UdpAddr)
optional_dest lib none = some none
optional_dest lib (some raw) = keep_dest (parse_dest lib raw)

abbrev pub status_of : CreateError → ℕ
status_of (allocation no_ports_available) = 503
status_of (allocation e) = 500
status_of e = 500

unfoldable pub new_create_response : Handler → Session → CreateResponse
new_create_response h s = record {
  id = s.id;
  public_ip = h.public_ip;
  internal_ip = h.internal_ip;
  audio_a_port = (audio_state s).a_port;
  audio_b_port = (audio_state s).b_port;
  video_a_port = (video_state s).a_port;
  video_b_port = (video_state s).b_port;
}

unfoldable pub new_get_response : Handler → Session → GetResponse
new_get_response h s = record {
  id = s.id;
  call_id = s.call_id;
  from_tag = s.from_tag;
  to_tag = s.to_tag;
  public_ip = h.public_ip;
  internal_ip = h.internal_ip;
  audio = audio_state s;
  video = video_state s;
  activity = s.activity;
}

abbrev pub respond_created : Handler → Outcome → Response
respond_created h (made s) = session_created (new_create_response h s)
respond_created h (failed e) = rejected (status_of e) (create_error e)
respond_created h choosing = pending

abbrev pub create_parsed :
    Handler
    → Environment
    → Manager
    → CreateBody
    → Option (Option UdpAddr)
    → Option (Option UdpAddr)
    → Manager × Response
create_parsed h env m body none video = (m, rejected 400 audio_dest_invalid)
create_parsed h env m body (some audio) none = (m, rejected 400 video_dest_invalid)
create_parsed h env m body (some audio) (some video) =
    let r : Request = record {
      call_id = body.call_id;
      from_tag = body.from_tag;
      to_tag = body.to_tag;
      audio_dest = audio;
      video_dest = video;
      listens = env.listens;
      ids = env.ids;
      created_at = env.created_at;
      active_at = env.active_at;
    } in
    let answer = create_with_dest m r in (answer.0, respond_created h answer.1)

unfoldable pub handle_session_create :
    Handler → Parsing → Environment → Manager → Option CreateBody → Manager × Response
handle_session_create h lib env m none =
    if is_empty h.public_ip
    then (m, rejected 400 public_ip_required)
    else (m, rejected 400 invalid_json_body)
handle_session_create h lib env m (some body) =
    if is_empty h.public_ip
    then (m, rejected 400 public_ip_required)
    else if is_empty body.call_id || is_empty body.from_tag || is_empty body.to_tag
    then (m, rejected 400 tags_required)
    else create_parsed h env m body (optional_dest lib body.audio_dest)
        (optional_dest lib body.video_dest)

abbrev pub respond_found : Handler → Option Session → Response
respond_found h none = rejected 404 session_not_found
respond_found h (some s) = session_found (new_get_response h s)

unfoldable pub handle_session_get : Handler → Manager → Text → Manager × Response
handle_session_get h m id = (m, respond_found h (get m.sessions id))

abbrev pub update_parsed :
    Handler
    → Manager
    → Text
    → Option (Option UdpAddr)
    → Option (Option UdpAddr)
    → Manager × Response
update_parsed h m id none video = (m, rejected 400 audio_dest_invalid)
update_parsed h m id (some audio) none = (m, rejected 400 video_dest_invalid)
update_parsed h m id (some audio) (some video) =
    let answer = update_rtp_dest m id audio video in (answer.0, respond_found h answer.1)

unfoldable pub handle_session_update :
    Handler → Parsing → Manager → Text → Option UpdateBody → Manager × Response
handle_session_update h lib m id none = (m, rejected 400 invalid_json_body)
handle_session_update h lib m id (some body) =
    update_parsed h m id (optional_dest lib body.audio_dest) (optional_dest lib body.video_dest)

unfoldable pub handle_session_delete : Manager → Text → Manager × Response
handle_session_delete m id =
    let answer = delete m id in
    (answer.0, if answer.1 then session_deleted else rejected 404 session_not_found)

abbrev pub by_id : Manager → Text → Manager × Response → Manager × Response
by_id m id answer = if is_empty id then (m, page_not_found) else answer

-- The handler behind the routes.
unfoldable pub route : Handler → Parsing → Environment → Manager → ApiRequest → Manager × Response
route h lib env m health = (m, healthy)
route h lib env m (create_session body) = handle_session_create h lib env m body
route h lib env m (get_session id) = by_id m id (handle_session_get h m id)
route h lib env m (update_session id body) = by_id m id (handle_session_update h lib m id body)
route h lib env m (delete_session id) = by_id m id (handle_session_delete m id)

-- withAccessTokenAuth, with the query's access_token.
unfoldable pub serve :
    Handler → Parsing → Environment → Manager → Text → ApiRequest → Manager × Response
serve h lib env m token request =
    if is_empty token || not (bytes_equal token h.service_password)
    then (m, rejected 401 unauthorized)
    else route h lib env m request
