-- ===== src/Tests/Api.antt =====
-- The HTTP handlers over an idle manager.
use rtp_stream_cleaner.Prelude.{
  ℕ, ◌≡◌, ◌↔◌, ◌≤◌, refl, true, Option, none, some, List, [], ◌∷◌, if◌then◌else◌, arith,
}
use rtp_stream_cleaner.Net.{bytes_equal}
use rtp_stream_cleaner.Ports.{ports_from, allocate}
use rtp_stream_cleaner.Session.{Text, apply_rtp_dest, audio_state, video_state}
use rtp_stream_cleaner.Manager.{
  Manager, get, choose_id, open_sockets, insert_session, create_with_dest,
}
use rtp_stream_cleaner.Manager.Run.{IsReachable, start, new_manager, new_manager-IsValid}
use rtp_stream_cleaner.Api.{
  Handler, Parsing, natural, CreateBody, Environment, create_session, get_session, rejected,
  unauthorized, audio_dest_invalid, session_created, new_handler, parse_dest, new_create_response,
  handle_session_create, route, serve,
}
use rtp_stream_cleaner.Api.Atomic.{is_success, serve-IsReachable, parse_dest_iff}

abbrev handler : Handler
handler = new_handler (1 ∷ []) [] (42 ∷ [])

-- A text h:p is the two numbers h and p; the host h is the address 10.0.0.h.
abbrev halves : Text → Option (Text × Text)
halves (host ∷ port ∷ []) = some (host ∷ [], port ∷ [])
halves text = none

abbrev address : Text → Option (List ℕ)
address (host ∷ []) = some (10 ∷ 0 ∷ 0 ∷ host ∷ [])
address text = none

abbrev parsing : Parsing
parsing = record {
  split_host_port = halves;
  parse_ip = address;
  atoi = λ text. elim text [ [] ↦ none | n ∷ rest ↦ some (natural n) ];
}

abbrev environment : Environment
environment = record {
  listens = λ port. true;
  ids = (7 ∷ []) ∷ [];
  created_at = 100;
  active_at = 100;
}

abbrev idle : Manager
idle = new_manager 30000 30005 60

abbrev body : Text → CreateBody
body dest = record {
  call_id = 1 ∷ [];
  from_tag = 2 ∷ [];
  to_tag = 3 ∷ [];
  audio_dest = some dest;
  video_dest = none;
}

no_token :
    serve handler parsing environment idle [] (get_session (7 ∷ []))
    ≡ (idle, rejected 401 unauthorized)
unfolding serve
no_token = refl

bad_dest :
    serve handler parsing environment idle (42 ∷ []) (create_session (some (body [])))
    ≡ (idle, rejected 400 audio_dest_invalid)
unfolding serve route handle_session_create parse_dest bytes_equal
bad_dest = refl

created :
    (serve handler parsing environment idle
      (42 ∷ [])
      (create_session (some (body (5 ∷ 40100 ∷ []))))).1
    ≡ session_created (record {
      id = 7 ∷ [];
      public_ip = 1 ∷ [];
      internal_ip = 1 ∷ [];
      audio_a_port = 30000;
      audio_b_port = 30001;
      video_a_port = 30002;
      video_b_port = 30003;
    })
unfolding serve route handle_session_create parse_dest bytes_equal create_with_dest insert_session
    allocate ports_from open_sockets choose_id get new_create_response apply_rtp_dest audio_state
    video_state
created = refl

serve-IsReachable_example :
    let answer =
      serve handler parsing environment idle (42 ∷ []) (create_session (some (body []))) in
    IsReachable idle answer.0 × ((if is_success answer.1 then idle else answer.0) ≡ idle)
unfolding get
serve-IsReachable_example =
    serve-IsReachable handler parsing environment idle idle (42 ∷ [])
      (create_session (some (body []))) (new_manager-IsValid 30000 30005 60 (omega arith)) start
      refl

parse_dest_iff_example :
    (parse_dest parsing (5 ∷ 40100 ∷ []) ≡ some (record { ip = 10 ∷ 0 ∷ 0 ∷ 5 ∷ []; port = 40100 }))
    ↔ ((host port : Text) × (parsing.split_host_port (5 ∷ 40100 ∷ []) ≡ some (host, port))
        × (parsing.parse_ip host ≡ some (10 ∷ 0 ∷ 0 ∷ 5 ∷ []))
        × (parsing.atoi port ≡ some (natural 40100))
        × (40100 ≤ 65535))
parse_dest_iff_example =
    parse_dest_iff parsing (5 ∷ 40100 ∷ []) (record { ip = 10 ∷ 0 ∷ 0 ∷ 5 ∷ []; port = 40100 })

port_zero : parse_dest parsing (5 ∷ 0 ∷ []) ≡ some (record { ip = 10 ∷ 0 ∷ 0 ∷ 5 ∷ []; port = 0 })
unfolding parse_dest
port_zero = refl
