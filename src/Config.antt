-- ===== src/Config.antt =====
-- internal/config/config.go. The file system, the decoding of JSON and the environment answer from
-- outside; a variable that is not set reads as the empty string, as os.Getenv has it.
use rtp_stream_cleaner.Prelude.{
  ℕ, Bool, true, false, ◌||◌, Option, none, some, List, [], ◌∷◌, if◌then◌else◌, Result, ok, err,
}
use rtp_stream_cleaner.Net.{bytes_equal}
use rtp_stream_cleaner.Strings.{is_empty, atoi}

-- The keys of the environment.
pub data Key : Type 0 where
  api_listen_addr_key : Key
  service_password_key : Key
  public_ip_key : Key
  internal_ip_key : Key
  rtp_port_min_key : Key
  rtp_port_max_key : Key
  peer_learning_window_sec_key : Key
  max_frame_wait_ms_key : Key
  idle_timeout_sec_key : Key
  video_inject_cached_sps_pps_key : Key
  stats_log_interval_sec_key : Key
  packet_log_key : Key
  packet_log_sample_n_key : Key
  packet_log_on_anomaly_key : Key
  log_level_key : Key
  log_format_key : Key

abbrev pub Environ : Type 0
Environ = Key → List ℕ

pub record Config : Type 0 where
  pub api_listen_addr : List ℕ
  pub service_password : List ℕ
  pub public_ip : List ℕ
  pub internal_ip : List ℕ
  pub rtp_port_min : ℕ
  pub rtp_port_max : ℕ
  pub peer_learning_window_sec : ℕ
  pub max_frame_wait_ms : ℕ
  pub idle_timeout_sec : ℕ
  pub video_inject_cached_sps_pps : Bool
  pub stats_log_interval_sec : ℕ
  pub packet_log : Bool
  pub packet_log_sample_n : ℕ
  pub packet_log_on_anomaly : Bool
  pub log_level : List ℕ
  pub log_format : List ℕ

abbrev pub or_else {ℓ} : {A : Type ℓ} → A → Option A → A
or_else fallback none = fallback
or_else fallback (some a) = a

abbrev pub get_env : Environ → Key → List ℕ → List ℕ
get_env env key fallback = if is_empty (env key) then fallback else env key

abbrev pub get_env_int : Environ → Key → ℕ → ℕ
get_env_int env key fallback =
    if is_empty (env key) then fallback else or_else fallback (atoi (env key))

abbrev pub one_of : List ℕ → List (List ℕ) → Bool
one_of text [] = false
one_of text (word ∷ words) = bytes_equal text word || one_of text words

-- "1", "t", "T", "TRUE", "true", "True"
abbrev pub true_words : List (List ℕ)
true_words =
    (0x31 ∷ [])
    ∷ (0x74 ∷ [])
    ∷ (0x54 ∷ [])
    ∷ (0x54 ∷ 0x52 ∷ 0x55 ∷ 0x45 ∷ [])
    ∷ (0x74 ∷ 0x72 ∷ 0x75 ∷ 0x65 ∷ [])
    ∷ (0x54 ∷ 0x72 ∷ 0x75 ∷ 0x65 ∷ [])
    ∷ []

-- "0", "f", "F", "FALSE", "false", "False"
abbrev pub false_words : List (List ℕ)
false_words =
    (0x30 ∷ [])
    ∷ (0x66 ∷ [])
    ∷ (0x46 ∷ [])
    ∷ (0x46 ∷ 0x41 ∷ 0x4c ∷ 0x53 ∷ 0x45 ∷ [])
    ∷ (0x66 ∷ 0x61 ∷ 0x6c ∷ 0x73 ∷ 0x65 ∷ [])
    ∷ (0x46 ∷ 0x61 ∷ 0x6c ∷ 0x73 ∷ 0x65 ∷ [])
    ∷ []

-- strconv.ParseBool
abbrev pub parse_bool : List ℕ → Option Bool
parse_bool text =
    if one_of text true_words
    then some true
    else if one_of text false_words
    then some false
    else none

abbrev pub get_env_bool : Environ → Key → Bool → Bool
get_env_bool env key fallback =
    if is_empty (env key) then fallback else or_else fallback (parse_bool (env key))

-- "0.0.0.0:8080", "info", "json"
abbrev pub default_addr : List ℕ
default_addr =
    0x30 ∷ 0x2e ∷ 0x30 ∷ 0x2e ∷ 0x30 ∷ 0x2e ∷ 0x30 ∷ 0x3a ∷ 0x38 ∷ 0x30 ∷ 0x38 ∷ 0x30 ∷ []

abbrev pub info_text : List ℕ
info_text = 0x69 ∷ 0x6e ∷ 0x66 ∷ 0x6f ∷ []

abbrev pub json_text : List ℕ
json_text = 0x6a ∷ 0x73 ∷ 0x6f ∷ 0x6e ∷ []

unfoldable pub load_from_env : Environ → Config
load_from_env env =
    let packet_log : Bool = get_env_bool env packet_log_key false in
    record {
      api_listen_addr = get_env env api_listen_addr_key default_addr;
      service_password = env service_password_key;
      public_ip = env public_ip_key;
      internal_ip = env internal_ip_key;
      rtp_port_min = get_env_int env rtp_port_min_key 30000;
      rtp_port_max = get_env_int env rtp_port_max_key 40000;
      peer_learning_window_sec = get_env_int env peer_learning_window_sec_key 10;
      max_frame_wait_ms = get_env_int env max_frame_wait_ms_key 120;
      idle_timeout_sec = get_env_int env idle_timeout_sec_key 60;
      video_inject_cached_sps_pps = get_env_bool env video_inject_cached_sps_pps_key false;
      stats_log_interval_sec = get_env_int env stats_log_interval_sec_key 5;
      packet_log = packet_log;
      packet_log_sample_n = get_env_int env packet_log_sample_n_key 0;
      packet_log_on_anomaly = get_env_bool env packet_log_on_anomaly_key packet_log;
      log_level = get_env env log_level_key info_text;
      log_format = get_env env log_format_key json_text;
    }

pub data Stat : Type 0 where
  exists : Stat
  not_exist : Stat
  stat_failed : Stat

pub data LoadError : Type 0 where
  resolve_executable : LoadError
  stat_config_file : LoadError
  read_config_file : LoadError
  parse_config_file : LoadError

-- The bytes of the file if it can be read, decoded into the fields of an empty Config.
abbrev pub load_from_file : (List ℕ → Option Config) → Option (List ℕ) → Result LoadError Config
load_from_file unmarshal none = err read_config_file
load_from_file unmarshal (some content) = elim (unmarshal content) [
  | none ↦ err parse_config_file
  | some cfg ↦ ok cfg
]

abbrev pub after_stat :
    (List ℕ → Option Config) → Option (List ℕ) → Environ → Stat → Result LoadError Config
after_stat unmarshal file env exists = load_from_file unmarshal file
after_stat unmarshal file env not_exist = ok (load_from_env env)
after_stat unmarshal file env stat_failed = err stat_config_file

unfoldable pub load :
    (List ℕ → Option Config) → Bool → Stat → Option (List ℕ) → Environ → Result LoadError Config
load unmarshal resolved stat file env =
    if resolved then after_stat unmarshal file env stat else err resolve_executable
