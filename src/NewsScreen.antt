-- ===== src/NewsScreen.antt =====
-- cmd/news-screen/main.go: the parts of `run` that decide: the configuration from the flags, who may
-- reach the gRPC server, and the order in which the service is shut down.

mod Access
mod Examples
use atlas.Base.{
  ℕ, ◌+◌, ◌*◌, ◌-◌, ◌%◌, Bool, true, false, ◌&&◌, ◌||◌, not, ltb, leb, leb_ℤ, ◌==◌, List, [], ◌∷◌,
  ◌++◌, length, Text, bytes, text_eq, ℤ, pos, trim_space, is_empty, Option, none, some,
  if◌then◌else◌,
}
use atlas.Errors.{
  Error, Result, ok, err, panic, message, wrapped, fail_if, with_prefix, ◌>>=◌, ◌>>◌,
}
use atlas.Config.{Config, default, validate}

-- os.Stat with the permissions of a file, os.ReadFile, two functions of package net, and what the
-- packages crypto/tls and crypto/x509 load.
pub record Machine : Type 0 where
  pub stat : Text → Result ℕ
  pub read_file : Text → Result Text
  pub split_host_port : Text → Result (Text × Text)
  pub loopback_ip : Text → Bool  -- net.ParseIP(host) is one, and loopback
  pub load_server_tls : (certificate key : Text) → Result (Unit {0})
  pub load_key_pair : (certificate key : Text) → Result (Unit {0})
  pub has_certificates : Text → Bool  -- CertPool.AppendCertsFromPEM

abbrev is_digit : ℕ → Bool
is_digit c = leb b'0' c && leb c b'9'

-- `parseClock`: with five bytes and the colon third, time.Parse reads two digits on either side, of an
-- hour and a minute. What it says of a time that is none is left open.
unfoldable pub parse_clock : Text → Result (ℤ × ℤ)
unfolding bytes
parse_clock (a ∷ b ∷ c ∷ d ∷ e ∷ []) =
    if not (c == b':')
    then err (message (bytes "must use HH:MM"))
    else (let hour = (a - b'0') * 10 + (b - b'0') in
        let minute = (d - b'0') * 10 + (e - b'0') in
        if is_digit a && is_digit b && is_digit d && is_digit e && ltb hour 24 && ltb minute 60
        then ok (pos hour, pos minute)
        else err (wrapped (bytes "must use HH:MM") (message (bytes "parsing time"))))
parse_clock value = err (message (bytes "must use HH:MM"))

-- The flags that become the configuration.
pub record Flags : Type 0 where
  pub timezone : Text
  pub active_start : Text
  pub active_stop : Text
  pub grpc : Text
  pub alert_duration : ℤ
  pub alert_queue_capacity : ℤ
  pub allow_alerts_outside_window : Bool
  pub operation_timeout : ℤ
  pub worker_stop_timeout : ℤ
  pub news_refresh : ℤ
  pub news_per_genre : ℤ
  pub genre_hold : ℤ
  pub story_hold : ℤ

unfoldable pub config_of : Flags → ℤ × ℤ → ℤ × ℤ → Config
unfolding default
config_of f start stop = record default {
  timezone = f.timezone;
  grpc_listen_address = f.grpc;
  alert_display_duration = f.alert_duration;
  alert_queue_capacity = f.alert_queue_capacity;
  allow_alerts_outside_active_window = f.allow_alerts_outside_window;
  operation_timeout = f.operation_timeout;
  worker_stop_timeout = f.worker_stop_timeout;
  news_refresh_interval = f.news_refresh;
  start_hour = start.0;
  start_minute = start.1;
  stop_hour = stop.0;
  stop_minute = stop.1;
}

-- The configuration, checked; `known` tells whether a time zone can be loaded.
unfoldable pub configure : (known : Text → Option Error) → Flags → Result Config
unfolding bytes parse_clock config_of validate
configure known f = do
  start ← with_prefix (bytes "active start") (parse_clock f.active_start)
  stop ← with_prefix (bytes "active stop") (parse_clock f.active_stop)
  with_prefix (bytes "configuration") (validate known (config_of f start stop))
  fail_if
      (leb_ℤ f.news_per_genre (pos 0) || leb_ℤ f.genre_hold (pos 0) || leb_ℤ f.story_hold (pos 0))
      (message (bytes "news-per-genre, genre-hold, and story-hold must be positive"))
  ok (config_of f start stop)

abbrev loopback_host : Machine → Result (Text × Text) → Bool
loopback_host k (ok (host, port)) = text_eq host (bytes "localhost") || k.loopback_ip host
loopback_host k (err e) = false
loopback_host k panic = false

-- `isLoopbackAddress`
unfoldable pub is_loopback_address : Machine → Text → Bool
unfolding bytes text_eq
is_loopback_address k address = loopback_host k (k.split_host_port address)

-- `0o077` are the lowest six bits.
unfoldable pub too_open : ℕ → Bool
too_open mode = not (mode % 64 == 0)

unfoldable pub read_trimmed : Machine → (path label : Text) → ℕ → Result Text
unfolding bytes trim_space too_open
read_trimmed k path label mode = do
  fail_if (too_open mode)
      (message (label ++ bytes " file permissions are too open; remove group/other access"))
  contents ← with_prefix (bytes "read " ++ label) (k.read_file path)
  ok (trim_space contents)

-- `readPrivateTextFile`
unfoldable pub read_private_text_file : Machine → (path label : Text) → Result Text
unfolding bytes read_trimmed
read_private_text_file k path label =
    with_prefix (bytes "stat " ++ label) (k.stat path) >>= read_trimmed k path label

pub record AccessFlags : Type 0 where
  pub token_file : Text
  pub tls_cert : Text
  pub tls_key : Text
  pub client_ca : Text

-- What the gRPC server is given: the token that a caller has to know, whether it speaks TLS, and
-- whether it asks callers for a certificate.
pub record ServerOptions : Type 0 where
  pub token : Option Text
  pub tls : Bool
  pub client_certificates : Bool

unfoldable pub long_enough : Text → Result (Option Text)
unfolding bytes
long_enough token = do
  fail_if (ltb (length token) 32)
      (message (bytes "gRPC bearer token must contain at least 32 characters"))
  ok (some token)

unfoldable pub load_token : Machine → Text → Result (Option Text)
unfolding bytes read_private_text_file long_enough
load_token k file =
    if is_empty file
    then ok none
    else (read_private_text_file k file (bytes "gRPC token") >>= long_enough)

unfoldable pub load_mutual : Machine → AccessFlags → Result (Unit {0})
unfolding bytes
load_mutual k f = do
  with_prefix (bytes "load gRPC TLS key pair") (k.load_key_pair f.tls_cert f.tls_key)
  authority ← with_prefix (bytes "read gRPC client CA") (k.read_file f.client_ca)
  fail_if (not (k.has_certificates authority))
      (message (bytes "gRPC client CA contains no certificates"))

-- The part under `if *grpcTLSCert != ""`
unfoldable pub load_tls : Machine → AccessFlags → Result (Unit {0})
unfolding bytes too_open load_mutual
load_tls k f = do
  mode ← with_prefix (bytes "stat gRPC TLS key") (k.stat f.tls_key)
  fail_if (too_open mode)
      (message (bytes "gRPC TLS key permissions are too open; remove group/other access"))
  if is_empty f.client_ca
      then with_prefix (bytes "load gRPC TLS credentials") (k.load_server_tls f.tls_cert f.tls_key)
      else load_mutual k f

unfoldable pub check_pairing : AccessFlags → Result (Unit {0})
unfolding bytes
check_pairing f = do
  fail_if
      (is_empty f.tls_cert && not (is_empty f.tls_key)
        || not (is_empty f.tls_cert) && is_empty f.tls_key)
      (message (bytes "both -grpc-tls-cert and -grpc-tls-key are required"))
  fail_if (not (is_empty f.client_ca) && is_empty f.tls_cert)
      (message (bytes "-grpc-client-ca requires -grpc-tls-cert and -grpc-tls-key"))

-- An address that others can reach wants TLS, and a token or certificates of the callers.
unfoldable pub check_exposure : Machine → AccessFlags → Text → Result (Unit {0})
unfolding bytes is_loopback_address
check_exposure k f address = if is_loopback_address k address then ok tt else (do
  fail_if (is_empty f.tls_cert) (message (bytes "non-loopback gRPC listener requires TLS"))
  fail_if (is_empty f.token_file && is_empty f.client_ca) (
      message (
        bytes
          "non-loopback gRPC listener requires -grpc-token-file or mutual TLS via -grpc-client-ca")))

unfoldable pub options_of : AccessFlags → Option Text → ServerOptions
options_of f token = record {
  token = token;
  tls = not (is_empty f.tls_cert);
  client_certificates = not (is_empty f.tls_cert) && not (is_empty f.client_ca);
}

unfoldable pub load_tls_given : Machine → AccessFlags → Result (Unit {0})
unfolding load_tls
load_tls_given k f = if is_empty f.tls_cert then ok tt else load_tls k f

-- The checks after the token, and the options
unfoldable pub with_token : Machine → AccessFlags → Text → Option Text → Result ServerOptions
unfolding check_pairing load_tls_given check_exposure options_of
with_token k f address token = do
  check_pairing f
  load_tls_given k f
  check_exposure k f address
  ok (options_of f token)

unfoldable pub server_options : Machine → AccessFlags → Text → Result ServerOptions
unfolding load_token with_token
server_options k f address = load_token k f.token_file >>= with_token k f address

-- The calls of the end of `run`. `forced` is the server's Stop after its graceful one took too long.
pub data Ending : Type 0 where
  not_serving stop_cron stop_grpc force_grpc stop_supervisor : Ending

abbrev pub ended : Option Error → Result (Unit {0})
ended none = ok tt
ended (some e) = err (wrapped (bytes "supervisor shutdown") e)

-- The end of `run`, by how it was brought about: the signal, or the server's end with or without an
-- error. On an error the deferred function stops the supervisor, whose answer is only logged.
unfoldable pub shut_down :
    (served : Option (Option Error))
    → (grpc_in_time : Bool) → (stopped : Option Error) → List Ending × Result (Unit {0})
unfolding bytes
shut_down (some (some e)) grpc_in_time stopped =
    (stop_supervisor ∷ [], err (wrapped (bytes "gRPC serve") e))
shut_down served grpc_in_time stopped = (
  not_serving
      ∷ stop_cron
      ∷ stop_grpc
      ∷ (if grpc_in_time then stop_supervisor ∷ [] else force_grpc ∷ stop_supervisor ∷ []),
  ended stopped,
)
