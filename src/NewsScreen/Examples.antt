-- ===== src/NewsScreen/Examples.antt =====
-- The decisions of the service's start at concrete inputs.
use atlas.Base.{
  Text, [], ◌∷◌, bytes, pos, some, ◌≡◌, refl, true, false, trim_space, drop_spaces, text_eq,
}
use atlas.Errors.{ok}
use atlas.NewsScreen.{
  Machine, AccessFlags, ServerOptions, parse_clock, is_loopback_address, server_options, load_token,
  long_enough, read_private_text_file, read_trimmed, too_open, with_token, options_of,
  load_tls_given, load_tls, load_mutual, check_pairing, check_exposure,
}
use atlas.NewsScreen.Access.{Guarded, server_options-Guarded}

abbrev secret : Text
unfolding bytes
secret = bytes " 0123456789abcdef0123456789abcdef "

abbrev machine : Machine
unfolding secret
machine = record {
  stat = λ path. ok 384;
  read_file = λ path. ok secret;
  split_host_port = λ address. ok (address, []);
  loopback_ip = λ host. false;
  load_server_tls = λ c k. ok tt;
  load_key_pair = λ c k. ok tt;
  has_certificates = λ s. true;
}

abbrev flags : AccessFlags
flags = record { token_file = b't' ∷ []; tls_cert = b'c' ∷ []; tls_key = b'k' ∷ []; client_ca = [] }

abbrev options : ServerOptions
unfolding bytes
options = record {
  token = some (bytes "0123456789abcdef0123456789abcdef");
  tls = true;
  client_certificates = false;
}

options_loaded : server_options machine flags (b'h' ∷ []) ≡ ok options
unfolding server_options load_token long_enough read_private_text_file read_trimmed too_open
    with_token options_of load_tls_given load_tls load_mutual check_pairing check_exposure
    is_loopback_address text_eq trim_space drop_spaces bytes secret machine options
options_loaded = refl

server_options-Guarded_example : Guarded machine (b'h' ∷ []) options
server_options-Guarded_example =
    server_options-Guarded machine flags (b'h' ∷ []) options options_loaded

clock_read : parse_clock (bytes "07:45") ≡ ok (pos 7, pos 45)
unfolding parse_clock bytes
clock_read = refl
