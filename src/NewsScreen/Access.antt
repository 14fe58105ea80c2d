-- ===== src/NewsScreen/Access.antt =====
-- cmd/news-screen/main.go: who can reach a gRPC server that `run` starts.
use atlas.Base.{
  ◌≤◌, Bool, Bool-cases, true, false, ◌&&◌, ltb, ◌++◌, length, Text, bytes, is_empty, trim_space,
  trim_space_twice, Option, none, some, ◌≡◌, refl, subst, ◌⊎◌, inl, inr, arith, if◌then◌else◌,
}
use atlas.Errors.{Result, ok, message, fail_if, with_prefix, ◌>>=◌, ◌>>◌}
use atlas.Errors.Chains.{bound, passed_last, ok_value}
use atlas.NewsScreen.{
  Machine, AccessFlags, ServerOptions, is_loopback_address, read_private_text_file, load_token,
  check_pairing, check_exposure, with_token, server_options, options_of, load_tls_given,
  long_enough, read_trimmed, with_prefix, too_open,
}

-- A token that is worth something: of at least 32 bytes and without white space around it.
abbrev pub Strong : Option Text → Type 0
Strong none = Unit
Strong (some t) = (32 ≤ length t) × (trim_space t ≡ t)

-- Callers prove who they are.
abbrev pub Authenticated : ServerOptions → Type 0
Authenticated s = ((t : Text) × (s.token ≡ some t)) ⊎ (s.client_certificates ≡ true)

pub record Guarded (k : Machine) (address : Text) (s : ServerOptions) : Type 0 where
  pub exposure : (is_loopback_address k address ≡ true) ⊎ ((s.tls ≡ true) × Authenticated s)
  pub strong : Strong s.token
  pub certified : (s.client_certificates ≡ false) ⊎ (s.tls ≡ true)

taken :
    {A : Type 0} (b : Bool) (x y : Result A) {a : A}
    → b ≡ true
    → (if b then x else y) ≡ ok a
    → x ≡ ok a
taken true x y e h = h
taken false x y e h = ground arith

not_taken :
    {A : Type 0} (b : Bool) (x y : Result A) {a : A}
    → b ≡ false
    → (if b then x else y) ≡ ok a
    → y ≡ ok a
not_taken true x y e h = ground arith
not_taken false x y e h = h

-- What a token that is loaded tells of the flag that names its file.
abbrev Loaded : Text → Option Text → Type 0
Loaded file none = is_empty file ≡ true
Loaded file (some t) = (32 ≤ length t) × (trim_space t ≡ t)

private_trimmed :
    (k : Machine) (path label t : Text)
    → read_private_text_file k path label ≡ ok t
    → trim_space t ≡ t
unfolding read_private_text_file read_trimmed bytes
private_trimmed k path label t h =
    let (mode, _, rest) =
      bound (with_prefix (bytes "stat " ++ label) (k.stat path)) (read_trimmed k path label) h in
    let read = with_prefix (bytes "read " ++ label) (k.read_file path) in
    let (_, _, rest2) =
      bound
        (fail_if (too_open mode)
          (message (label ++ bytes " file permissions are too open; remove group/other access")))
        (λ _. read >>= λ contents. ok (trim_space contents)) rest in
    let (contents, _, is) = bound read (λ contents. ok (trim_space contents)) rest2 in
    subst (λ x. trim_space x ≡ x) (ok_value is) (trim_space_twice contents)

long_enough-Strong :
    (k : Machine) (file t : Text) (o : Option Text)
    → trim_space t ≡ t
    → long_enough t ≡ ok o
    → Loaded file o
unfolding long_enough bytes
long_enough-Strong k file t o trimmed h =
    let (_, long, is) =
      bound
        (fail_if (ltb (length t) 32)
          (message (bytes "gRPC bearer token must contain at least 32 characters")))
        (λ _. ok (some t)) h in
    subst (Loaded file) (ok_value is)
      (ground (arith, passed_last (ltb (length t) 32) _ long), trimmed)

load_token-Loaded :
    (k : Machine) (file : Text) (o : Option Text) → load_token k file ≡ ok o → Loaded file o
unfolding load_token bytes
load_token-Loaded k file o h =
    let read = read_private_text_file k file (bytes "gRPC token") >>= long_enough in
    elim (Bool-cases (is_empty file)) [
      | inl blank ↦
          subst (Loaded file) (ok_value (taken (is_empty file) (ok none) read blank h)) blank
      | inr named ↦
          let (t, is_read, rest) =
            bound (read_private_text_file k file (bytes "gRPC token")) long_enough
              (not_taken (is_empty file) (ok none) read named h) in
          long_enough-Strong k file t o (private_trimmed k file (bytes "gRPC token") t is_read) rest
    ]

Loaded-Strong : (file : Text) (o : Option Text) → Loaded file o → Strong o
Loaded-Strong file none h = tt
Loaded-Strong file (some t) h = h

exposure_checked :
    (k : Machine) (f : AccessFlags) (address : Text) (u : Unit {0})
    → check_exposure k f address ≡ ok u
    → (is_loopback_address k address ≡ true)
      ⊎ ((is_empty f.tls_cert ≡ false) × (is_empty f.token_file && is_empty f.client_ca ≡ false))
unfolding check_exposure bytes
exposure_checked k f address u h = elim (Bool-cases (is_loopback_address k address)) [
  | inl here ↦ inl here
  | inr away ↦
      let plain = message (bytes "non-loopback gRPC listener requires TLS") in
      let open_to_all = message (
        bytes
          "non-loopback gRPC listener requires -grpc-token-file or mutual TLS via -grpc-client-ca") in
      let (v, tls, rest) =
        bound (fail_if (is_empty f.tls_cert) plain)
          (λ _. fail_if (is_empty f.token_file && is_empty f.client_ca) open_to_all)
          (not_taken (is_loopback_address k address) (ok tt)
            (fail_if (is_empty f.tls_cert) plain
              >> fail_if (is_empty f.token_file && is_empty f.client_ca) open_to_all)
            away h) in
      inr (
        passed_last (is_empty f.tls_cert) plain tls,
        passed_last (is_empty f.token_file && is_empty f.client_ca) open_to_all rest,
      )
]

authenticated :
    (f : AccessFlags) (o : Option Text)
    → Loaded f.token_file o
    → is_empty f.tls_cert ≡ false
    → is_empty f.token_file && is_empty f.client_ca ≡ false
    → Authenticated (options_of f o)
unfolding options_of
authenticated f none h tls some_way = inr (ground (arith, h))
authenticated f (some t) h tls some_way = inl (t, refl)

guarded :
    (k : Machine) (f : AccessFlags) (address : Text) (o : Option Text)
    → Loaded f.token_file o
    → (is_loopback_address k address ≡ true)
      ⊎ ((is_empty f.tls_cert ≡ false) × (is_empty f.token_file && is_empty f.client_ca ≡ false))
    → Guarded k address (options_of f o)
unfolding options_of
guarded k f address o h (inl here) = record {
  exposure = inl here;
  strong = Loaded-Strong f.token_file o h;
  certified = elim (Bool-cases (is_empty f.tls_cert)) [
    | inl plain ↦ inl (rw plain refl)
    | inr tls ↦ inr (rw tls refl)
  ];
}
guarded k f address o h (inr (tls, some_way)) = record {
  exposure = inr (rw tls refl, authenticated f o h tls some_way);
  strong = Loaded-Strong f.token_file o h;
  certified = inr (rw tls refl);
}

-- A server that `run` starts on an address that others can reach speaks TLS, and asks its callers for
-- the token or for a certificate. A token has at least 32 bytes and no white space around it, and
-- certificates are asked for only over TLS.
pub server_options-Guarded :
    (k : Machine) (f : AccessFlags) (address : Text) (s : ServerOptions)
    → server_options k f address ≡ ok s
    → Guarded k address s
unfolding server_options with_token
server_options-Guarded k f address s h =
    let (o, loaded, rest) = bound (load_token k f.token_file) (with_token k f address) h in
    let (_, _, rest2) =
      bound (check_pairing f)
        (λ _. load_tls_given k f >> (check_exposure k f address >> ok (options_of f o))) rest in
    let (_, _, rest3) =
      bound (load_tls_given k f) (λ _. check_exposure k f address >> ok (options_of f o)) rest2 in
    let (u, safe, is) = bound (check_exposure k f address) (λ _. ok (options_of f o)) rest3 in
    subst (Guarded k address) (ok_value is) (
      guarded k f address o (load_token-Loaded k f.token_file o loaded)
        (exposure_checked k f address u safe))
