-- ===== src/GrpcServer/Auth.antt =====
-- internal/grpcserver/auth.go and interceptors.go: who may call, under which request ID.
pub mod Tokens
use atlas.GrpcServer.{Status, code_internal}
use atlas.Base.{
  ℤ, pos, ltb_ℤ, Option, none, some, ◌⊎◌, inl, inr, ℕ, ◌+◌, Bool, true, false, not, ◌&&◌, ◌||◌, ltb,
  leb, List, [], ◌∷◌, length, drop, Text, bytes, text_eq, trim_space, has_prefix, is_empty, ◌==◌,
  if◌then◌else◌,
}

-- `validBearerToken`; ConstantTimeCompare of texts of one length is 1 if they are equal.
unfoldable pub valid_bearer_token : (header token : Text) → Bool
unfolding bytes has_prefix trim_space text_eq
valid_bearer_token header token =
    if not (has_prefix header (bytes "Bearer "))
    then false
    else (let got = trim_space (drop 7 header) in length got == length token && text_eq got token)

-- `BearerAuthInterceptor`: whether the handler is called. `values` are the authorization headers.
unfoldable pub bearer_auth : (configured : Text) → List Text → Bool
unfolding trim_space valid_bearer_token
bearer_auth configured [] = false
bearer_auth configured (header ∷ []) =
    not (is_empty (trim_space configured)) && valid_bearer_token header (trim_space configured)
bearer_auth configured (header ∷ second ∷ more) = false

printable : Text → Bool
printable [] = true
printable (c ∷ s) = leb 0x21 c && leb c 0x7e && printable s

-- `sanitizeRequestID`
unfoldable pub sanitize_request_id : Text → Text
unfolding trim_space printable
sanitize_request_id value =
    let v = trim_space value in
    if is_empty v || ltb 128 (length v) then [] else if printable v then v else []

-- The request ID that `UnaryInterceptor` sets: the caller's first, if it is usable, else a new one.
unfoldable pub request_id : (fresh : Text) → List Text → Text
unfolding sanitize_request_id
request_id fresh [] = fresh
request_id fresh (v ∷ more) =
    if is_empty (sanitize_request_id v) then fresh else sanitize_request_id v

-- The timeout that `UnaryInterceptor` sets for a call: the default one, if the caller set no deadline.
unfoldable pub call_timeout : (has_deadline : Bool) → (default_timeout : ℤ) → Option ℤ
call_timeout has_deadline default_timeout =
    if not has_deadline && ltb_ℤ (pos 0) default_timeout then some default_timeout else none

-- How a handler ends.
pub data Outcome (A : Type 0) : Type 0 where
  answered : A → Outcome A
  failed : Status → Outcome A
  panicked : Outcome A

-- `UnaryInterceptor`: a panic is an internal error, and tells the caller nothing of its cause.
unfoldable pub recovered : {A : Type 0} → Outcome A → A ⊎ Status
unfolding bytes
recovered (answered a) = inl a
recovered (failed s) = inr s
recovered panicked = inr record { code = code_internal; message = bytes "internal server error" }
