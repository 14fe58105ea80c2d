-- ===== src/GrpcServer/Auth/Tokens.antt =====
-- Which headers internal/grpcserver/auth.go lets through.
use atlas.Base.{
  ◌≡◌, refl, true, false, List, [], ◌∷◌, ◌++◌, length, drop, Text, bytes, text_eq, text_eq_iff,
  trim_space, has_prefix, is_empty, arith,
}
use atlas.GrpcServer.Auth.{valid_bearer_token, bearer_auth}

has_prefix-drop : (s p : Text) → has_prefix s p ≡ true → s ≡ p ++ drop (length p) s
unfolding has_prefix
has_prefix-drop s [] h = refl
has_prefix-drop [] (p ∷ ps) h = absurd (ground (arith, h))
has_prefix-drop (c ∷ s) (p ∷ ps) h =
    let same : c ≡ p = ground (arith, h) in
    let rest : has_prefix s ps ≡ true = ground (arith, h) in
    let later = has_prefix-drop s ps rest in (λ i. same i ∷ later i)

token_of :
    (header token : Text)
    → valid_bearer_token header token ≡ true
    → (rest : Text) × (header ≡ bytes "Bearer " ++ rest) × (trim_space rest ≡ token)
unfolding valid_bearer_token bytes
token_of header token h =
    let front : has_prefix header (bytes "Bearer ") ≡ true = ground (arith, h) in
    let same : text_eq (trim_space (drop 7 header)) token ≡ true = ground (arith, h) in
    (drop 7 header, has_prefix-drop header (bytes "Bearer ") front, (text_eq_iff _ _).0 same)

-- A call is let through only under exactly one authorization header, which is the word Bearer, a
-- space and the configured token, up to spaces around the token, and never where the configured
-- token is blank.
pub bearer_auth-exact :
    (configured : Text) (values : List Text)
    → bearer_auth configured values ≡ true
    → (rest : Text) × (values ≡ (bytes "Bearer " ++ rest) ∷ [])
      × (trim_space rest ≡ trim_space configured)
      × (is_empty (trim_space configured) ≡ false)
unfolding bearer_auth
bearer_auth-exact configured [] h = absurd (ground (arith, h))
bearer_auth-exact configured (header ∷ []) h =
    let some_token : is_empty (trim_space configured) ≡ false = ground (arith, h) in
    let valid : valid_bearer_token header (trim_space configured) ≡ true = ground (arith, h) in
    let (rest, front, same) = token_of header (trim_space configured) valid in
    (rest, (λ i. front i ∷ []), same, some_token)
bearer_auth-exact configured (header ∷ second ∷ more) h = absurd (ground (arith, h))
