-- ===== src/Gateway/Auth/Passing.antt =====
-- Which requests pass the middleware AuthUnless.
use booking_venue.Base.{
  ℕ, ◌≡◌, refl, sym, ap, ◌∙◌, Bool, true, false, Option, none, some, List, [], ◌∷◌, ◌++◌, Result,
  ok, Bool-cases, Option-cases, >>=-eq-ok, inl, inr,
}
use booking_venue.Clock.HourMinute.{Text}
use booking_venue.Strings.{bytes, same_text, is_empty_text, split}
use booking_venue.Strings.Laws.{join, join-split, same_text→eq}
use booking_venue.Gateway.Auth.{
  Request, Payload, Claims, Tokens, Refusal, key_for, decode_id, valid_claims, bearer, token_of,
  authenticate, auth_unless,
}

-- The header is `Bearer`, a space and a token.
pub bearer-ok :
    (parts : List Text) (token : Text)
    → bearer parts ≡ ok token
    → join b' ' parts ≡ bytes "Bearer" ++ b' ' ∷ token
unfolding bearer
bearer-ok [] token h = cc h
bearer-ok (scheme ∷ []) token h = cc h
bearer-ok (scheme ∷ t ∷ u ∷ parts) token h = cc h
bearer-ok (scheme ∷ t ∷ []) token h = elim (Bool-cases (same_text scheme (bytes "Bearer"))) [
  | inl same ↦
      let here : t ≡ token = cc (rw same at h) in
      let named = same_text→eq scheme (bytes "Bearer") same in rw (named, here) refl
  | inr other ↦ cc (rw other at h)
]

pub token_of-ok :
    (header token : Text) → token_of header ≡ ok token → header ≡ bytes "Bearer" ++ b' ' ∷ token
token_of-ok header token h = elim (Bool-cases (is_empty_text header)) [
  | inl empty ↦ cc (rw empty at h)
  | inr given ↦ sym (join-split b' ' header) ∙ bearer-ok (split b' ' header) token (rw given at h)
]

pub valid_claims-ok :
    (tokens : Tokens) (r : Option (Payload × Bool)) (claims : Claims)
    → valid_claims tokens r ≡ ok claims
    → (payload : Payload) × (r ≡ some (payload, true))
      × (decode_id tokens payload.user_id ≡ some claims.user_id)
      × (claims.role ≡ payload.role)
unfolding valid_claims
valid_claims-ok tokens none claims h = cc h
valid_claims-ok tokens (some (payload, valid)) claims h =
    elim (Option-cases (decode_id tokens payload.user_id)) [
      | inl none_given ↦ cc (rw (none_given, valid_claims) at h)
      | inr (id, given) ↦ elim (Bool-cases valid) [
        | inl good ↦
            let here : record { user_id = id; role = payload.role } ≡ claims =
              cc (rw (given, good, valid_claims) at h) in
            (
              payload,
              ap (λ v. some (payload, v)) good,
              given ∙ ap (λ (c : Claims). some c.user_id) here,
              sym (ap (λ (c : Claims). c.role) here),
            )
        | inr bad ↦ cc (rw (given, bad, valid_claims) at h)
      ]
    ]

-- The request carries a token that the parser accepts for HS256 and the secret, and leaves with the
-- user and the role of its payload in its headers, and unchanged but for these.
unfoldable pub IsAuthenticated : Tokens → Text → ℕ → Request → Request → Type 0
IsAuthenticated tokens secret now req req' =
    (token : Text) × (payload : Payload) × (id : Text) × (req.authorization
      ≡ bytes "Bearer" ++ b' ' ∷ token)
    × (tokens.parse (key_for secret) now token ≡ some (payload, true))
    × (decode_id tokens payload.user_id ≡ some id)
    × (req' ≡ record req { user_id = some id; user_role = some payload.role })

pub auth_unless-IsAuthenticated :
    (tokens : Tokens) (secret : Text) (now : ℕ) (req req' : Request)
    → auth_unless tokens secret now false req ≡ ok req'
    → IsAuthenticated tokens secret now req req'
unfolding auth_unless authenticate IsAuthenticated
auth_unless-IsAuthenticated tokens secret now req req' h =
    let (claims, known, out) = >>=-eq-ok (authenticate tokens secret now req.authorization) _ h in
    let (token, carried, parsed) = >>=-eq-ok (token_of req.authorization) _ known in
    let (payload, accepted, id, role) = valid_claims-ok tokens _ claims parsed in
    let passed : record req { user_id = some claims.user_id; user_role = some claims.role } ≡ req' =
      get out in
    (
      token,
      payload,
      claims.user_id,
      token_of-ok req.authorization token carried,
      accepted,
      id,
      sym passed ∙ ap (λ r. record req { user_id = some claims.user_id; user_role = some r }) role,
    )
  where
    left : Request → Result Refusal Request
    left r = ok r

    get : {r r' : Request} → left r ≡ left r' → r ≡ r'
    get p = cc p
