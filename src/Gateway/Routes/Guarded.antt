-- ===== src/Gateway/Routes/Guarded.antt =====
-- The requests that are not public, and the tokens that they need.
use booking_venue.Base.{
  ℕ, ◌≡◌, ◌⊎◌, refl, sym, ap, ◌∙◌, Bool, true, false, Option, some, ◌∷◌, ◌++◌, ok, Result-cases,
  inl, inr,
}
use booking_venue.Clock.HourMinute.{Text}
use booking_venue.Strings.{bytes}
use booking_venue.User.Model
use booking_venue.User.Model.{User}
use booking_venue.User.Auth.{Crypto, AuthEnv, token_claims, generate_token}
use booking_venue.Gateway.Auth.{number, Request, Payload, Tokens, Refusal, decode_id, auth_unless}
use booking_venue.Gateway.Auth.Passing.{IsAuthenticated, auth_unless-IsAuthenticated}
use booking_venue.Gateway.Summary.{Client}
use booking_venue.Gateway.Routes.{
  Route, is_public_request, target_of, unauthorized, dispatch, serve,
}

-- A request that is not public is answered with 401, or it carries a token that is valid for the
-- secret, and is handled with the user and the role of that token in its headers.
pub serve-guarded :
    (tokens : Tokens) (secret : Text) (now : ℕ) (client : Client) (route : Route) (req : Request)
    → is_public_request req ≡ false
    → ((e : Refusal) × (serve tokens secret now client route req ≡ unauthorized e))
      ⊎ ((req' : Request) × IsAuthenticated tokens secret now req req'
          × (serve tokens secret now client route req
              ≡ dispatch client (target_of route req') req'))
unfolding serve
serve-guarded tokens secret now client route req private =
    elim (Result-cases (auth_unless tokens secret now false req)) [
      | inl (e, bad) ↦ inl (e, rw (private, bad, serve) refl)
      | inr (req', good) ↦ inr (
        req',
        auth_unless-IsAuthenticated tokens secret now req req' good,
        rw (private, good, serve) refl,
      )
    ]

-- The user service signs the JSON of its claims, in which the user's id is a number.
abbrev pub CarriesNumber : Crypto → Tokens → Type 0
CarriesNumber crypto tokens =
    (secret : Text) (claims : Model.Claims) (token : Text) (key : Text → Option Text) (now : ℕ)
    (payload : Payload) (valid : Bool)
    → crypto.sign secret claims ≡ ok token
    → tokens.parse key now token ≡ some (payload, valid)
    → payload.user_id ≡ number claims.user_id

-- A token that the user service has issued, on registration or login, does not pass the gateway: its
-- bearer is answered with 401 on every request that is not public.
pub generate_token-refused :
    (tokens : Tokens) (secret : Text) (now : ℕ) (client : Client) (route : Route) (req : Request)
    (env : AuthEnv) (u : User) (token : Text)
    → CarriesNumber env.crypto tokens
    → generate_token env u ≡ ok token
    → req.authorization ≡ bytes "Bearer" ++ b' ' ∷ token
    → is_public_request req ≡ false
    → (e : Refusal) × (serve tokens secret now client route req ≡ unauthorized e)
unfolding generate_token IsAuthenticated
generate_token-refused tokens secret now client route req env u token carries issued header
      private =
    elim (serve-guarded tokens secret now client route req private) [
      | inl refused ↦ refused
      | inr (req', (token', payload, id, header', parsed, decoded, _), _) ↦
          let same : token' ≡ token = tail (sym header' ∙ header) in
          let id_is =
            carries env.jwt_secret (token_claims env.now u) token _ now payload true issued
              (ap (tokens.parse _ now) (sym same) ∙ parsed) in
          absurd (cc (ap (decode_id tokens) (sym id_is) ∙ decoded))
    ]
  where
    tail : {s t : Text} → (bytes "Bearer" ++ b' ' ∷ s) ≡ (bytes "Bearer" ++ b' ' ∷ t) → s ≡ t
    tail p = cc p
