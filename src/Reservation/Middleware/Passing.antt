-- ===== src/Reservation/Middleware/Passing.antt =====
-- Which headers pass the middleware of the reservation service.
use booking_venue.Base.{
  ℕ, ◌≡◌, refl, sym, ◌∙◌, Bool, true, false, Option, none, some, List, [], ◌∷◌, ◌++◌, ok,
  Bool-cases, >>=-eq-ok, inl, inr,
}
use booking_venue.Clock.HourMinute.{Text}
use booking_venue.Strings.{bytes, same_text, is_empty_text, split}
use booking_venue.Strings.Laws.{join, join-split, same_text→eq}
use booking_venue.Reservation.Model.{Claims}
use booking_venue.Reservation.Middleware.{Jwt, bearer, token_of, valid_claims, auth_middleware}

two_parts :
    (scheme rest token : Text)
    → bearer (scheme ∷ rest ∷ []) ≡ ok token
    → join b' ' (scheme ∷ rest ∷ []) ≡ bytes "Bearer" ++ b' ' ∷ token
unfolding bearer
two_parts scheme rest token h = elim (Bool-cases (same_text scheme (bytes "Bearer"))) [
  | inl same ↦
      let here : rest ≡ token = cc (rw same at h) in
      rw (same_text→eq scheme (bytes "Bearer") same, here) refl
  | inr other ↦ cc (rw other at h)
]

header_of_parts :
    (parts : List Text) (token : Text)
    → bearer parts ≡ ok token
    → join b' ' parts ≡ bytes "Bearer" ++ b' ' ∷ token
unfolding bearer
header_of_parts [] token h = cc h
header_of_parts (a ∷ []) token h = cc h
header_of_parts (a ∷ b ∷ []) token h = two_parts a b token h
header_of_parts (a ∷ b ∷ c ∷ rest) token h = cc h

-- The claims of a request that passes are those of a valid token, which its header carries after the
-- word Bearer and one space.
pub auth_middleware-ok :
    (jwt : Jwt) (secret : Text) (now : ℕ) (header : Text) (claims : Claims)
    → auth_middleware jwt secret now header ≡ ok claims
    → (token : Text) × (header ≡ bytes "Bearer" ++ b' ' ∷ token)
      × (jwt.parse secret now token ≡ some (claims, true))
unfolding auth_middleware
auth_middleware-ok jwt secret now header claims h =
    let (token, carried, accepted) = >>=-eq-ok (token_of header) _ h in
    (token, named token carried, parsed (jwt.parse secret now token) accepted)
  where
    named : (token : Text) → token_of header ≡ ok token → header ≡ bytes "Bearer" ++ b' ' ∷ token
    named token k = elim (Bool-cases (is_empty_text header)) [
      | inl empty ↦ cc (rw empty at k)
      | inr given ↦
          sym (join-split b' ' header) ∙ header_of_parts (split b' ' header) token (rw given at k)
    ]

    parsed : (r : Option (Claims × Bool)) → valid_claims r ≡ ok claims → r ≡ some (claims, true)
    parsed none k = cc k
    parsed (some (c, true)) k = cc k
    parsed (some (c, false)) k = cc k
