-- ===== src/Reservation/Transport/Frame.antt =====
-- What the handlers of the reservation service leave on an error, and whom they ask for a token.
use booking_venue.Base.{
  ℕ, ◌≤◌, ◌≡◌, ◌⊎◌, refl, inl, inr, Option, some, [], ◌∷◌, ◌++◌, Result, ok, err, arith, true,
  Result-cases, Option-cases, ap, sym, ◌∙◌,
}
use booking_venue.Clock.HourMinute.{Text}
use booking_venue.Float64.{Float64}
use booking_venue.Reservation.Model.{
  Claims, ReservationDetails, ReservationCreate, ReservationUpdate, publish_failed,
}
use booking_venue.Reservation.Repo.{Store}
use booking_venue.Reservation.Create.{CreateEnv, create_reservation}
use booking_venue.Reservation.Create.Effects.{create_reservation-Ends}
use booking_venue.Reservation.Cancel.{CancelEnv, reservation_cancel}
use booking_venue.Reservation.Update.{UpdateEnv, reservation_update}
use booking_venue.Strings.{bytes}
use booking_venue.Reservation.Middleware.Passing.{auth_middleware-ok}
use booking_venue.Reservation.Middleware.{Jwt, Refusal, auth_middleware}
use booking_venue.Reservation.Transport.{
  refused, failed_with, unauthorized, invalid_claims, Response, Context, no_context, value_of,
  failure, written, Env, Request, create_request, cancel_request, update_request, get_request,
  user_request, venue_request, availability_request, handle_create, handle_cancel, handle_update,
  handle, guarded, serve,
}

module _ (float : Float64) where
  open float use {F}

  -- An error response and the bookings that the request has left; or the one error that comes after
  -- the booking is stored, when its event cannot be published.
  abbrev pub KeepsOnError : Store F → Response F × Store F → Type 0
  KeepsOnError st out =
      400 ≤ out.0.code
      → (out.1.details ≡ st.details)
        ⊎ ((d : ReservationDetails F) × (out.0 ≡ failure 500 (failed_with (publish_failed d.id)))
            × (out.1.details ≡ st.details ++ d ∷ []))

  create-keeps :
      (env : CreateEnv F) (req : ReservationCreate) (claims : Claims) (seen st : Store F)
      → KeepsOnError st (written 201 (create_reservation float env req claims seen st))
  create-keeps env req claims seen st =
      elim (create_reservation-Ends float env req claims seen st) [
        | inl (d, _, done) ↦ rw done (λ code. ground arith)
        | inr (inl (d, _, unpublished)) ↦ rw unpublished (λ code. inr (d, refl, refl))
        | inr (inr (e, failed)) ↦ rw failed (λ code. inl refl)
      ]

  post-keeps :
      (env : CreateEnv F) (context : Context) (b : Option ReservationCreate) (seen st : Store F)
      → KeepsOnError st (handle_create float env context b seen st)
  unfolding handle_create
  post-keeps env context b seen st =
      elim (Result-cases (value_of unauthorized invalid_claims context.claims)) [
        | inl (e, bad) ↦ rw (bad, handle_create) (λ code. inl refl)
        | inr (claims, known) ↦ elim (Option-cases b) [
          | inl bad ↦ rw (known, bad, handle_create) (λ code. inl refl)
          | inr (req, given) ↦
              rw (known, given, handle_create) (create-keeps env req claims seen st)
        ]
      ]

  cancel-keeps :
      (env : CancelEnv) (id : Text) (b : Option Text) (seen st : Store F)
      → KeepsOnError st (handle_cancel float env id b seen st)
  unfolding handle_cancel reservation_cancel
  cancel-keeps env id b seen st = ground arith

  update-keeps :
      (env : UpdateEnv F) (id : Text) (b : Option (ReservationUpdate F)) (seen st : Store F)
      → KeepsOnError st (handle_update float env id b seen st)
  unfolding handle_update reservation_update
  update-keeps env id b seen st = ground arith

  handle-keeps :
      (env : Env F) (context : Context) (req : Request F) (seen st : Store F)
      → KeepsOnError st (handle float env context req seen st)
  unfolding handle
  handle-keeps env context (create_request b) seen st = post-keeps env.create context b seen st
  handle-keeps env context (cancel_request id b) seen st = cancel-keeps env.cancel id b seen st
  handle-keeps env context (update_request id b) seen st = update-keeps env.update id b seen st
  handle-keeps env context (get_request id) seen st = λ code. inl refl
  handle-keeps env context user_request seen st = λ code. inl refl
  handle-keeps env context (venue_request id) seen st = λ code. inl refl
  handle-keeps env context (availability_request id date) seen st = λ code. inl refl

  guarded-keeps :
      (r : Result Refusal Claims) (rest : Context → Response F × Store F) (st : Store F)
      → ((context : Context) → KeepsOnError st (rest context))
      → KeepsOnError st (guarded float r rest st)
  guarded-keeps (err e) rest st h = λ code. inl refl
  guarded-keeps (ok claims) rest st h = h _

  -- A response with an error status leaves the bookings as they were, on all seven routes, with one
  -- exception: where a new booking is stored and its event cannot be published, the response is 500
  -- with that error, and the bookings are those before with the new one at the end.
  pub serve-keeps_bookings_on_error :
      (jwt : Jwt) (secret : Text) (now : ℕ) (env : Env F) (header : Text) (req : Request F)
      (seen st : Store F)
      → KeepsOnError st (serve float jwt secret now env header req seen st)
  unfolding serve
  serve-keeps_bookings_on_error jwt secret now env header req seen st = split req
    where
      pass :
          (r : Request F)
          → KeepsOnError st (
              guarded float
                (auth_middleware jwt secret now header)
                (λ context. handle float env context r seen st)
                st)
      pass r = guarded-keeps _ _ st (λ context. handle-keeps env context r seen st)

      split : (r : Request F) → KeepsOnError st (serve float jwt secret now env header r seen st)
      split (create_request b) = pass (create_request b)
      split (cancel_request id b) = pass (cancel_request id b)
      split (update_request id b) = pass (update_request id b)
      split (get_request id) = handle-keeps env no_context (get_request id) seen st
      split user_request = pass user_request
      split (venue_request id) = pass (venue_request id)
      split (availability_request id date) =
          handle-keeps env no_context (availability_request id date) seen st

  -- The routes that take a token.
  pub data IsGuarded : Request F → Type 0 where
    creates : (b : Option ReservationCreate) → IsGuarded (create_request b)
    cancels : (id : Text) (b : Option Text) → IsGuarded (cancel_request id b)
    updates : (id : Text) (b : Option (ReservationUpdate F)) → IsGuarded (update_request id b)
    lists : IsGuarded user_request
    lists_venue : (id : Text) → IsGuarded (venue_request id)

  serve-guarded :
      (jwt : Jwt) (secret : Text) (now : ℕ) (env : Env F) (header : Text) (req : Request F)
      (seen st : Store F)
      → IsGuarded req
      → serve float jwt secret now env header req seen st
        ≡ guarded float
            (auth_middleware jwt secret now header)
            (λ context. handle float env context req seen st)
            st
  unfolding serve
  serve-guarded jwt secret now env header req seen st (creates b) = refl
  serve-guarded jwt secret now env header req seen st (cancels id b) = refl
  serve-guarded jwt secret now env header req seen st (updates id b) = refl
  serve-guarded jwt secret now env header req seen st lists = refl
  serve-guarded jwt secret now env header req seen st (lists_venue id) = refl

  -- The requests that change a booking by its id.
  pub data IsChange : Request F → Type 0 where
    cancelling : (id : Text) (b : Option Text) → IsChange (cancel_request id b)
    updating : (id : Text) (b : Option (ReservationUpdate F)) → IsChange (update_request id b)

  change-IsGuarded : (req : Request F) → IsChange req → IsGuarded req
  change-IsGuarded req (cancelling id b) = cancels id b
  change-IsGuarded req (updating id b) = updates id b

  change-context :
      (env : Env F) (req : Request F) (seen st : Store F) (c c' : Context)
      → IsChange req
      → handle float env c req seen st ≡ handle float env c' req seen st
  unfolding handle
  change-context env req seen st c c' (cancelling id b) = refl
  change-context env req seen st c c' (updating id b) = refl

  -- To cancel or to update a booking it does not matter whose the token is: any two headers with valid
  -- tokens, of any users and roles, get one response and leave one store.
  pub serve-anyone :
      (jwt : Jwt) (secret : Text) (now : ℕ) (env : Env F) (header header' : Text) (req : Request F)
      (seen st : Store F) (claims claims' : Claims)
      → IsChange req
      → auth_middleware jwt secret now header ≡ ok claims
      → auth_middleware jwt secret now header' ≡ ok claims'
      → serve float jwt secret now env header req seen st
        ≡ serve float jwt secret now env header' req seen st
  serve-anyone jwt secret now env header header' req seen st claims claims' change known known' =
      let guard = change-IsGuarded req change in
      let one = serve-guarded jwt secret now env header req seen st guard in
      let other = serve-guarded jwt secret now env header' req seen st guard in
      let run : Result Refusal Claims → Response F × Store F =
        λ r. guarded float r (λ context. handle float env context req seen st) st in
      one
      ∙ ap run known
      ∙ change-context env req seen st _ _ change
      ∙ sym (ap run known')
      ∙ sym other

  -- Without a valid token the five routes that take one are answered with 401 and change nothing, and a
  -- response with another status has a valid token in its header.
  pub serve-authenticated :
      (jwt : Jwt) (secret : Text) (now : ℕ) (env : Env F) (header : Text) (req : Request F)
      (seen st : Store F)
      → IsGuarded req
      → ((e : Refusal) × (serve float jwt secret now env header req seen st
            ≡ (failure 401 (refused e), st)))
        ⊎ ((token : Text) × (claims : Claims) × (header ≡ bytes "Bearer" ++ b' ' ∷ token)
            × (jwt.parse secret now token ≡ some (claims, true)))
  serve-authenticated jwt secret now env header req seen st guard =
      elim (Result-cases (auth_middleware jwt secret now header)) [
        | inl (e, bad) ↦
            let run : Result Refusal Claims → Response F × Store F =
              λ r. guarded float r (λ context. handle float env context req seen st) st in
            inl (e, serve-guarded jwt secret now env header req seen st guard ∙ ap run bad)
        | inr (claims, good) ↦
            let (token, carried, accepted) = auth_middleware-ok jwt secret now header claims good in
            inr (token, claims, carried, accepted)
      ]
