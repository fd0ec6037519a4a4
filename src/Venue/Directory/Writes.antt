-- ===== src/Venue/Directory/Writes.antt =====
-- A create, an update and a delete, as steps of the directory.
use booking_venue.Base.{
  ℕ, ◌≡◌, refl, sym, ap, ◌∙◌, inl, inr, false, Option, some, [], ◌∷◌, ◌++◌, Result, ok, err,
  Result-cases, subst,
}
use booking_venue.Clock.{Time}
use booking_venue.Clock.HourMinute.{Text}
use booking_venue.Venue.Model.{Venue, VenueError}
use booking_venue.Venue.Dto.{VenueDto, to_venue_dto}
use booking_venue.Venue.Repo.{Store, has_id, find_venue, new_venue, week_columns}
use booking_venue.Venue.Repo.Rows.{first_venue-append_new, first_venue-append_ne}
use booking_venue.Venue.Service.{Db, get_venue, replace, create, update, delete}
use booking_venue.Venue.Service.Effects.{update-effect, delete-effect}
use booking_venue.Venue.Service.Creating.{stored, create_venue-ok}
use booking_venue.Venue.Transport.{
  venue_body, json, parse_id, create_input, update_input, created_reply, handle_create,
  handle_update, handle_delete, create_request, delete_request, update_request,
}
use booking_venue.Venue.Directory.{
  found, view, Same, deleting, updating, creating, putting, Step, malformed, missing, invalid,
  clashing, down, created, replaced, removed,
}
use booking_venue.Venue.Directory.Reads.{read-cases}
use booking_venue.Venue.Directory.Effects.{
  Same-view, has_id-append_ne, update_venue-fails, update_venue-taken, update-failed, update-read,
  delete-failed, delete-read, delete_venue-fails, delete_venue-taken, create-fails, reread-row,
  others-view, create-keeps_table,
}

module _ (db : Db) (now : Time) (st : Store) where
  still : Same (view st) (view st)
  still j = (refl, refl)

  -- A create that succeeds adds the one venue that it returns.
  create-step :
      (b : Option VenueDto) (v v' : Venue) (st' : Store)
      → create_input now b ≡ ok v
      → create db v st ≡ (ok v', st')
      → Step db now
          (view st)
          (view st')
          (create_request b)
          (json 201 (venue_body (to_venue_dto v')))
  unfolding create get_venue find_venue new_venue
  create-step b v v' st' pv h =
      let (valid, fresh, same, table) = create_venue-ok db.column db.write_fault v v' st st' h in
      let w = new_venue st.next_id v in
      let row = stored db.column w in
      let unused : has_id w.id st.venues ≡ false =
        subst (λ (x : Venue). has_id x.id st.venues ≡ false) same fresh in
      let after : st'.venues ≡ st.venues ++ row ∷ [] =
        table ∙ ap (λ (x : Venue). st.venues ++ stored db.column x ∷ []) same in
      subst
        (λ (x : Venue).
          Step db now (view st) (view st') (create_request b)
            (json 201 (venue_body (to_venue_dto x))))
        (sym same)
        (created st.next_id v pv valid unused
          (rw (after, first_venue-append_new st.venues row unused refl) refl)
          (λ j ne. (
            rw (after, first_venue-append_ne j st.venues row (λ e. ne (sym e))) refl,
            ap (has_id j) after ∙ has_id-append_ne j st.venues row ne,
          )))

  post-reply :
      (b : Option VenueDto) (v : Venue) (out : Result VenueError Venue × Store)
      → create_input now b ≡ ok v
      → create db v st ≡ out
      → Step db now (view st) (view (created_reply out).1) (create_request b) (created_reply out).0
  post-reply b v (ok v', st') pv h = create-step b v v' st' pv h
  post-reply b v (err e, st') pv h =
      let same = Same-view st st' (create-keeps_table db v st e st' h) in
      elim (create-fails db v st st' e h) [
        | inl bad ↦ invalid v (creating pv) bad (e, inr refl) same
        | inr (inl fault) ↦ down (inr fault) (e, inr refl) same
        | inr (inr clash) ↦ clashing st.next_id v pv clash (e, inr refl) same
      ]

  pub post-step :
      (b : Option VenueDto)
      → let out = handle_create db now b st in
        Step db now (view st) (view out.1) (create_request b) out.0
  unfolding handle_create
  post-step b = elim (Result-cases (create_input now b)) [
    | inl (e, bad) ↦ rw (bad, handle_create) (malformed e (rw bad refl) still)
    | inr (v, pv) ↦ rw (pv, handle_create) (post-reply b v (create db v st) pv refl)
  ]

  -- An update of a venue that was read, after the checks of its request.
  put-found :
      (id : Text) (b : Option VenueDto) (k : ℕ) (v old : Venue)
      → parse_id id ≡ ok k
      → update_input now b ≡ ok v
      → (view st).at k ≡ some old
      → get_venue db.read_fault k st ≡ ok old
      → let out = handle_update db now id b st in
        Step db now (view st) (view out.1) (update_request id b) out.0
  unfolding handle_update
  put-found id b k v old pk pv here read = elim (Result-cases (update db k v st)) [
    | inl (e, bad) ↦
        rw (pk, pv, bad, handle_update)
          (elim (update_venue-fails db.column db.write_fault (replace v old) st e
            (sym (update-read db k st v old read) ∙ bad)) [
              | inl fault ↦ down (inr fault) (e, inl refl) still
              | inr broken ↦
                  invalid (replace v old) (putting k old pk pv here) broken (e, inl refl) still
            ])
    | inr (st', done) ↦
        let row : Venue = record v {
          id = k;
          deleted = false;
          weekdays = week_columns db.column v.weekdays;
        } in
        let (_, _, _, now_reads, others) = update-effect db k v st st' done in
        let wrote = sym (update-read db k st v old read) ∙ done in
        let taken =
          λ (j : ℕ). update_venue-taken db.column db.write_fault (replace v old) st st' j wrote in
        rw
          (
            pk,
            pv,
            done,
            handle_update,
            reread-row db.reread_fault (λ x. venue_body (to_venue_dto x)) k st' row now_reads,
          )
          (replaced k v old row pk pv here refl (ap found now_reads)
            (others-view k st st' others taken))
  ]

  pub put-step :
      (id : Text) (b : Option VenueDto)
      → let out = handle_update db now id b st in
        Step db now (view st) (view out.1) (update_request id b) out.0
  unfolding handle_update
  put-step id b = elim (Result-cases (parse_id id)) [
    | inl (e, bad) ↦ rw (bad, handle_update) (malformed e (rw bad refl) still)
    | inr (k, pk) ↦ elim (Result-cases (update_input now b)) [
      | inl (e, bad) ↦ rw (pk, bad, handle_update) (malformed e (rw (pk, bad) refl) still)
      | inr (v, pv) ↦ elim (read-cases db.read_fault k st) [
        | inl (fault, e, bad) ↦
            rw (pk, pv, update-failed db k st v e bad, handle_update)
              (down (inl fault) (e, inl refl) still)
        | inr (inl (gone, bad)) ↦
            rw (pk, pv, update-failed db k st v _ bad, handle_update)
              (missing k updating pk (rw (pk, pv) refl) gone still)
        | inr (inr (old, here, read, _)) ↦ put-found id b k v old pk pv here read
      ]
    ]
  ]

  pub delete-step :
      (id : Text)
      → let out = handle_delete db id st in
        Step db now (view st) (view out.1) (delete_request id) out.0
  unfolding handle_delete
  delete-step id = elim (Result-cases (parse_id id)) [
    | inl (e, bad) ↦ rw (bad, handle_delete) (malformed e (rw bad refl) still)
    | inr (k, pk) ↦ elim (read-cases db.read_fault k st) [
      | inl (fault, e, bad) ↦
          rw (pk, delete-failed db k st e bad, handle_delete) (down (inl fault) (e, inl refl) still)
      | inr (inl (gone, bad)) ↦
          rw (pk, delete-failed db k st _ bad, handle_delete)
            (missing k deleting pk (rw pk refl) gone still)
      | inr (inr (old, here, read, row)) ↦ elim (Result-cases (delete db k st)) [
        | inl (e, bad) ↦
            let fault =
              delete_venue-fails db.write_fault k old st e row
                (sym (delete-read db k st old read) ∙ bad) in
            rw (pk, bad, handle_delete) (down (inr fault) (e, inl refl) still)
        | inr (st', done) ↦
            let (gone, others) = delete-effect db k st st' done in
            let wrote = sym (delete-read db k st old read) ∙ done in
            rw (pk, done, handle_delete)
              (removed k old pk here (ap found gone) (
                others-view k st st' others
                  (λ j. delete_venue-taken db.write_fault k st st' j wrote)))
      ]
    ]
  ]
