-- ===== src/Venue/Transport/Keys.antt =====
-- The primary key of the table of venues over requests.
use booking_venue.Base.{
  ℕ, ◌≡◌, refl, inl, inr, Bool, true, false, ◌||◌, Option, Result, ok, err, ◌>>◌, check,
  Result-cases, Bool-cases, >>=-eq-ok, subst,
}
use booking_venue.Clock.{Time}
use booking_venue.Clock.HourMinute.{Text}
use booking_venue.Venue.Model.{Weekdays, Venue, VenueError, validate_venue}
use booking_venue.Venue.Repo.{
  Store, create_venue, update_venue, delete_venue, first_venue, set_columns, new_venue, has_id,
  is_negative, find_venue, week_columns,
}
use booking_venue.Venue.Repo.Rows.{HasKeys, update_rows-HasKeys, append-HasKeys}
use booking_venue.Venue.Service.{Db, translate, replace, create, update, delete, update_schedule}
use booking_venue.Venue.Service.Effects.{update_venue-ok}
use booking_venue.Venue.Dto.{VenueDto, ScheduleDto}
use booking_venue.Venue.Transport.{
  Response, Request, parse_id, create_input, update_input, schedule_input, created_reply,
  handle_create, handle_update, handle_delete, handle_update_schedule, serve, list_request,
  create_request, get_request, delete_request, schedule_request, owned_request, update_request,
  update_schedule_request, types_request,
}

-- A repository's update keeps the keys, since it writes no id.
update_venue-HasKeys :
    (column : Time → Time) (fault : Option VenueError) (v : Venue) (st st' : Store)
    → HasKeys st.venues
    → update_venue column fault v st ≡ ok st'
    → HasKeys st'.venues
unfolding set_columns
update_venue-HasKeys column fault v st st' k h =
    let (valid, price, after) = update_venue-ok column fault v st st' h in
    rw after (update_rows-HasKeys (set_columns column v) (λ x. refl) v.id st.venues k)

create-HasKeys :
    (db : Db) (v : Venue) (st : Store) → HasKeys st.venues → HasKeys (create db v st).1.venues
unfolding create create_venue
create-HasKeys db v st k = elim (Result-cases (validate_venue v >> check db.write_fault)) [
  | inl (e, bad) ↦ rw (bad, create_venue) k
  | inr (u, good) ↦
      let w = new_venue st.next_id v in
      elim (Bool-cases (is_negative v.hour_price || has_id w.id st.venues)) [
        | inl broken ↦ rw (good, broken, create_venue) k
        | inr fine ↦
            rw (good, fine, create_venue)
              (append-HasKeys (record w { weekdays = week_columns db.column w.weekdays }) st.venues
                (fresh (is_negative v.hour_price) _ fine) k)
      ]
]
  where
    fresh : (a b : Bool) → (a || b) ≡ false → b ≡ false
    fresh true b h = cc
    fresh false b h = h

module _ (st : Store) (k : HasKeys st.venues) where
  -- What a handler leaves: the store that it got, or one whose keys are distinct.
  abbrev Keeps : Response × Store → Type 0
  Keeps out = HasKeys out.1.venues

  update-HasKeys :
      (db : Db) (id : ℕ) (v : Venue) (st' : Store) → update db id v st ≡ ok st' → HasKeys st'.venues
  unfolding update
  update-HasKeys db id v st' h =
      let (existing, found, h₁) = >>=-eq-ok (translate (find_venue db.read_fault id st)) _ h in
      update_venue-HasKeys db.column db.write_fault (replace v existing) st st' k h₁

  update_schedule-HasKeys :
      (db : Db) (id : ℕ) (w : Weekdays) (st' : Store)
      → update_schedule db id w st ≡ ok st'
      → HasKeys st'.venues
  unfolding update_schedule
  update_schedule-HasKeys db id w st' h =
      let (existing, found, h₁) = >>=-eq-ok (translate (find_venue db.read_fault id st)) _ h in
      update_venue-HasKeys db.column db.write_fault (record existing { weekdays = w }) st st' k h₁

  delete-HasKeys : (db : Db) (id : ℕ) (st' : Store) → delete db id st ≡ ok st' → HasKeys st'.venues
  unfolding delete delete_venue
  delete-HasKeys db id st' h =
      let (existing, found, h₁) = >>=-eq-ok (translate (find_venue db.read_fault id st)) _ h in
      let (u, free, h₂) = >>=-eq-ok (check db.write_fault) _ h₁ in
      let (row, again, h₃) = >>=-eq-ok (first_venue id st.venues) _ h₂ in
      let mark : Venue → Venue = λ v. record v { deleted = true } in
      subst (λ r. kept r) h₃ (update_rows-HasKeys mark (λ x. refl) id st.venues k)
    where
      kept : Result VenueError Store → Type 0
      kept (ok s) = HasKeys s.venues
      kept (err e) = Unit

  put-HasKeys :
      (db : Db) (now : Time) (id : Text) (b : Option VenueDto)
      → Keeps (handle_update db now id b st)
  unfolding handle_update
  put-HasKeys db now id b = elim (Result-cases (parse_id id)) [
    | inl (e, bad) ↦ rw (bad, handle_update) k
    | inr (j, pj) ↦ elim (Result-cases (update_input now b)) [
      | inl (e, bad) ↦ rw (pj, bad, handle_update) k
      | inr (v, pv) ↦ elim (Result-cases (update db j v st)) [
        | inl (e, bad) ↦ rw (pj, pv, bad, handle_update) k
        | inr (st', done) ↦ rw (pj, pv, done, handle_update) (update-HasKeys db j v st' done)
      ]
    ]
  ]

  put_schedule-HasKeys :
      (db : Db) (now : Time) (id : Text) (b : Option ScheduleDto)
      → Keeps (handle_update_schedule db now id b st)
  unfolding handle_update_schedule
  put_schedule-HasKeys db now id b = elim (Result-cases (parse_id id)) [
    | inl (e, bad) ↦ rw (bad, handle_update_schedule) k
    | inr (j, pj) ↦ elim (Result-cases (schedule_input now b)) [
      | inl (e, bad) ↦ rw (pj, bad, handle_update_schedule) k
      | inr (w, pw) ↦ elim (Result-cases (update_schedule db j w st)) [
        | inl (e, bad) ↦ rw (pj, pw, bad, handle_update_schedule) k
        | inr (st', done) ↦
            rw (pj, pw, done, handle_update_schedule) (update_schedule-HasKeys db j w st' done)
      ]
    ]
  ]

  remove-HasKeys : (db : Db) (id : Text) → Keeps (handle_delete db id st)
  unfolding handle_delete
  remove-HasKeys db id = elim (Result-cases (parse_id id)) [
    | inl (e, bad) ↦ rw (bad, handle_delete) k
    | inr (j, pj) ↦ elim (Result-cases (delete db j st)) [
      | inl (e, bad) ↦ rw (pj, bad, handle_delete) k
      | inr (st', done) ↦ rw (pj, done, handle_delete) (delete-HasKeys db j st' done)
    ]
  ]

  created_reply-store : (out : Result VenueError Venue × Store) → (created_reply out).1 ≡ out.1
  created_reply-store (ok v, s) = refl
  created_reply-store (err e, s) = refl

  post-HasKeys : (db : Db) (now : Time) (b : Option VenueDto) → Keeps (handle_create db now b st)
  unfolding handle_create
  post-HasKeys db now b = elim (Result-cases (create_input now b)) [
    | inl (e, bad) ↦ rw (bad, handle_create) k
    | inr (v, pv) ↦
        rw (pv, handle_create, created_reply-store (create db v st)) (create-HasKeys db v st k)
  ]

  -- No request makes two venues, deleted ones included, share an id, where none did: neither a create
  -- with an id in its body, nor an update, nor a delete.
  pub serve-HasKeys :
      (db : Db) (now : Time) (req : Request) → HasKeys (serve db now req st).1.venues
  unfolding serve
  serve-HasKeys db now (list_request q) = k
  serve-HasKeys db now (create_request b) = post-HasKeys db now b
  serve-HasKeys db now (get_request id) = k
  serve-HasKeys db now (delete_request id) = remove-HasKeys db id
  serve-HasKeys db now (schedule_request id) = k
  serve-HasKeys db now (owned_request id) = k
  serve-HasKeys db now (update_request id b) = put-HasKeys db now id b
  serve-HasKeys db now (update_schedule_request id b) = put_schedule-HasKeys db now id b
  serve-HasKeys db now types_request = k
