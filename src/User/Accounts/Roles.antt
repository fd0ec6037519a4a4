-- ===== src/User/Accounts/Roles.antt =====
-- The role of a user: BecomeOwner, and an UpdateMe at the same time.
use booking_venue.Base.{
  ℕ, ◌≡◌, refl, sym, ap, ◌∙◌, ◌↔◌, inl, inr, false, not, ◌&&◌, ◌==◌, none, ok, arith, List, [], ◌∷◌,
  All, Bool-cases, subst,
}
use booking_venue.Strings.{same_text}
use booking_venue.Strings.Laws.{same_text→eq}
use booking_venue.User.Model.{owner, client, User, UpdateUserRequest}
use booking_venue.User.Repo.{
  Store, first_by_id, get_by_id, others_have_email, put_user, update_user,
}
use booking_venue.User.Repo.Rows.{HasKeys, AreDistinct, first_by_id-All, first_by_id-id}
use booking_venue.User.Accounts.{AccountEnv, apply_update, update_me, become_owner}
use booking_venue.User.Accounts.Effects.{IsSaved, update_me-ok, become_owner-ok}

distinct-step :
    (v u : User) (us : List User)
    → AreDistinct v u
    → others_have_email u.id u.email us ≡ false
    → others_have_email u.id u.email (v ∷ us) ≡ false
unfolding others_have_email
distinct-step v u us d rest = elim (Bool-cases (same_text v.email u.email)) [
  | inl same ↦ absurd (d.1 (sym (same_text→eq v.email u.email same)))
  | inr other ↦ rw (other, rest) (ground arith)
]

distinct-free :
    (v : User) (us : List User) → All (AreDistinct v) us → others_have_email v.id v.email us ≡ false
unfolding others_have_email
distinct-free v [] d = refl
distinct-free v (w ∷ us) d =
    distinct-step w v us (λ e. d.0.0 (sym e), λ e. d.0.1 (sym e)) (distinct-free v us d.1)

-- In a table of distinct keys no other row has the email of a row.
first_by_id-free :
    (k : ℕ) (us : List User) (u : User)
    → HasKeys us
    → first_by_id k us ≡ ok u
    → others_have_email u.id u.email us ≡ false
unfolding first_by_id others_have_email
first_by_id-free k [] u keys h = cc
first_by_id-free k (v ∷ us) u keys h = elim (Bool-cases (v.id == k && not v.deleted)) [
  | inl here ↦
      let same : v ≡ u = cc (rw here at h) in
      subst (λ (w : User). others_have_email w.id w.email (v ∷ us) ≡ false) same
        (ground (arith, distinct-free v us keys.0))
  | inr there ↦
      let rest = rw there at h in
      let apart = first_by_id-All (AreDistinct v) k us u keys.0 rest in
      distinct-step v u us apart (first_by_id-free k us u keys.1 rest)
]

-- Where the database answers and no other request comes in between, BecomeOwner succeeds exactly for a
-- live client.
pub become_owner_iff :
    (env : AccountEnv) (k : ℕ) (st : Store)
    → HasKeys st.users
    → env.read_fault ≡ none
    → env.write_fault ≡ none
    → ((out : User × Store) × (become_owner env k st st ≡ ok out))
      ↔ ((row : User) × (first_by_id k st.users ≡ ok row) × (row.role ≡ client))
unfolding become_owner get_by_id update_user
become_owner_iff env k st keys readable writable = (there, back)
  where
    there :
        (out : User × Store) × (become_owner env k st st ≡ ok out)
        → (row : User) × (first_by_id k st.users ≡ ok row) × (row.role ≡ client)
    there ((u, st'), h) =
        let (row, found, role, same, after) = become_owner-ok env k st st u st' h in
        (row, found, role)

    back :
        (row : User) × (first_by_id k st.users ≡ ok row) × (row.role ≡ client)
        → (out : User × Store) × (become_owner env k st st ≡ ok out)
    back (row, found, role) =
        let u : User = record row { role = owner } in
        (
          (u, record st { users = put_user u st.users }),
          rw (readable, found, role, writable, first_by_id-free k st.users row keys found) refl,
        )

-- An UpdateMe that has read the row before a BecomeOwner of the same user, and saves it after, makes
-- the new owner a client again.
pub update_me-demotes :
    (env env' : AccountEnv) (k : ℕ) (req : UpdateUserRequest) (st mid st' : Store) (o u : User)
    → become_owner env k st st ≡ ok (o, mid)
    → update_me env' k req st mid ≡ ok (u, st')
    → (o.role ≡ owner)
      × (first_by_id k mid.users ≡ ok o)
      × (u.role ≡ client)
      × (first_by_id k st'.users ≡ ok u)
unfolding IsSaved apply_update
update_me-demotes env env' k req st mid st' o u made changed =
    let (row, found, role, same, stored) = become_owner-ok env k st st o mid made in
    let (row', found', same', kept, stored') = update_me-ok env' k req st mid u st' changed in
    let id_of_o : o.id ≡ k =
      ap (λ (w : User). w.id) same ∙ (first_by_id-id k st.users row found).0 in
    let id_of_u : u.id ≡ k =
      ap (λ (w : User). w.id) same' ∙ (first_by_id-id k st.users row' found').0 in
    (
      ap (λ (w : User). w.role) same,
      subst (λ j. first_by_id j mid.users ≡ ok o) id_of_o stored.0,
      cc (found, found', role, kept),
      subst (λ j. first_by_id j st'.users ≡ ok u) id_of_u stored'.0,
    )
