-- ===== src/Auth/Laws/Schema.antt =====
-- The constraints of the schema of internal/store/migrate.go, kept by every statement.
use aura_cp.Prelude.{
  ℕ, suc, ◌<◌, ◌≡◌, refl, Bool, true, false, List, [], ◌∷◌, ◌++◌, Option, none, some, String, Bytes,
  arith, ◌==◌, bytes_eq, string_eq, nat_eq, All, All-append, All-map, any, Bool-cases, inl, inr,
  ◌∙◌,
}
use text.Mathlib.TextEquality.{eq_iff}
use aura_cp.Permissions.{Overrides}
use aura_cp.Rows.{update}
use aura_cp.Auth.Accounts.{
  User, Panel, has_email, has_id, has_token, create_user, update_user_access, set_user_totp,
  create_session, clear_session_mfa_pending, delete_session, delete_user_by_email, set_setting,
  add_audit,
}
use aura_cp.Rows.Laws.{
  any-append, any-update, All-update, All-keep, All-kept, Distinct, Distinct-update, Distinct-keep,
  Distinct-append,
}

abbrev pub user_exists : Panel → ℕ → Bool
user_exists p id = any (has_id id) p.users

-- The primary keys, the unique column, and the foreign key with its cascade; every id is one that
-- AUTOINCREMENT has given out.
pub record IsValid (p : Panel) : Type 0 where
  pub given_out : All (λ u. u.id < p.next_id) p.users
  pub ids : Distinct has_id (λ u. u.id) p.users
  pub emails : Distinct has_email (λ u. u.email) p.users
  pub tokens : Distinct has_token (λ s. s.token) p.sessions
  pub owners : All (λ s. user_exists p s.user_id ≡ true) p.sessions

-- What holds of a result, if there is one.
abbrev pub Holds : {A : Type 0} → (A → Type 0) → Option A → Type 0
Holds P none = Unit
Holds P (some a) = P a

module _ (p : Panel) (v : IsValid p) where
  pub add_audit-IsValid : (actor action target : String) → IsValid (add_audit actor action target p)
  unfolding add_audit
  add_audit-IsValid actor action target = record {
    given_out = v.given_out;
    ids = v.ids;
    emails = v.emails;
    tokens = v.tokens;
    owners = v.owners;
  }

  pub set_setting-IsValid : (key value : String) → IsValid (set_setting key value p)
  unfolding set_setting
  set_setting-IsValid key value = record {
    given_out = v.given_out;
    ids = v.ids;
    emails = v.emails;
    tokens = v.tokens;
    owners = v.owners;
  }

  new_id : (us : List User) → All (λ u. u.id < p.next_id) us → any (has_id p.next_id) us ≡ false
  new_id [] h = refl
  new_id (u ∷ us) h = ground (arith, new_id us h.1)

  sym_id : (a b : ℕ) → (b == a) ≡ (a == b)
  sym_id a b = ground arith

  sym_email : (a b : String) → (a == b) ≡ (b == a)
  sym_email a b = ground (arith, eq_iff a b, eq_iff b a)

  below_suc : (u : User) → u.id < p.next_id → u.id < suc p.next_id
  below_suc u h = omega arith

  grown-IsValid :
      (u : User)
      → u.id ≡ p.next_id
      → any (has_email u.email) p.users ≡ false
      → IsValid (record p { next_id = suc p.next_id; users = p.users ++ u ∷ [] })
  grown-IsValid u next free = record {
    given_out =
        All-append _ p.users (u ∷ []) (All-map _ _ p.users below_suc v.given_out)
          (omega (arith, next), tt);
    ids =
        Distinct-append has_id (λ w. w.id) p.users u (λ w. sym_id u.id w.id)
          (rw next (new_id p.users v.given_out)) v.ids;
    emails =
        Distinct-append has_email (λ w. w.email) p.users u (λ w. sym_email w.email u.email) free
          v.emails;
    tokens = v.tokens;
    owners = All-map _ _ p.sessions (λ s h. any-append _ p.users (u ∷ []) h) v.owners;
  }

  pub create_user-IsValid :
      (email : String) (hash : Bytes) (role permissions scope : String)
      → Holds (λ x. IsValid x.1) (create_user email hash role permissions scope p)
  unfolding create_user
  create_user-IsValid email hash role permissions scope =
      elim (Bool-cases (any (has_email email) p.users)) [
        | inl taken ↦ rw taken tt
        | inr free ↦ rw free (grown-IsValid _ refl free)
      ]

  -- An UPDATE of users that leaves ids and addresses alone.
  pub update_users-IsValid :
      (w : User → Bool) (f : User → User)
      → ((u : User) → (f u).id ≡ u.id)
      → ((u : User) → (f u).email ≡ u.email)
      → IsValid (record p { users = update w f p.users })
  update_users-IsValid w f same_id same_email = record {
    given_out = All-update _ w f p.users (λ u h. rw (same_id u) h) v.given_out;
    ids = Distinct-update has_id _ w f p.users (λ k u. rw (same_id u) refl) same_id v.ids;
    emails =
        Distinct-update has_email _ w f p.users (λ k u. rw (same_email u) refl) same_email v.emails;
    tokens = v.tokens;
    owners =
        All-map _ _ p.sessions
          (λ s h. any-update (has_id s.user_id) w f p.users (λ u. rw (same_id u) refl) ∙ h)
          v.owners;
  }

  pub update_user_access-IsValid :
      (email role permissions scope : String)
      → IsValid (update_user_access email role permissions scope p)
  unfolding update_user_access
  update_user_access-IsValid email role permissions scope =
      update_users-IsValid _ _ (λ u. refl) (λ u. refl)

  pub set_user_totp-IsValid : (id : ℕ) (secret : Bytes) → IsValid (set_user_totp id secret p)
  unfolding set_user_totp
  set_user_totp-IsValid id secret = update_users-IsValid _ _ (λ u. refl) (λ u. refl)

  pub create_session-IsValid :
      (token : Bytes) (id : ℕ) (pending : Bool) (expires_at : ℕ)
      → Holds IsValid (create_session token id pending expires_at p)
  unfolding create_session
  create_session-IsValid token id pending expires_at =
      elim (Bool-cases (any (has_token token) p.sessions)) [
        | inl taken ↦ rw taken tt
        | inr free ↦ elim (Bool-cases (any (has_id id) p.users)) [
          | inl there ↦
              rw (free, there)
                (record {
                  given_out = v.given_out;
                  ids = v.ids;
                  emails = v.emails;
                  tokens = (free, v.tokens);
                  owners = (there, v.owners);
                })
          | inr missing ↦ rw (free, missing) tt
        ]
      ]

  pub clear_session-IsValid : (token : Bytes) → IsValid (clear_session_mfa_pending token p)
  unfolding clear_session_mfa_pending
  clear_session-IsValid token = record {
    given_out = v.given_out;
    ids = v.ids;
    emails = v.emails;
    tokens = Distinct-update has_token _ _ _ p.sessions (λ k s. refl) (λ s. refl) v.tokens;
    owners = All-update _ _ _ p.sessions (λ s h. h) v.owners;
  }

  pub delete_session-IsValid : (token : Bytes) → IsValid (delete_session token p)
  unfolding delete_session
  delete_session-IsValid token = record {
    given_out = v.given_out;
    ids = v.ids;
    emails = v.emails;
    tokens = Distinct-keep has_token _ _ p.sessions v.tokens;
    owners = All-keep _ _ p.sessions v.owners;
  }

  pub delete_user-IsValid : (email : String) → IsValid (delete_user_by_email email p)
  unfolding delete_user_by_email
  delete_user-IsValid email = record {
    given_out = All-keep _ _ p.users v.given_out;
    ids = Distinct-keep has_id _ _ p.users v.ids;
    emails = Distinct-keep has_email _ _ p.users v.emails;
    tokens = Distinct-keep has_token _ _ p.sessions v.tokens;
    owners = All-kept _ p.sessions;
  }

  pub with_overrides-IsValid : (o : Overrides) → IsValid (record p { overrides = o })
  with_overrides-IsValid o = record {
    given_out = v.given_out;
    ids = v.ids;
    emails = v.emails;
    tokens = v.tokens;
    owners = v.owners;
  }
