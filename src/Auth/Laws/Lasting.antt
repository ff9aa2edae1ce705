-- ===== src/Auth/Laws/Lasting.antt =====
-- Two things that last: the constraints of the schema, and that the panel is set up once.
use aura_cp.Prelude.{
  ℕ, ◌<◌, ◌≡◌, ◌≢◌, refl, Bool, true, false, ◌||◌, not, List, [], ◌∷◌, Option, none, some, String,
  Bytes, arith, ◌==◌, string_eq, length, any, keep, Bool-cases, inl, inr, ◌⊎◌, subst, sym, ap,
  lt→ltb, length-append,
}
use aura_cp.Permissions.{PermSet}
use aura_cp.Web.Middleware.{Request}
use aura_cp.Rows.{update}
use aura_cp.Auth.Accounts.{
  User, Panel, has_email, has_token, has_id, create_user, update_user_access, set_user_totp,
  create_session, clear_session_mfa_pending, delete_session, delete_user_by_email, set_setting,
  add_audit, count_users,
}
use aura_cp.Auth.Handlers.{Crypto, Credentials, refuse, setup_admin, current_user}
use aura_cp.Auth.Users.{delete_admin_user, is_self}
use aura_cp.Auth.Routes.{open_to_all, needs}
use aura_cp.Auth.Events.{Occurrence, serve, history, guard_of, removes_user}
use aura_cp.Rows.Laws.{Any, keep-true, keep-false}
use aura_cp.Auth.Laws.Guards.{behind-cases, current_user-IsSignedIn}
use aura_cp.Auth.Laws.Schema
use aura_cp.Auth.Laws.Schema.{Holds, IsValid}
use aura_cp.Auth.Laws.Keeping.{Survives, audit-keeps, behind-keeps}
use aura_cp.Auth.Laws.Histories.{history-keeps}

IsValid-Survives : Survives IsValid
IsValid-Survives = record {
  audited = λ p actor action target v. Schema.add_audit-IsValid p v actor action target;
  created = λ p email hash role permissions scope v.
      Schema.create_user-IsValid p v email hash role permissions scope;
  access = λ p email role permissions scope v.
      Schema.update_user_access-IsValid p v email role permissions scope;
  totp = λ p id secret v. Schema.set_user_totp-IsValid p v id secret;
  begun = λ p token id pending expires_at v.
      Schema.create_session-IsValid p v token id pending expires_at;
  completed = λ p token v. Schema.clear_session-IsValid p v token;
  ended = λ p token v. Schema.delete_session-IsValid p v token;
  setting = λ p key value v. Schema.set_setting-IsValid p v key value;
  overrides = λ p o v. Schema.with_overrides-IsValid p v o;
}

module _ (c : Crypto) (r : Request) (now : ℕ) (email : String) where
  removal-IsValid : (p : Panel) → IsValid p → IsValid (delete_admin_user c r now email p).1
  unfolding delete_admin_user
  removal-IsValid p v = elim (Bool-cases (is_self c r now (current_user r now p) email)) [
    | inl e ↦ rw e v
    | inr e ↦ rw e (
        audit-keeps IsValid-Survives r now "user.delete" email _
          (Schema.delete_user-IsValid p v email))
  ]

-- Whatever is asked of the panel, and however often it restarts, ids, addresses and tokens stay distinct, every
-- id is one that has been given out, and every session belongs to a user that is there.
pub history-IsValid :
    (c : Crypto) (marshal : Option PermSet → String) (os : List Occurrence) (p : Panel)
    → IsValid p
    → IsValid (history c marshal os p)
unfolding serve
history-IsValid c marshal os p v =
    history-keeps IsValid-Survives c marshal
      (λ r now email q.
        behind-keeps IsValid-Survives c _ r now _ q (removal-IsValid c r now email q))
      os p v

abbrev pub HasUsers : Panel → Type 0
HasUsers p = 0 < count_users p

length-update :
    {A : Type 0} (w : A → Bool) (f : A → A) (xs : List A) → length (update w f xs) ≡ length xs
unfolding update
length-update w f [] = refl
length-update w f (x ∷ xs) = omega (arith, length-update w f xs)

updated-HasUsers :
    (w : User → Bool) (f : User → User) (us : List User)
    → 0 < length us
    → 0 < length (update w f us)
updated-HasUsers w f us h = subst (λ n. 0 < n) (sym (length-update w f us)) h

created-HasUsers :
    (p : Panel) (email : String) (hash : Bytes) (role permissions scope : String)
    → HasUsers p
    → Holds (λ x. HasUsers x.1) (create_user email hash role permissions scope p)
unfolding create_user count_users
created-HasUsers p email hash role permissions scope v =
    elim (Bool-cases (any (has_email email) p.users)) [
      | inl e ↦ rw e tt
      | inr e ↦ rw e (
          omega (
            arith,
            length-append p.users (
                record {
                  id = p.next_id;
                  email = email;
                  password_hash = hash;
                  role = role;
                  permissions = permissions;
                  sites_scope = scope;
                  totp_secret = none;
                }
                ∷ []),
          ))
    ]

begun-HasUsers :
    (p : Panel) (token : Bytes) (id : ℕ) (pending : Bool) (expires_at : ℕ)
    → HasUsers p
    → Holds HasUsers (create_session token id pending expires_at p)
unfolding create_session count_users
begun-HasUsers p token id pending expires_at v =
    elim (Bool-cases (any (has_token token) p.sessions || not (any (has_id id) p.users))) [
      | inl e ↦ rw e tt
      | inr e ↦ rw e v
    ]

HasUsers-Survives : Survives HasUsers
unfolding count_users add_audit update_user_access set_user_totp clear_session_mfa_pending
    delete_session set_setting
HasUsers-Survives = record {
  audited = λ p actor action target v. v;
  created = created-HasUsers;
  access = λ p email role permissions scope v. updated-HasUsers _ _ p.users v;
  totp = λ p id secret v. updated-HasUsers _ _ p.users v;
  begun = begun-HasUsers;
  completed = λ p token v. v;
  ended = λ p token v. v;
  setting = λ p key value v. v;
  overrides = λ p o v. v;
}

module _ (c : Crypto) (r : Request) (now : ℕ) (email : String) (p : Panel) where
  -- A user with another address is left.
  others_left :
      (u : User) (us : List User)
      → Any (λ v. v ≡ u) us
      → (u.email == email) ≡ false
      → 0 < length (keep (λ v. not (has_email email v)) us)
  others_left u [] there ne = elim there [ ]
  others_left u (w ∷ us) there ne = elim (Bool-cases (has_email email w)) [
    | inl e ↦ rw (keep-false _ w us (ap not e)) (others_left u us (elsewhere w e there) ne)
    | inr e ↦ rw (keep-true _ w us (ap not e)) (omega arith)
  ]
    where
      elsewhere :
          (w : User)
          → has_email email w ≡ true
          → (w ≡ u) ⊎ Any (λ v. v ≡ u) us
          → Any (λ v. v ≡ u) us
      elsewhere w e (inl same) = cc (e, ne)
      elsewhere w e (inr q) = q

  deleted-HasUsers :
      (u : User)
      → current_user r now p ≡ some u
      → (u.email == email) ≡ false
      → HasUsers (delete_user_by_email email p)
  unfolding delete_user_by_email count_users
  deleted-HasUsers u found ne =
      let (token, cookie, signed) = current_user-IsSignedIn r now p u found in
      others_left u p.users signed.1 ne

  removed-HasUsers :
      (u : User)
      → current_user r now p ≡ some u
      → HasUsers p
      → HasUsers (delete_admin_user c r now email p).1
  unfolding delete_admin_user
  removed-HasUsers u found v = elim (Bool-cases (u.email == email)) [
    | inl e ↦ rw (found, e) v
    | inr e ↦
        rw (found, e)
          (audit-keeps HasUsers-Survives r now "user.delete" email _ (deleted-HasUsers u found e))
  ]

delete_guard : guard_of "deleteAdminUser" ≡ needs "users" "delete"
unfolding guard_of
delete_guard = refl

needs-ne-open : {resource action : String} → needs resource action ≢ open_to_all
needs-ne-open h = cc

module _ (c : Crypto) (marshal : Option PermSet → String) where
  removal-HasUsers :
      (r : Request) (now : ℕ) (email : String) (p : Panel)
      → HasUsers p
      → HasUsers (serve c marshal r now (removes_user email) p).1
  unfolding serve
  removal-HasUsers r now email p v =
      rw delete_guard
        (elim (behind-cases c r now (delete_admin_user c r now email) p (needs "users" "delete")
          needs-ne-open (current_user r now p) refl) [
            | inl (inl e) ↦ rw e v
            | inl (inr e) ↦ rw e v
            | inr (u, found, passes, same) ↦ rw same (removed-HasUsers c r now email p u found v)
          ])

  -- Once the panel has a user, it never lacks one again, whatever is asked of it, so setting it up is refused
  -- for good and changes nothing.
  pub history-setup_refused :
      (os : List Occurrence) (p : Panel)
      → 0 < count_users p
      → (r : Request) (now : ℕ) (input : Option Credentials) (token : Option Bytes)
      → let q = history c marshal os p in setup_admin c r now input token q ≡ refuse 403 q
  unfolding setup_admin
  history-setup_refused os p v r now input token =
      rw (lt→ltb 0 _ (history-keeps HasUsers-Survives c marshal removal-HasUsers os p v)) refl
