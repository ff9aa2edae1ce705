-- ===== src/Site/Laws/Commands.antt =====
-- The commands that run for a site's user.
use aura_cp.Prelude.{◌≡◌, refl, ◌⊎◌, inl, inr, [], ◌∷◌, Bytes, codes, ok}
use aura_cp.Validate
use aura_cp.Validate.Laws.Names.{IsUserName, username_iff}
use aura_cp.Os.{Call, run, Kernel}
use aura_cp.Os.Confined.{
  Confined, Confined-pure, Confined-if, Confined-bind, Confined-bind_lift, Confined-bind_asks,
  Confined-each, Confined-perform, Confined-attempt,
}
use aura_cp.Site.Users
use aura_cp.Site.Users.{exists, command, ensure_sftp_group, sshd_file}

-- `pkill` and `userdel`, for a name that they cannot take for an option
abbrev pub RemovesUser : Bytes → Call → Type 0
RemovesUser user (run argv) =
    IsUserName user
    × ((argv ≡ codes "pkill" ∷ codes "-9" ∷ codes "-u" ∷ user ∷ [])
        ⊎ (argv ≡ codes "userdel" ∷ codes "--remove" ∷ codes "--force" ∷ user ∷ []))
RemovesUser user c = ⊥

-- Whatever the call, the names are valid.
abbrev pub Validated : Bytes → Bytes → Call → Type 0
Validated user domain c = IsUserName user × (Validate.domain domain ≡ ok tt)

module _ {W : Type 0} (k : Kernel W) where
  ensure-Confined : (P : Call → Type 0) → ((c : Call) → P c) → Confined P (ensure_sftp_group k)
  unfolding ensure_sftp_group
  ensure-Confined P p = Confined-bind _ _ (Confined-attempt k _ (p _)) λ _.
      Confined-bind_asks (k.stat sshd_file) _ λ s.
        Confined-if (exists (k.stat sshd_file s.world)) _ _ (λ _. Confined-pure tt)
          λ _.
            Confined-bind _ _ (Confined-perform k _ (p _))
              λ _. Confined-bind _ _ (Confined-perform k _ (p _)) λ _. Confined-attempt k _ (p _)

  -- Deleting a user runs `pkill` and `userdel` for exactly that user, and only for a valid name; making
  -- one makes no call at all unless the user and the domain are valid.
  pub users-Confined :
      (user domain : Bytes)
      → Confined (RemovesUser user) (Users.delete k user)
        × Confined (Validated user domain) (Users.create k user domain)
  unfolding Users.delete Users.create
  users-Confined user domain = (
    Confined-bind_lift (Validate.username user) _ (λ x h.
        let valid = (username_iff user).0 h in
        Confined-bind _ _ (Confined-attempt k _ (valid, inl refl))
          λ _. Confined-perform k _ (valid, inr refl)),
    Confined-bind_lift (Validate.username user) _ (λ x h.
        Confined-bind_lift (Validate.domain domain) _ λ y g.
          let p : Validated user domain (run []) = ((username_iff user).0 h, g) in
          Confined-bind _ _ (ensure-Confined _ (λ c. p)) λ _.
            Confined-bind _ _ (Confined-perform k _ p) λ _.
              Confined-bind _ _ (Confined-each _ (λ d. Confined-perform k _ p) _) λ _.
                Confined-bind _ _ (Confined-perform k _ p)
                  λ _. Confined-bind _ _ (Confined-perform k _ p) λ _. Confined-perform k _ p),
  )
