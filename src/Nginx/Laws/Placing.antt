-- ===== src/Nginx/Laws/Placing.antt =====
-- Which files and commands a change of nginx configurations touches.
use aura_cp.Prelude.{◌≡◌, refl, ◌⊎◌, inl, inr, Bool, [], ◌∷◌, Bytes, codes, Option, none, some}
use aura_cp.Paths.{
  htpasswd_dir, htpasswd_file, acme_challenge_dir, nginx_sites_available, nginx_sites_enabled,
  nginx_site_file, nginx_site_link,
}
use aura_cp.Os.{Call, mkdir_all, remove, rename, write_file, symlink, run, Kernel, perform, attempt}
use aura_cp.Os.Confined.{
  Confined, Confined-pure, Confined-if, Confined-bind, Confined-bind_lift, Confined-bind_asks,
  Confined-guard, Confined-on_error, Confined-relabel, Confined-or_try, Confined-perform,
  Confined-attempt,
}
use aura_cp.Errors.{nginx_missing, nginx_invalid}
use aura_cp.Site.Steps.{
  previous, relink, staged, swap_vhost, roll_back, reload_nginx, nginx_test, reload_nginx_service,
}
use aura_cp.Nginx.Render.{Spec}
use aura_cp.Nginx.Manager.{
  apply, reload, site_text, apply_basic_auth, write_password, password_line,
}

-- `mkdir -p` of the shared directories, a new text only into the staged copy or the password file, the staged
-- copy renamed over the live file, the link of the site, and nginx's own commands
abbrev pub Places : Bytes → Call → Type 0
Places domain (mkdir_all path mode) =
    (path ≡ nginx_sites_available)
    ⊎ (path ≡ nginx_sites_enabled)
    ⊎ (path ≡ acme_challenge_dir)
    ⊎ (path ≡ htpasswd_dir)
Places domain (write_file path body mode) = (path ≡ staged domain) ⊎ (path ≡ htpasswd_file domain)
Places domain (remove path) =
    (path ≡ nginx_site_link domain) ⊎ (path ≡ staged domain) ⊎ (path ≡ htpasswd_file domain)
Places domain (rename from to) = (from ≡ staged domain) × (to ≡ nginx_site_file domain)
Places domain (symlink target link) = link ≡ nginx_site_link domain
Places domain (run argv) =
    (argv ≡ nginx_test)
    ⊎ (argv ≡ reload_nginx_service)
    ⊎ (argv ≡ codes "nginx" ∷ codes "-s" ∷ codes "reload" ∷ [])
Places domain c = ⊥

module _ {W : Type 0} (k : Kernel W) where
  relink-Places :
      (domain : Bytes) (prev : Option Bytes)
      → Confined (Places domain) (relink k prev (nginx_site_link domain))
  relink-Places domain none = Confined-pure tt
  relink-Places domain (some target) =
      Confined-attempt k (symlink target (nginx_site_link domain)) refl

  roll_back-Places :
      (domain : Bytes) (prev : Option Bytes) → Confined (Places domain) (roll_back k domain prev)
  unfolding roll_back
  roll_back-Places domain prev =
      Confined-bind _ _ (Confined-attempt k (remove (nginx_site_link domain)) (inl refl)) λ _.
        Confined-bind _ _ (relink-Places domain prev)
          λ _. Confined-attempt k (remove (staged domain)) (inr (inl refl))

  swap_vhost-Places : (domain : Bytes) → Confined (Places domain) (swap_vhost k domain)
  unfolding swap_vhost
  swap_vhost-Places domain =
      let unlink : Confined (Places domain) (attempt k (remove (nginx_site_link domain))) =
        Confined-attempt k _ (inl refl) in
      let unstage : Confined (Places domain) (attempt k (remove (staged domain))) =
        Confined-attempt k _ (inr (inl refl)) in
      let links : (target : Bytes)
          → Confined (Places domain) (perform k (symlink target (nginx_site_link domain))) =
        λ target. Confined-perform k _ refl in
      let tests : Confined (Places domain) (perform k (run nginx_test)) =
        Confined-perform k _ (inl refl) in
      Confined-bind_asks (previous k (nginx_site_link domain)) _ λ s. Confined-bind _ _ unlink λ _.
        Confined-bind _ _ (Confined-on_error _ _ (links (staged domain)) unstage) λ _.
          Confined-bind _ _
            (Confined-relabel nginx_invalid _
              (Confined-on_error _ _ tests (roll_back-Places domain _)))
            λ _.
              Confined-bind _ _
                (Confined-perform k (rename (staged domain) (nginx_site_file domain)) (refl, refl))
                λ _. Confined-bind _ _ unlink λ _. links (nginx_site_file domain)

  reload_nginx-Places : (domain : Bytes) → Confined (Places domain) (reload_nginx k)
  unfolding reload_nginx
  reload_nginx-Places domain =
      Confined-bind _ _
        (Confined-relabel nginx_invalid _ (Confined-perform k (run nginx_test) (inl refl)))
        λ _. Confined-or_try _ _ (Confined-perform k (run reload_nginx_service) (inr (inl refl))) (
          Confined-perform k (run (codes "nginx" ∷ codes "-s" ∷ codes "reload" ∷ []))
            (inr (inr refl)))

  module _ (look_path : Bytes → W → Bool) where
    reload-Places : (domain : Bytes) → Confined (Places domain) (reload k look_path)
    unfolding reload
    reload-Places domain =
        Confined-bind_asks (look_path (codes "nginx")) _
          λ s. Confined-guard _ nginx_missing _ λ _. reload_nginx-Places domain

    write_password-Places : (s : Spec) → Confined (Places s.domain) (write_password k look_path s)
    write_password-Places s =
        Confined-bind _ _ (Confined-perform k (mkdir_all htpasswd_dir 0o755) (inr (inr (inr refl))))
          λ _.
            Confined-perform k
              (write_file (htpasswd_file s.domain) (password_line k look_path s) 0o644) (inr refl)

    apply_basic_auth-Places :
        (s : Spec) → Confined (Places s.domain) (apply_basic_auth k look_path s)
    unfolding apply_basic_auth
    apply_basic_auth-Places s =
        Confined-if _ (write_password k look_path s) (attempt k (remove (htpasswd_file s.domain)))
          (λ _. write_password-Places s)
          λ _. Confined-attempt k (remove (htpasswd_file s.domain)) (inr (inr refl))

    -- Apply writes a configuration only into the staged copy of the site, moves only that copy over the live
    -- file, and otherwise touches the site's link and password file, the shared directories and nginx itself,
    -- however it ends.
    pub apply-Places : (s : Spec) → Confined (Places s.domain) (apply k look_path s)
    unfolding apply
    apply-Places s = Confined-bind_lift (site_text k look_path s) _ λ content _.
        Confined-bind _ _ (Confined-perform k (mkdir_all nginx_sites_available 0o755) (inl refl))
          λ _.
            Confined-bind _ _
              (Confined-perform k (mkdir_all nginx_sites_enabled 0o755) (inr (inl refl)))
              λ _.
                Confined-bind _ _
                  (Confined-perform k (mkdir_all acme_challenge_dir 0o755) (inr (inr (inl refl))))
                  λ _.
                    Confined-bind _ _
                      (Confined-perform k (write_file (staged s.domain) content 0o644) (inl refl))
                      λ _. Confined-bind _ _ (swap_vhost-Places s.domain) λ _.
                        Confined-bind _ _ (apply_basic_auth-Places s) λ _. reload-Places s.domain
