-- ===== src/Site/Laws/Sweep.antt =====
-- Deleting a site tries to remove five files of it, whatever fails.
use aura_cp.Prelude.{Bool, true, false, [], ◌∷◌, Bytes, codes}
use aura_cp.Validate
use aura_cp.Paths.{
  htpasswd_file, nginx_site_file, nginx_site_link, php_pool_file, cert_path, key_path,
}
use aura_cp.Os.{Call, remove, run, Kernel, State, Exec, perform, attempt, ignored, or_try, ◌>>=◌}
use aura_cp.Os.Steady.{
  Preserves, Makes, Succeeds, Preserves-pure, Preserves-lift, Preserves-asks, Preserves-if,
  Preserves-bind, Makes-before, Makes-after, Succeeds-bind, Succeeds-asks, Succeeds-pure,
  Succeeds-if, Preserves-ignored, Preserves-or_try, Preserves-each, Succeeds-each,
  Preserves-attempt, Succeeds-attempt,
}
use aura_cp.Os.Logged.{Logged, Has, Preserves-Has, Makes-Has}
use aura_cp.Site.Users
use aura_cp.Site.Users.{exists, command}
use aura_cp.Site.Pools.{installed, systemctl, service}
use aura_cp.Site.Steps.{reload_nginx_service}
use aura_cp.Site.Delete.{drop_pool_file, sweep_pool, sweep_pools, run_delete}

-- The calls that RunDelete may make for a site.
pub data IsStep (domain user : Bytes) : Call → Type 0 where
  link : IsStep domain user (remove (nginx_site_link domain))
  file : IsStep domain user (remove (nginx_site_file domain))
  pool : (v : Bytes) → IsStep domain user (remove (php_pool_file v domain))
  certificate : IsStep domain user (remove (cert_path domain))
  private_key : IsStep domain user (remove (key_path domain))
  passwords : IsStep domain user (remove (htpasswd_file domain))
  pool_reload : (v : Bytes) → IsStep domain user (run (systemctl (codes "reload" ∷ service v ∷ [])))
  kill : IsStep domain user (run (codes "pkill" ∷ codes "-9" ∷ codes "-u" ∷ user ∷ []))
  user_removal :
      IsStep domain user (run (codes "userdel" ∷ codes "--remove" ∷ codes "--force" ∷ user ∷ []))
  nginx_reload : IsStep domain user (run reload_nginx_service)
  nginx_signal : IsStep domain user (run (codes "nginx" ∷ codes "-s" ∷ codes "reload" ∷ []))

-- None of these calls undoes the predicate.
abbrev pub IsSteady : {W : Type 0} → Kernel W → (domain user : Bytes) → (State W → Type 0) → Type 0
IsSteady k domain user P = (c : Call) → IsStep domain user c → Preserves P (perform k c)

module _ {W : Type 0} (k : Kernel W) (domain : Bytes) where
  drop-Succeeds : (v : Bytes) → Succeeds (drop_pool_file k domain v) tt
  drop-Succeeds v =
      Succeeds-bind _ tt _ (Succeeds-attempt k (remove (php_pool_file v domain))) tt
        (Succeeds-attempt k _)

  pub sweep_pool-Succeeds : (v : Bytes) → Succeeds (sweep_pool k domain v) tt
  unfolding sweep_pool
  sweep_pool-Succeeds v =
      Succeeds-asks (k.stat (php_pool_file v domain)) _ tt
        (λ old. Succeeds-if (exists old) _ _ (drop-Succeeds v) Succeeds-pure)

  sweep_pools-Succeeds : (has_php : Bool) → Succeeds (sweep_pools k has_php domain) tt
  unfolding sweep_pools
  sweep_pools-Succeeds false = Succeeds-pure
  sweep_pools-Succeeds true =
      Succeeds-asks (installed k) _ tt
        (λ vs. Succeeds-each (sweep_pool k domain) sweep_pool-Succeeds vs)

  module _ (user : Bytes) {P : State W → Type 0} (q : IsSteady k domain user P) where
    pub stepping : {c : Call} → IsStep domain user c → Preserves P (attempt k c)
    stepping {c} step = Preserves-attempt k c (q c step)

    pub drop-Preserves : (v : Bytes) → Preserves P (drop_pool_file k domain v)
    drop-Preserves v = Preserves-bind _ _ (stepping (pool v)) (λ _. stepping (pool_reload v))

    pub sweep_pool-Preserves : (v : Bytes) → Preserves P (sweep_pool k domain v)
    unfolding sweep_pool
    sweep_pool-Preserves v =
        Preserves-bind _ _ (Preserves-asks (k.stat (php_pool_file v domain)))
          (λ old. Preserves-if (exists old) _ _ (drop-Preserves v) (Preserves-pure tt))

    sweep_pools-Preserves : (has_php : Bool) → Preserves P (sweep_pools k has_php domain)
    unfolding sweep_pools
    sweep_pools-Preserves false = Preserves-pure tt
    sweep_pools-Preserves true =
        Preserves-bind _ _ (Preserves-asks (installed k))
          (λ vs. Preserves-each (sweep_pool k domain) sweep_pool-Preserves vs)

    delete_user-Preserves : Preserves P (Users.delete k user)
    unfolding Users.delete
    delete_user-Preserves =
        Preserves-bind _ _ (Preserves-lift (Validate.username user))
          (λ _. Preserves-bind _ _ (stepping kill) (λ _. q _ user_removal))

-- RunDelete from each of its steps on.
module _ {W : Type 0} (k : Kernel W) (has_php : Bool) (domain user : Bytes) where
  abbrev after_htpasswd : Exec W (Unit {0})
  after_htpasswd = Users.delete k user >>= λ _. ignored (
      or_try (command k reload_nginx_service)
        (command k (codes "nginx" ∷ codes "-s" ∷ codes "reload" ∷ [])))

  abbrev after_key : Exec W (Unit {0})
  after_key = attempt k (remove (htpasswd_file domain)) >>= λ _. after_htpasswd

  abbrev after_cert : Exec W (Unit {0})
  after_cert = attempt k (remove (key_path domain)) >>= λ _. after_key

  abbrev pub after_pools : Exec W (Unit {0})
  after_pools = attempt k (remove (cert_path domain)) >>= λ _. after_cert

  abbrev pub after_file : Exec W (Unit {0})
  after_file = sweep_pools k has_php domain >>= λ _. after_pools

  abbrev after_link : Exec W (Unit {0})
  after_link = attempt k (remove (nginx_site_file domain)) >>= λ _. after_file

  module _ {P : State W → Type 0} (q : IsSteady k domain user P) where
    after_htpasswd-Preserves : Preserves P after_htpasswd
    after_htpasswd-Preserves =
        Preserves-bind _ _ (delete_user-Preserves k domain user q)
          (λ _. Preserves-ignored _ (Preserves-or_try _ _ (q _ nginx_reload) (q _ nginx_signal)))

    after_key-Preserves : Preserves P after_key
    after_key-Preserves =
        Preserves-bind _ _ (stepping k domain user q passwords) (λ _. after_htpasswd-Preserves)

    after_cert-Preserves : Preserves P after_cert
    after_cert-Preserves =
        Preserves-bind _ _ (stepping k domain user q private_key) (λ _. after_key-Preserves)

    pub after_pools-Preserves : Preserves P after_pools
    after_pools-Preserves =
        Preserves-bind _ _ (stepping k domain user q certificate) (λ _. after_cert-Preserves)

    pub after_file-Preserves : Preserves P after_file
    after_file-Preserves =
        Preserves-bind _ _ (sweep_pools-Preserves k domain user q has_php)
          (λ _. after_pools-Preserves)

    after_link-Preserves : Preserves P after_link
    after_link-Preserves =
        Preserves-bind _ _ (stepping k domain user q file) (λ _. after_file-Preserves)

module _ {W : Type 0} (k : Kernel W) {P : State W → Type 0} where
  -- a step of RunDelete that does not fail, and what follows it
  pub skip : (b : Call) (n : Exec W (Unit {0})) → Makes P n → Makes P (attempt k b >>= λ _. n)
  skip b n mn = Makes-after (attempt k b) tt (λ _. n) (Succeeds-attempt k b) mn

  pub made :
      (b : Call) (n : Exec W (Unit {0}))
      → Makes P (attempt k b)
      → Preserves P n
      → Makes P (attempt k b >>= λ _. n)
  made b n mb kn = Makes-before (attempt k b) (λ _. n) mb (λ _. kn)

module _ {W : Type 0} (k : Kernel W) (has_php : Bool) (domain user : Bytes) where
  Has-IsSteady : (c : Call) → IsSteady k domain user (Has c)
  Has-IsSteady c step made = Preserves-Has k c step

  -- past the link, the file and the pools
  pub swept :
      {P : State W → Type 0}
      → Makes P (after_pools k has_php domain user)
      → Makes P (run_delete k has_php domain user)
  unfolding run_delete
  swept m = skip k (remove (nginx_site_link domain)) _ (
      skip k (remove (nginx_site_file domain)) _
        (Makes-after (sweep_pools k has_php domain) tt _ (sweep_pools-Succeeds k domain has_php) m))

  -- RunDelete tries to remove the site's nginx file and link, its certificate, its key and its
  -- htpasswd file, whatever fails before or after, the removal of the user included.
  pub run_delete-Logged :
      (s : State W)
      → let log = (run_delete k has_php domain user s).1.log in
        Logged (remove (nginx_site_link domain)) log
        × Logged (remove (nginx_site_file domain)) log
        × Logged (remove (cert_path domain)) log
        × Logged (remove (key_path domain)) log
        × Logged (remove (htpasswd_file domain)) log
  unfolding run_delete
  run_delete-Logged s =
      let link_gone = remove (nginx_site_link domain) in
      let file_gone = remove (nginx_site_file domain) in
      let cert_gone = remove (cert_path domain) in
      let key_gone = remove (key_path domain) in
      let htpasswd_gone = remove (htpasswd_file domain) in
      (
        (made k link_gone _ (Makes-Has k link_gone)
              (after_link-Preserves k has_php domain user (Has-IsSteady link_gone))).at
            s,
        (skip k link_gone _ (
              made k file_gone _ (Makes-Has k file_gone)
                (after_file-Preserves k has_php domain user (Has-IsSteady file_gone)))).at
            s,
        (swept (
              made k cert_gone _ (Makes-Has k cert_gone)
                (after_cert-Preserves k has_php domain user (Has-IsSteady cert_gone)))).at
            s,
        (swept (
              skip k cert_gone _ (
                made k key_gone _ (Makes-Has k key_gone)
                  (after_key-Preserves k has_php domain user (Has-IsSteady key_gone))))).at
            s,
        (swept (
              skip k cert_gone _ (
                skip k key_gone _ (
                  made k htpasswd_gone _ (Makes-Has k htpasswd_gone) (
                    after_htpasswd-Preserves k has_php domain user
                      (Has-IsSteady htpasswd_gone)))))).at
            s,
      )
