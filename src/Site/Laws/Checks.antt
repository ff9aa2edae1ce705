-- ===== src/Site/Laws/Checks.antt =====
-- What a passed preflight means.
use aura_cp.Prelude.{
  ◌≡◌, refl, subst, ap, Bool, true, false, List, [], ◌∷◌, Option, none, some, arith, Bytes,
  bytes_eq, Bool-cases, inl, inr, Result, ok, err, fail_if, All, >>=-eq-ok,
}
use aura_cp.Errors.{Error, stale_pool, vhost_exists}
use aura_cp.Validate
use aura_cp.Paths.{nginx_site_file, php_pool_file}
use aura_cp.Os.{Kernel, State, lift, asks, ◌>>=◌}
use aura_cp.Files.Archive.Bound.{bind-ok}
use aura_cp.Site.Spec.{Spec}
use aura_cp.Site.Users.{exists}
use aura_cp.Site.Preflight.{Url, preflight, check_pools}
use aura_cp.Site.Create.{Deps, run_create, run_type, smoke_probe, probe_result, checked_by}

probe_ok : (r : Option Bool) → probe_result r ≡ ok tt → r ≡ some false
probe_ok none h = absurd (ground (arith, h))
probe_ok (some true) h = absurd (ground (arith, h))
probe_ok (some false) h = refl

module _ {W : Type 0} (d : Deps W) where
  module _ (domain : Bytes) where
    probed :
        (s st' : State W)
        → smoke_probe d domain s ≡ (ok tt, st')
        → d.probe domain st'.world ≡ some false
    unfolding asks lift ◌>>=◌
    probed s st' h =
        subst (λ t. d.probe domain t.world ≡ some false) (ap (λ p. p.1) h)
          (probe_ok (d.probe domain s.world) (ap (λ p. p.0) h))

  -- RunCreate succeeds only after the preflight has passed and the new site has answered the probe
  -- with a body that is not empty.
  pub run_create-ok :
      (s : Spec) (st st' : State W)
      → run_create d s st ≡ (ok tt, st')
      → (checked_by d s st.world ≡ ok tt) × (d.probe s.domain st'.world ≡ some false)
  unfolding run_create ◌>>=◌ asks lift
  run_create-ok s st st' h =
      let (_, passed, h₁) =
        bind-ok (lift (checked_by d s st.world)) (λ _. run_type d s >>= λ _. smoke_probe d s.domain)
          st st' h in
      let (_, _, h₂) = bind-ok (run_type d s) (λ _. smoke_probe d s.domain) _ st' h₁ in
      (passed, probed s.domain _ st' h₂)

module _ {W : Type 0} (k : Kernel W) (parse_url : Bytes → Option Url) (w : W) where
  stale : (e : Error) (r : Result Error (Unit {0})) → r ≡ err e → r ≡ ok tt → ⊥
  stale e r g h = ground (arith, g, h)

  not_failed : (b : Bool) (e : Error) (x : Unit {0}) → fail_if b e ≡ ok x → b ≡ false
  not_failed true e x h = ground (arith, h)
  not_failed false e x h = refl

  check_pools-All :
      (domain : Bytes) (vs : List Bytes)
      → check_pools k parse_url w domain vs ≡ ok tt
      → All (λ v. exists (k.stat (php_pool_file v domain) w) ≡ false) vs
  unfolding check_pools
  check_pools-All domain [] h = tt
  check_pools-All domain (v ∷ vs) h =
      elim (Bool-cases (exists (k.stat (php_pool_file v domain) w))) [
        | inl e ↦ absurd (stale stale_pool _ refl (rw e at h))
        | inr e ↦ (e, check_pools-All domain vs (rw e at h))
      ]

  -- A passed preflight means a valid domain and user, no nginx file for the domain, and no pool for
  -- it under any of the installed PHP versions.
  pub preflight-ok :
      (s : Spec) (vs : List Bytes)
      → preflight k parse_url w s (some vs) ≡ ok tt
      → (Validate.domain s.domain ≡ ok tt)
        × (Validate.username s.user ≡ ok tt)
        × (exists (k.stat (nginx_site_file s.domain) w) ≡ false)
        × All (λ v. exists (k.stat (php_pool_file v s.domain) w) ≡ false) vs
  unfolding preflight
  preflight-ok s vs h =
      let (_, _, h₁) = >>=-eq-ok (Validate.site_type s.site_type) _ h in
      let (_, domain_ok, h₂) = >>=-eq-ok (Validate.domain s.domain) _ h₁ in
      let (_, user_ok, h₃) = >>=-eq-ok (Validate.username s.user) _ h₂ in
      let (_, fresh, h₄) =
        >>=-eq-ok (fail_if (exists (k.stat (nginx_site_file s.domain) w)) vhost_exists) _ h₃ in
      let (_, pools, _) = >>=-eq-ok (check_pools k parse_url w s.domain vs) _ h₄ in
      (domain_ok, user_ok, not_failed _ _ _ fresh, check_pools-All s.domain vs pools)
