-- ===== src/Site/Laws/Recreate.antt =====
-- A domain whose site has been deleted is free again.
use aura_cp.Prelude.{
  ◌≡◌, refl, ap, ◌∙◌, ◌⊎◌, inl, inr, true, false, List, [], ◌∷◌, Option, none, Bytes, ok, All,
  codes, keep, subst, Bool, Bool-cases, Option-cases,
}
use aura_cp.Filepath.{join_path}
use aura_cp.Paths.{nginx_site_file, nginx_site_link, php_pool_file}
use aura_cp.Os.{Call, remove, Kernel, State, pure, asks, each, ◌>>=◌}
use aura_cp.Os.Steady.{Makes, Preserves-each, Makes-before, Makes-after}
use aura_cp.Os.Logged.{Absent, Preserves-Absent, Makes-Absent, Preserves-world}
use aura_cp.Site.Users.{exists}
use aura_cp.Site.Pools.{installed, supported_versions}
use aura_cp.Rows.Laws.{keep-true, keep-false}
use aura_cp.Site.Preflight.{Url, check_pools}
use aura_cp.Site.Delete.{drop_pool_file, sweep_pool, sweep_pools, run_delete}
use aura_cp.Site.Laws.Sweep.{
  IsStep, pool_reload, IsSteady, stepping, sweep_pool-Succeeds, sweep_pool-Preserves,
  after_pools-Preserves, after_file-Preserves, made, skip,
}

abbrev pub Elem : Bytes → List Bytes → Type 0
Elem v [] = ⊥
Elem v (u ∷ us) = (u ≡ v) ⊎ Elem v us

All-Elem : (Q : Bytes → Type 0) (us : List Bytes) → ((v : Bytes) → Elem v us → Q v) → All Q us
All-Elem Q [] f = tt
All-Elem Q (u ∷ us) f = (f u (inl refl), All-Elem Q us (λ v m. f v (inr m)))

Elem-keep : (f : Bytes → Bool) (v : Bytes) (us : List Bytes) → Elem v (keep f us) → Elem v us
unfolding keep
Elem-keep f v [] m = m
Elem-keep f v (u ∷ us) m = elim (Bool-cases (f u)) [
  | inl e ↦ elim (subst (Elem v) (keep-true f u us e) m) [
    | inl same ↦ inl same
    | inr rest ↦ inr (Elem-keep f v us rest)
  ]
  | inr e ↦ inr (Elem-keep f v us (subst (Elem v) (keep-false f u us e) m))
]

installed-Elem :
    {W : Type 0} (k : Kernel W) (v : Bytes) (w : W)
    → Elem v (installed k w)
    → Elem v supported_versions
unfolding installed
installed-Elem k v w m =
    Elem-keep
      (λ u.
        exists (k.stat (join_path (codes "/etc/php" ∷ u ∷ codes "fpm" ∷ codes "pool.d" ∷ [])) w))
      v supported_versions m

absent-exists : {A : Type 0} (o : Option A) → o ≡ none → exists o ≡ false
absent-exists o h = ap exists h

-- Where a preflight looks for leftovers of a site.
abbrev pub IsLeftover : (domain p : Bytes) → Type 0
IsLeftover domain p = (p ≡ nginx_site_file domain) ⊎ ((v : Bytes) × (p ≡ php_pool_file v domain))

-- How the machine behaves, as far as deleting the site of a domain needs it: removing the site's nginx file or
-- one of its pools works, and none of the calls that RunDelete makes for the site puts an nginx file or a pool of
-- it where there was none, or changes which PHP versions are installed.
pub record Removes {W : Type 0} (k : Kernel W) (domain user : Bytes) : Type 0 where
  pub gone_file :
      (w : W) → k.stat (nginx_site_file domain) (k.act (remove (nginx_site_file domain)) w).1 ≡ none
  pub gone_pool :
      (v : Bytes)
      → Elem v supported_versions
      → (w : W)
      → k.stat (php_pool_file v domain) (k.act (remove (php_pool_file v domain)) w).1 ≡ none
  pub stays_gone :
      (c : Call)
      → IsStep domain user c
      → (p : Bytes) → IsLeftover domain p
      → (w : W) → k.stat p w ≡ none
      → k.stat p (k.act c w).1 ≡ none
  pub same_versions :
      (c : Call) → IsStep domain user c → (w : W) → installed k (k.act c w).1 ≡ installed k w

module _ {W : Type 0} (k : Kernel W) (domain user : Bytes) (r : Removes k domain user) where
  Absent-IsSteady : (p : Bytes) → IsLeftover domain p → IsSteady k domain user (Absent k p)
  Absent-IsSteady p left c step = Preserves-Absent k p c (r.stays_gone c step p left)

  abbrev pool : Bytes → Bytes
  pool v = php_pool_file v domain

  pool-IsSteady : (v : Bytes) → IsSteady k domain user (Absent k (pool v))
  pool-IsSteady v = Absent-IsSteady (pool v) (inr (v, refl))

  -- The installed versions are these.
  abbrev Installed : List Bytes → State W → Type 0
  Installed vs s = installed k s.world ≡ vs

  Installed-IsSteady : (vs : List Bytes) → IsSteady k domain user (Installed vs)
  Installed-IsSteady vs c step =
      Preserves-world k c (λ w. installed k w ≡ vs) (λ w e. r.same_versions c step w ∙ e)

  drop-Makes :
      (v : Bytes)
      → Elem v supported_versions
      → Makes (Absent k (pool v)) (drop_pool_file k domain v)
  drop-Makes v m =
      made k (remove (pool v)) _ (Makes-Absent k (pool v) (r.gone_pool v m))
        (stepping k domain user (pool-IsSteady v) (pool_reload v))

  sweep_pool-Makes :
      (v : Bytes) → Elem v supported_versions → Makes (Absent k (pool v)) (sweep_pool k domain v)
  unfolding sweep_pool ◌>>=◌ asks pure
  sweep_pool-Makes v m = record {
    at = λ s. elim (Option-cases (k.stat (pool v) s.world)) [
      | inl e ↦ rw e e
      | inr (i, e) ↦ rw e ((drop-Makes v m).at s)
    ];
  }

  each-Makes :
      (v : Bytes)
      → Elem v supported_versions
      → (us : List Bytes) → Elem v us
      → Makes (Absent k (pool v)) (each (sweep_pool k domain) us)
  unfolding each
  each-Makes v m [] l = elim l [ ]
  each-Makes v m (u ∷ us) (inl e) = rw e (
      Makes-before (sweep_pool k domain v) _ (sweep_pool-Makes v m) (λ _.
        Preserves-each (sweep_pool k domain) (sweep_pool-Preserves k domain user (pool-IsSteady v))
          us))
  each-Makes v m (u ∷ us) (inr l) =
      Makes-after (sweep_pool k domain u) tt _ (sweep_pool-Succeeds k domain u)
        (each-Makes v m us l)

  -- Every installed version is without a pool of the site.
  abbrev HasNoPool : State W → Type 0
  HasNoPool s = All (λ v. Absent k (pool v) s) (installed k s.world)

  kept :
      (c : Call) (step : IsStep domain user c) (w : W) (us : List Bytes)
      → All (λ v. k.stat (pool v) w ≡ none) us
      → All (λ v. k.stat (pool v) (k.act c w).1 ≡ none) us
  kept c step w [] h = tt
  kept c step w (u ∷ us) (e, h) =
      (r.stays_gone c step (pool u) (inr (u, refl)) w e, kept c step w us h)

  HasNoPool-IsSteady : IsSteady k domain user HasNoPool
  HasNoPool-IsSteady c step =
      Preserves-world k c (λ w. All (λ v. k.stat (pool v) w ≡ none) (installed k w))
        (λ w h. rw (r.same_versions c step w) (kept c step w (installed k w) h))

  pools-Makes : Makes HasNoPool (sweep_pools k true domain)
  unfolding sweep_pools ◌>>=◌ asks
  pools-Makes = record {
    at = λ s.
        let vs = installed k s.world in
        let sweep = each (sweep_pool k domain) vs in
        let still : installed k (sweep s).1.world ≡ vs =
          (Preserves-each (sweep_pool k domain)
              (sweep_pool-Preserves k domain user (Installed-IsSteady vs)) vs).at
            s refl in
        rw still (
          All-Elem (λ v. Absent k (pool v) (sweep s).1) vs
            (λ v m. (each-Makes v (installed-Elem k v s.world m) vs m).at s));
  }

  file_free : Makes (Absent k (nginx_site_file domain)) (run_delete k true domain user)
  unfolding run_delete
  file_free = skip k (remove (nginx_site_link domain)) _ (
      made k (remove (nginx_site_file domain)) _
        (Makes-Absent k (nginx_site_file domain) r.gone_file)
        (after_file-Preserves k true domain user
          (Absent-IsSteady (nginx_site_file domain) (inl refl))))

  pools_free : Makes HasNoPool (run_delete k true domain user)
  unfolding run_delete
  pools_free = skip k (remove (nginx_site_link domain)) _ (
      skip k (remove (nginx_site_file domain)) _ (
        Makes-before (sweep_pools k true domain) _ pools-Makes
          (λ _. after_pools-Preserves k true domain user HasNoPool-IsSteady)))

  check_pools-ok :
      (parse_url : Bytes → Option Url) (w : W) (us : List Bytes)
      → All (λ v. k.stat (pool v) w ≡ none) us
      → check_pools k parse_url w domain us ≡ ok tt
  unfolding check_pools
  check_pools-ok parse_url w [] h = refl
  check_pools-ok parse_url w (u ∷ us) (e, h) =
      rw (absent-exists (k.stat (pool u) w) e) (check_pools-ok parse_url w us h)

  -- Where removing the site's nginx file and its pools works, and none of RunDelete's own calls for the site
  -- puts such a file there or changes which PHP versions are installed, a preflight for the domain of a
  -- site that has just been deleted finds neither an nginx file nor, under an installed version, a pool of it.
  pub run_delete-free :
      (parse_url : Bytes → Option Url) (s : State W)
      → let w = (run_delete k true domain user s).1.world in
        (exists (k.stat (nginx_site_file domain) w) ≡ false)
        × (check_pools k parse_url w domain (installed k w) ≡ ok tt)
  run_delete-free parse_url s =
      (absent-exists _ (file_free.at s), check_pools-ok parse_url _ _ (pools_free.at s))
