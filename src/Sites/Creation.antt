-- ===== src/Sites/Creation.antt =====
-- What making a site leaves in the database.
use aura_cp.Prelude.{
  ◌≡◌, refl, sym, ◌∙◌, ◌⊎◌, inl, inr, Bool, true, false, ◌&&◌, not, Option, none, some, Bytes,
  codes, ap, Result, ok, err, ◌==◌, bytes_eq, if◌then◌else◌, ℤ, any, &&-eq-true, bytes_beq_refl,
  bytes_beq_iff,
}
use aura_cp.Rows.Selects.{any-first, first-append}
use aura_cp.Errors.{Error}
use aura_cp.Os.{State, Exec, pure, lift, continue, ◌>>=◌, ◌>>◌}
use aura_cp.Os.Steady.{
  Preserves, Preserves-pure, Preserves-lift, Preserves-if, Preserves-bind, Preserves-guard,
  Preserves-on_error,
}
use aura_cp.Os.Triples.{Triple, After, Triple-bind, Triple-steady, Triple-pure}
use aura_cp.Store.{Site, Tables, site_by_domain, create_site, of_domain}
use aura_cp.Host.{Host, on_machine, query, try_commit, committed}
use aura_cp.Acme.Laws.Tabled.{Tabled, Tabled-on_machine, Tabled-query}
use aura_cp.Sites.{unit_of, Spec, Deps, backend_of, new_site}
use aura_cp.Site.Spec.{is_php}
use aura_cp.Sites.Lifecycle.{
  create, provision, start_backend, start_pool, checked, with_pm2, apply_runtime,
}

-- The record is in the table.
abbrev pub IsRecorded : Site → Tables → Type 0
IsRecorded rec t = site_by_domain rec.domain t ≡ some rec

abbrev Inserted : Site → Option Tables → Type 0
Inserted rec none = Unit {0}
Inserted rec (some t) = IsRecorded rec t

insert-Inserted :
    (rec : Site) (b : Bool) (t u : Tables)
    → (b ≡ false → IsRecorded rec u)
    → Inserted rec (if b then none else some u)
insert-Inserted rec true t u h = tt
insert-Inserted rec false t u h = h refl

create_site-Inserted :
    (s : Spec) (port : ℤ) (up : Bytes) (t : Tables)
    → Inserted (new_site s port up) (create_site (new_site s port up) t)
unfolding create_site site_by_domain new_site
create_site-Inserted s port up t =
    let rec = new_site s port up in
    insert-Inserted rec (any (of_domain s.domain) t.sites) t _ λ absent.
      first-append (of_domain s.domain) t.sites rec (any-first (of_domain s.domain) t.sites absent)
        (bytes_beq_refl s.domain)

module _ {W : Type 0} (d : Deps W) where
  -- The tables are the ones that a method began with.
  abbrev pub Are : Tables → State (Host W) → Type 0
  Are t = Tabled (λ u. u ≡ t)

  -- Create has come to the installation of WordPress in a state whose tables are the ones it began with and the new
  -- record, and that installation fails and leaves the state h.
  abbrev pub FailsInstall : Spec → Tables → State (Host W) → Type 0
  FailsInstall s t h =
      (s.wp_install ≡ true)
      × (s.site_type ≡ codes "wordpress")
      × ((port : ℤ) × (up : Bytes) × (g : State (Host W)) × (backend_of t s ≡ ok (port, up))
          × (create_site (new_site s port up) t ≡ some g.world.tables)
          × ((e : Error) × (on_machine (d.install_wordpress s) g ≡ (err e, h))))

  -- What a failed Create may leave.
  abbrev pub Leaves : Spec → Tables → State (Host W) → Type 0
  Leaves s t h = (h.world.tables ≡ t) ⊎ FailsInstall s t h

  abbrev pub Recorded : Site → State (Host W) → Type 0
  Recorded rec h = IsRecorded rec h.world.tables

  start_pool-Are :
      (t : Tables) (version domain user : Bytes)
      → Preserves (Are t) (start_pool d version domain user)
  unfolding aura_cp.Php.write_site_pool
  start_pool-Are t version domain user =
      Preserves-bind _ _ (Preserves-guard (not d.has_php) _)
        λ x. Preserves-bind _ _ (Tabled-query _) λ text. Tabled-on_machine _

  start_backend-Are :
      (t : Tables) (s : Spec) (port : ℤ) → Preserves (Are t) (start_backend d s port)
  unfolding start_backend
  start_backend-Are t s port =
      let pool = start_pool-Are t s.php_version s.domain s.user in
      let node : Preserves (Are t)
          (on_machine (with_pm2 d s.use_pm2 s.node_version >> apply_runtime d (unit_of s port))) =
        Tabled-on_machine _ in
      let python : Preserves (Are t) (on_machine (apply_runtime d (unit_of s port))) =
        Tabled-on_machine _ in
      let none_needed : Preserves (Are t) (pure tt) = Preserves-pure tt in
      Preserves-if (is_php s.site_type) _ _ pool (
        Preserves-if (s.site_type == codes "nodejs") _ _ node
          (Preserves-if (s.site_type == codes "python") _ _ python none_needed))

  provision-Are :
      (t : Tables) (s : Spec) (port : ℤ) (up : Bytes) → Preserves (Are t) (provision d s port up)
  unfolding provision
  provision-Are t s port up = Preserves-bind _ _ (Tabled-on_machine _) λ x.
      Preserves-bind _ _ (Preserves-on_error _ _ (start_backend-Are t s port) (Tabled-on_machine _))
        λ y.
          Preserves-on_error _ _ (Tabled-on_machine _)
            (Preserves-bind _ _ (Tabled-on_machine _) λ z. Tabled-on_machine _)

  -- The tables are the ones that Create began with and the record.
  abbrev Inserts : Site → Tables → State (Host W) → Type 0
  Inserts rec t h = Recorded rec h × (create_site rec t ≡ some h.world.tables)

  committed-After :
      (rec : Site) (s : Spec) (t : Tables) (o : Option Tables) (h : State (Host W))
      → create_site rec t ≡ o
      → Inserted rec o
      → h.world.tables ≡ t
      → After (λ x. Inserts rec t) (Leaves s t) (committed o h).0 (committed o h).1
  committed-After rec s t none h made i same = inl same
  committed-After rec s t (some u) h made i same = (i, made)

  insert-Triple :
      (s : Spec) (t : Tables) (port : ℤ) (up : Bytes)
      → Triple
          (Are t)
          (λ x. Inserts (new_site s port up) t)
          (Leaves s t)
          (try_commit (create_site (new_site s port up)))
  unfolding try_commit
  insert-Triple s t port up = record {
    at = λ h are.
        committed-After (new_site s port up) s t (create_site (new_site s port up) h.world.tables) h
          (ap (create_site (new_site s port up)) (sym are.holds))
          (create_site-Inserted s port up h.world.tables) are.holds;
  }

  Recorded-on_machine :
      {A : Type 0} (rec : Site) (m : Exec W A) → Preserves (Recorded rec) (on_machine m)
  unfolding on_machine
  Recorded-on_machine rec m = record { at = λ s e. e }

  installed-After :
      (s : Spec) (t : Tables) (rec : Site) (r : Result Error (Unit {0}) × State (Host W))
      → Recorded rec r.1
      → ((e : Error) → r.0 ≡ err e → FailsInstall s t r.1)
      → After (λ x. Recorded rec) (Leaves s t) r.0 r.1
  installed-After s t rec (ok x, h) there failed = there
  installed-After s t rec (err e, h) there failed = inr (failed e refl)

  paired_err :
      (r : Result Error (Unit {0}) × State (Host W)) (e : Error) → r.0 ≡ err e → r ≡ (err e, r.1)
  paired_err r e same = ap (λ x. (x, r.1)) same

  wordpress-Triple :
      (s : Spec) (t : Tables) (port : ℤ) (up : Bytes)
      → backend_of t s ≡ ok (port, up)
      → (wanted : Bool)
      → (wanted ≡ true → (s.wp_install ≡ true) × (s.site_type ≡ codes "wordpress"))
      → Triple
          (Inserts (new_site s port up) t)
          (λ x. Recorded (new_site s port up))
          (Leaves s t)
          (if wanted then on_machine (d.install_wordpress s) else pure tt)
  wordpress-Triple s t port up backend true wp = record {
    at = λ h here.
        let install = on_machine (d.install_wordpress s) in
        installed-After s t (new_site s port up) (install h)
          ((Recorded-on_machine (new_site s port up) (d.install_wordpress s)).at h here.0)
          (λ e failed.
            let (asked, word) = wp refl in
            (asked, word, (port, up, h, backend, here.1, (e, paired_err (install h) e failed))));
  }
  wordpress-Triple s t port up backend false wp = Triple-pure tt λ h here. here.0

  new_site-domain : (s : Spec) (port : ℤ) (up : Bytes) → (new_site s port up).domain ≡ s.domain
  unfolding new_site
  new_site-domain s port up = refl

  wanted_of :
      (s : Spec)
      → (s.wp_install && s.site_type == codes "wordpress") ≡ true
      → (s.wp_install ≡ true) × (s.site_type ≡ codes "wordpress")
  wanted_of s both =
      let (asked, word) = &&-eq-true s.wp_install (s.site_type == codes "wordpress") both in
      (asked, (bytes_beq_iff s.site_type (codes "wordpress")).0 word)

  Triple-query :
      {A B : Type 0} {Q : B → State (Host W) → Type 0} {F : State (Host W) → Type 0}
      (f : Tables → A) (g : A → Exec (Host W) B) (t : Tables)
      → ((u : Tables) → u ≡ t → Triple (Are t) Q F (g (f u)))
      → Triple (Are t) Q F (query f >>= g)
  unfolding query ◌>>=◌
  Triple-query f g t tg = record { at = λ h are. (tg h.world.tables are.holds).at h are }

  lifted-After :
      {A B : Type 0} {P : State (Host W) → Type 0} {Q : B → State (Host W) → Type 0}
      {F : State (Host W) → Type 0} (r : Result Error A) (g : A → Exec (Host W) B)
      → ((h : State (Host W)) → P h → F h)
      → ((a : A) → r ≡ ok a → Triple P Q F (g a))
      → (h : State (Host W)) → P h
      → After Q F (continue r g h).0 (continue r g h).1
  lifted-After (ok a) g pf tg h p = (tg a refl).at h p
  lifted-After (err e) g pf tg h p = pf h p

  Triple-lift :
      {A B : Type 0} {P : State (Host W) → Type 0} {Q : B → State (Host W) → Type 0}
      {F : State (Host W) → Type 0} (r : Result Error A) (g : A → Exec (Host W) B)
      → ((h : State (Host W)) → P h → F h)
      → ((a : A) → r ≡ ok a → Triple P Q F (g a))
      → Triple P Q F (lift r >>= g)
  unfolding lift ◌>>=◌
  Triple-lift r g pf tg = record { at = λ h p. lifted-After r g pf tg h p }

  create-Triple :
      (s : Spec) (t : Tables)
      → Triple (Are t) (λ rec h. (rec.domain ≡ s.domain) × Recorded rec h) (Leaves s t) (create d s)
  unfolding create
  create-Triple s t =
      let P = Are t in
      let untouched : (h : State (Host W)) → P h → Leaves s t h = λ h are. inl are.holds in
      Triple-bind (λ x. P) _ _ _ (Triple-steady _ untouched (Preserves-lift (checked d s)))
        λ x.
          Triple-query (λ u. backend_of u s) _ t
            λ u same. Triple-lift (backend_of u s) _ untouched λ pair found.
              let (port, up) = pair in
              Triple-bind (λ y. P) _ _ _ (Triple-steady _ untouched (provision-Are t s port up))
                λ y.
                  Triple-bind (λ z. Inserts (new_site s port up) t) _ _ _
                    (insert-Triple s t port up)
                    λ z.
                      Triple-bind (λ w. Recorded (new_site s port up)) _ _ _
                        (wordpress-Triple s t port up (ap (λ v. backend_of v s) (sym same) ∙ found)
                          (s.wp_install && s.site_type == codes "wordpress") (wanted_of s))
                        λ w. Triple-pure _ λ h e. (new_site-domain s port up, e)

  -- When Create succeeds, the table has the record that it returns, under the domain of the request. When it
  -- fails, the tables are as before; or the request asked for WordPress, Create had come to its installation with
  -- the record inserted and nothing else changed in the tables, and the state is the one in which that
  -- installation has failed.
  pub create_lem :
      (s : Spec) (h : State (Host W))
      → After
          (λ rec g. (rec.domain ≡ s.domain) × Recorded rec g)
          (Leaves s h.world.tables)
          (create d s h).0
          (create d s h).1
  create_lem s h = (create-Triple s h.world.tables).at h (record { holds = refl })
