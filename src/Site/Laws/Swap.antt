-- ===== src/Site/Laws/Swap.antt =====
-- Putting a new nginx configuration in place.
use aura_cp.Prelude.{
  ◌≡◌, refl, ap, arith, ◌⊎◌, inl, inr, Bool, true, false, List, Option, none, some, Bytes, Result,
  ok, err,
}
use aura_cp.Errors.{Error, os_error, nginx_invalid}
use aura_cp.Paths.{nginx_site_link}
use aura_cp.Os.{
  Call, remove, symlink, run, Kernel, State, Exec, perform, noted, on_error, relabel, renamed,
  or_clean, continue, ◌>>=◌,
}
use aura_cp.Os.Confined.{
  Confined, Confined-pure, Confined-bind, Confined-bind_asks, Confined-on_error, Confined-relabel,
  Confined-perform, Confined-attempt,
}
use aura_cp.Site.Users.{command}
use aura_cp.Site.Steps.{nginx_test, staged, previous, relink, roll_back, swap_vhost}

-- Calls that leave the site's live configuration file alone and touch only its link and the staged copy.
abbrev pub IsStaging : Bytes → Call → Type 0
IsStaging domain (remove p) = (p ≡ nginx_site_link domain) ⊎ (p ≡ staged domain)
IsStaging domain (symlink target link) = link ≡ nginx_site_link domain
IsStaging domain (run argv) = argv ≡ nginx_test
IsStaging domain c = ⊥

-- A method that fails in every state.
pub record Fails {W A : Type 0} (m : Exec W A) : Type 0 where
  pub at : (s : State W) → (e : Error) × ((m s).0 ≡ err e)

module _ {W A B : Type 0} where
  continue-err :
      (r : Result Error A) (e : Error) (f : A → Exec W B) (s : State W)
      → r ≡ err e
      → continue r f s ≡ (err e, s)
  continue-err r e f s h = ap (λ q. continue q f s) h

  Fails-first : (m : Exec W A) (f : A → Exec W B) → Fails m → Fails (m >>= f)
  unfolding ◌>>=◌
  Fails-first m f fm = record {
    at = λ s. let (e, h) = fm.at s in (e, ap (λ p. p.0) (continue-err (m s).0 e f (m s).1 h));
  }

  continue-Fails :
      (r : Result Error A) (f : A → Exec W B)
      → ((a : A) → Fails (f a))
      → (s : State W) → (e : Error) × ((continue r f s).0 ≡ err e)
  continue-Fails (ok a) f ff s = (ff a).at s
  continue-Fails (err e) f ff s = (e, refl)

  Fails-bind : (m : Exec W A) (f : A → Exec W B) → ((a : A) → Fails (f a)) → Fails (m >>= f)
  unfolding ◌>>=◌
  Fails-bind m f ff = record { at = λ s. continue-Fails (m s).0 f ff (m s).1 }

  Confined-bind-Fails :
      {P : Call → Type 0} (m : Exec W A) (f : A → Exec W B)
      → Confined P m
      → Fails m
      → Confined P (m >>= f)
  unfolding ◌>>=◌
  Confined-bind-Fails {P} m f km fm = record {
    at = λ s h. let (e, fails) = fm.at s in rw (continue-err (m s).0 e f (m s).1 fails) (km.at s h);
  }

module _ {W A : Type 0} where
  Fails-on_error : (m : Exec W A) (c : Exec W (Unit {0})) → Fails m → Fails (on_error m c)
  unfolding on_error
  Fails-on_error m c fm = record {
    at = λ s. let (e, h) = fm.at s in (e, ap (λ r. (or_clean r c (m s).1).0) h);
  }

  Fails-relabel : (e : Error) (m : Exec W A) → Fails m → Fails (relabel e m)
  unfolding relabel
  Fails-relabel e m fm = record { at = λ s. (e, ap (renamed e) (fm.at s).1) }

module _ {W : Type 0} (k : Kernel W) (domain : Bytes) where
  relink-Confined :
      (prev : Option Bytes) → Confined (IsStaging domain) (relink k prev (nginx_site_link domain))
  relink-Confined none = Confined-pure tt
  relink-Confined (some target) = Confined-attempt k (symlink target (nginx_site_link domain)) refl

  roll_back-Confined : (prev : Option Bytes) → Confined (IsStaging domain) (roll_back k domain prev)
  unfolding roll_back
  roll_back-Confined prev =
      Confined-bind _ _ (Confined-attempt k (remove (nginx_site_link domain)) (inl refl)) λ _.
        Confined-bind _ _ (relink-Confined prev)
          λ _. Confined-attempt k (remove (staged domain)) (inr refl)

  module _ (refused : (w : W) → (k.act (run nginx_test) w).0 ≡ false) where
    noted-fails :
        (log : List Call) (p : Bool × W)
        → p.0 ≡ false
        → (noted k (run nginx_test) log p).0 ≡ err os_error
    unfolding noted
    noted-fails log (true, w) h = absurd (ground (arith, h))
    noted-fails log (false, w) h = refl

    test-Fails : Fails (command k nginx_test)
    unfolding perform
    test-Fails = record {
      at = λ s. (os_error, noted-fails s.log (k.act (run nginx_test) s.world) (refused s.world));
    }

    tested : (prev : Option Bytes) → Exec W (Unit {0})
    tested prev = relabel nginx_invalid (on_error (command k nginx_test) (roll_back k domain prev))

    tested-Confined : (prev : Option Bytes) → Confined (IsStaging domain) (tested prev)
    unfolding tested
    tested-Confined prev =
        Confined-relabel nginx_invalid _ (
          Confined-on_error _ _ (Confined-perform k (run nginx_test) refl)
            (roll_back-Confined prev))

    tested-Fails : (prev : Option Bytes) → Fails (tested prev)
    unfolding tested
    tested-Fails prev = Fails-relabel nginx_invalid _ (Fails-on_error _ _ test-Fails)

    -- When `nginx -t` fails in every state, putting a new configuration in place fails, and it has
    -- only moved the site's link and removed the staged copy: the live configuration file is as it was.
    pub swap_vhost-refused :
        Confined (IsStaging domain) (swap_vhost k domain) × Fails (swap_vhost k domain)
    unfolding swap_vhost tested
    swap_vhost-refused = (
      Confined-bind_asks (previous k (nginx_site_link domain)) _ (λ s.
          Confined-bind _ _ (Confined-attempt k (remove (nginx_site_link domain)) (inl refl)) λ _.
            Confined-bind _ _
              (Confined-on_error _ _
                (Confined-perform k (symlink (staged domain) (nginx_site_link domain)) refl)
                (Confined-attempt k (remove (staged domain)) (inr refl)))
              λ _.
                Confined-bind-Fails _ _
                  (tested-Confined (previous k (nginx_site_link domain) s.world)) (tested-Fails _)),
      Fails-bind _ _
          (λ prev. Fails-bind _ _ (λ _. Fails-bind _ _ (λ _. Fails-first _ _ (tested-Fails prev)))),
    )
