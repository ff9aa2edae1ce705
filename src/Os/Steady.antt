-- ===== src/Os/Steady.antt =====
-- Methods that keep a predicate of the state, methods that always bring it about, and methods that
-- never fail.
use aura_cp.Prelude.{
  ◌≡◌, refl, ap, Bool, true, false, List, [], ◌∷◌, Result, ok, err, if◌then◌else◌,
}
use aura_cp.Errors.{Error}
use aura_cp.Os.{
  Call, Kernel, State, Exec, pure, lift, asks, ◌>>=◌, perform, attempt, ignored, or_try, or_again,
  each, continue, relabel, on_error, or_clean, guard,
}

module _ {W A : Type 0} where
  pub record Preserves (P : State W → Type 0) (m : Exec W A) : Type 0 where
    pub at : (s : State W) → P s → P (m s).1

  pub record Makes (P : State W → Type 0) (m : Exec W A) : Type 0 where
    pub at : (s : State W) → P (m s).1

  pub record Succeeds (m : Exec W A) (a : A) : Type 0 where
    pub at : (s : State W) → (m s).0 ≡ ok a

module _ {W A : Type 0} {P : State W → Type 0} where
  pub Preserves-pure : (a : A) → Preserves P (pure a)
  unfolding pure
  Preserves-pure a = record { at = λ s h. h }

  pub Preserves-lift : (r : Result Error A) → Preserves P (lift r)
  unfolding lift
  Preserves-lift r = record { at = λ s h. h }

  pub Preserves-asks : (f : W → A) → Preserves P (asks f)
  unfolding asks
  Preserves-asks f = record { at = λ s h. h }

  pub Preserves-relabel : (e : Error) (m : Exec W A) → Preserves P m → Preserves P (relabel e m)
  unfolding relabel
  Preserves-relabel e m km = record { at = λ s h. km.at s h }

  clean-Preserves :
      (r : Result Error A) (c : Exec W (Unit {0}))
      → Preserves P c
      → (s : State W) → P s
      → P (or_clean r c s).1
  clean-Preserves (ok a) c kc s h = h
  clean-Preserves (err e) c kc s h = kc.at s h

  pub Preserves-on_error :
      (m : Exec W A) (c : Exec W (Unit {0}))
      → Preserves P m
      → Preserves P c
      → Preserves P (on_error m c)
  unfolding on_error
  Preserves-on_error m c km kc = record {
    at = λ s h. let (r, s') = m s in clean-Preserves r c kc s' (km.at s h);
  }

  pub Preserves-if :
      (b : Bool) (m n : Exec W A) → Preserves P m → Preserves P n → Preserves P (if b then m else n)
  Preserves-if true m n km kn = km
  Preserves-if false m n km kn = kn

module _ {W A : Type 0} {P : State W → Type 0} where
  pub Makes-on_error :
      (m : Exec W A) (c : Exec W (Unit {0})) → Makes P m → Preserves P c → Makes P (on_error m c)
  unfolding on_error
  Makes-on_error m c mm kc = record {
    at = λ s. let (r, s') = m s in clean-Preserves r c kc s' (mm.at s);
  }

module _ {W A B : Type 0} {P : State W → Type 0} where
  continue-Preserves :
      (r : Result Error A) (f : A → Exec W B)
      → ((a : A) → Preserves P (f a))
      → (s : State W) → P s
      → P (continue r f s).1
  continue-Preserves (ok a) f kf s h = (kf a).at s h
  continue-Preserves (err e) f kf s h = h

  pub Preserves-bind :
      (m : Exec W A) (f : A → Exec W B)
      → Preserves P m
      → ((a : A) → Preserves P (f a))
      → Preserves P (m >>= f)
  unfolding ◌>>=◌
  Preserves-bind m f km kf = record {
    at = λ s h. let (r, s') = m s in continue-Preserves r f kf s' (km.at s h);
  }

  pub Makes-before :
      (m : Exec W A) (f : A → Exec W B)
      → Makes P m
      → ((a : A) → Preserves P (f a))
      → Makes P (m >>= f)
  unfolding ◌>>=◌
  Makes-before m f km kf = record {
    at = λ s. let (r, s') = m s in continue-Preserves r f kf s' (km.at s);
  }

  pub Makes-asks :
      (q : W → A) (f : A → Exec W B) → ((a : A) → Makes P (f a)) → Makes P (asks q >>= f)
  unfolding ◌>>=◌ asks
  Makes-asks q f mf = record { at = λ s. (mf (q s.world)).at s }

continue_ok :
    {W A B : Type 0} (r : Result Error A) (a : A) (f : A → Exec W B) (s : State W)
    → r ≡ ok a
    → continue r f s ≡ f a s
continue_ok r a f s h = ap (λ q. continue q f s) h

module _ {W A B : Type 0} (m : Exec W A) (a : A) (f : A → Exec W B) (sm : Succeeds m a) where
  pub Makes-after : {P : State W → Type 0} → Makes P (f a) → Makes P (m >>= f)
  unfolding ◌>>=◌
  Makes-after {P} mf = record {
    at = λ s. rw (continue_ok (m s).0 a f (m s).1 (sm.at s)) (mf.at (m s).1);
  }

  pub Succeeds-bind : (b : B) → Succeeds (f a) b → Succeeds (m >>= f) b
  unfolding ◌>>=◌
  Succeeds-bind b sf = record {
    at = λ s. rw (continue_ok (m s).0 a f (m s).1 (sm.at s)) (sf.at (m s).1);
  }

module _ {W A B : Type 0} where
  pub Succeeds-asks :
      (q : W → A) (f : A → Exec W B) (b : B)
      → ((a : A) → Succeeds (f a) b)
      → Succeeds (asks q >>= f) b
  unfolding ◌>>=◌ asks
  Succeeds-asks q f b sf = record { at = λ s. (sf (q s.world)).at s }

module _ {W : Type 0} {P : State W → Type 0} where
  pub Preserves-guard : (b : Bool) (e : Error) → Preserves P (guard b e)
  unfolding guard
  Preserves-guard true e = record { at = λ s h. h }
  Preserves-guard false e = record { at = λ s h. h }

  -- The rest of the block may use that the guard let it through.
  pub Preserves-guarded :
      {A : Type 0} (b : Bool) (e : Error) (f : Unit {0} → Exec W A)
      → (b ≡ false → Preserves P (f tt))
      → Preserves P (guard b e >>= f)
  unfolding ◌>>=◌ guard
  Preserves-guarded true e f kf = record { at = λ s h. h }
  Preserves-guarded false e f kf = kf refl

  pub Preserves-ignored : (m : Exec W (Unit {0})) → Preserves P m → Preserves P (ignored m)
  unfolding ignored
  Preserves-ignored m km = record { at = λ s h. km.at s h }

  again-Preserves :
      (r : Result Error (Unit {0})) (n : Exec W (Unit {0}))
      → Preserves P n
      → (s : State W) → P s
      → P (or_again r n s).1
  again-Preserves (ok a) n kn s h = h
  again-Preserves (err e) n kn s h = kn.at s h

  pub Preserves-or_try :
      (m n : Exec W (Unit {0})) → Preserves P m → Preserves P n → Preserves P (or_try m n)
  unfolding or_try
  Preserves-or_try m n km kn = record {
    at = λ s h. let (r, s') = m s in again-Preserves r n kn s' (km.at s h);
  }

  pub Preserves-each :
      {T : Type 0} (f : T → Exec W (Unit {0}))
      → ((x : T) → Preserves P (f x))
      → (xs : List T) → Preserves P (each f xs)
  unfolding each
  Preserves-each f kf [] = Preserves-pure tt
  Preserves-each f kf (x ∷ xs) =
      Preserves-bind (f x) (λ _. each f xs) (kf x) (λ _. Preserves-each f kf xs)

  pub Preserves-attempt :
      (k : Kernel W) (b : Call) → Preserves P (perform k b) → Preserves P (attempt k b)
  unfolding attempt
  Preserves-attempt k b kb = record { at = λ s h. kb.at s h }

module _ {W : Type 0} where
  pub Succeeds-pure : Succeeds {W = W} (pure tt) tt
  unfolding pure
  Succeeds-pure = record { at = λ s. refl }

  pub Succeeds-if :
      (b : Bool) (m n : Exec W (Unit {0}))
      → Succeeds m tt
      → Succeeds n tt
      → Succeeds (if b then m else n) tt
  Succeeds-if true m n sm sn = sm
  Succeeds-if false m n sm sn = sn

  pub Succeeds-each :
      {T : Type 0} (f : T → Exec W (Unit {0}))
      → ((x : T) → Succeeds (f x) tt)
      → (xs : List T) → Succeeds (each f xs) tt
  unfolding each
  Succeeds-each f sf [] = Succeeds-pure
  Succeeds-each f sf (x ∷ xs) =
      Succeeds-bind (f x) tt (λ _. each f xs) (sf x) tt (Succeeds-each f sf xs)

  pub Succeeds-attempt : (k : Kernel W) (b : Call) → Succeeds (attempt k b) tt
  unfolding attempt
  Succeeds-attempt k b = record { at = λ s. refl }
