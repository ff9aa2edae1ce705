-- ===== src/Os/Confined.antt =====
-- Which calls a method makes: rules, one for each way to build a method.
use aura_cp.Prelude.{
  ◌≡◌, refl, Bool, true, false, List, [], ◌∷◌, Result, ok, err, All, Option, none, some,
  if◌then◌else◌, Option, none, some,
}
use aura_cp.Errors.{Error}
use aura_cp.Os.{
  Call, Kernel, State, Exec, pure, raise, lift, asks, guard, ◌>>=◌, on_error, perform, attempt,
  noted, need, ignored, each, continue, or_clean, relabel, or_try, or_again,
}

-- Every call that the method makes satisfies P, whether it returns or fails.
pub record Confined {W A : Type 0} (P : Call → Type 0) (m : Exec W A) : Type 0 where
  pub at : (s : State W) → All P s.log → All P (m s).1.log

module _ {W A : Type 0} {P : Call → Type 0} where
  pub Confined-pure : (a : A) → Confined {W = W} P (pure a)
  unfolding pure
  Confined-pure a = record { at = λ s h. h }

  pub Confined-raise : (e : Error) → Confined {W = W} {A = A} P (raise e)
  unfolding raise
  Confined-raise e = record { at = λ s h. h }

  pub Confined-lift : (r : Result Error A) → Confined {W = W} P (lift r)
  unfolding lift
  Confined-lift r = record { at = λ s h. h }

  pub Confined-asks : (f : W → A) → Confined P (asks f)
  unfolding asks
  Confined-asks f = record { at = λ s h. h }

  pub Confined-if :
      (b : Bool) (m n : Exec W A)
      → (b ≡ true → Confined P m)
      → (b ≡ false → Confined P n)
      → Confined P (if b then m else n)
  Confined-if true m n km kn = km refl
  Confined-if false m n km kn = kn refl

module _ {W A B : Type 0} {P : Call → Type 0} where
  continue-Confined :
      (r : Result Error A) (f : A → Exec W B)
      → ((a : A) → r ≡ ok a → Confined P (f a))
      → (s : State W) → All P s.log
      → All P (continue r f s).1.log
  continue-Confined (ok a) f kf s h = (kf a refl).at s h
  continue-Confined (err e) f kf s h = h

  pub Confined-bind :
      (m : Exec W A) (f : A → Exec W B)
      → Confined P m
      → ((a : A) → Confined P (f a))
      → Confined P (m >>= f)
  unfolding ◌>>=◌
  Confined-bind m f km kf = record {
    at = λ s h. let (r, s') = m s in continue-Confined r f (λ a _. kf a) s' (km.at s h);
  }

  -- The rest of the block may use what a pure step returned.
  pub Confined-bind_lift :
      (r : Result Error A) (f : A → Exec W B)
      → ((a : A) → r ≡ ok a → Confined P (f a))
      → Confined P (lift r >>= f)
  unfolding ◌>>=◌ lift
  Confined-bind_lift r f kf = record { at = continue-Confined r f kf }

  pub Confined-bind_asks :
      (q : W → A) (f : A → Exec W B)
      → ((s : State W) → Confined P (f (q s.world)))
      → Confined P (asks q >>= f)
  unfolding ◌>>=◌ asks
  Confined-bind_asks q f kf = record { at = λ s h. (kf s).at s h }

module _ {W A : Type 0} {P : Call → Type 0} where
  -- The rest of the block may use that the guard let it through.
  pub Confined-guard :
      (b : Bool) (e : Error) (f : Unit {0} → Exec W A)
      → (b ≡ false → Confined P (f tt))
      → Confined P (guard b e >>= f)
  unfolding ◌>>=◌ guard
  Confined-guard true e f kf = record { at = λ s h. h }
  Confined-guard false e f kf = kf refl

  or_clean-Confined :
      (r : Result Error A) (c : Exec W (Unit {0}))
      → Confined P c
      → (s : State W) → All P s.log
      → All P (or_clean r c s).1.log
  or_clean-Confined (ok a) c kc s h = h
  or_clean-Confined (err e) c kc s h = kc.at s h

  pub Confined-on_error :
      (m : Exec W A) (c : Exec W (Unit {0}))
      → Confined P m
      → Confined P c
      → Confined P (on_error m c)
  unfolding on_error
  Confined-on_error m c km kc = record {
    at = λ s h. let (r, s') = m s in or_clean-Confined r c kc s' (km.at s h);
  }

  pub Confined-need : (o : Option A) → Confined P (need {W = W} o)
  unfolding need
  Confined-need none = record { at = λ s h. h }
  Confined-need (some a) = record { at = λ s h. h }

module _ {W A : Type 0} {P : Call → Type 0} where
  pub Confined-relabel : (e : Error) (m : Exec W A) → Confined P m → Confined P (relabel e m)
  unfolding relabel
  Confined-relabel e m km = record { at = λ s h. km.at s h }

  again-Confined :
      (r : Result Error A) (n : Exec W A)
      → Confined P n
      → (s : State W) → All P s.log
      → All P (or_again r n s).1.log
  again-Confined (ok a) n kn s h = h
  again-Confined (err e) n kn s h = kn.at s h

  pub Confined-or_try : (m n : Exec W A) → Confined P m → Confined P n → Confined P (or_try m n)
  unfolding or_try
  Confined-or_try m n km kn = record {
    at = λ s h. let (r, s') = m s in again-Confined r n kn s' (km.at s h);
  }

module _ {W : Type 0} {P : Call → Type 0} where
  pub Confined-ignored : (m : Exec W (Unit {0})) → Confined P m → Confined P (ignored m)
  unfolding ignored
  Confined-ignored m km = record { at = λ s h. km.at s h }

  pub Confined-each :
      {T : Type 0} (f : T → Exec W (Unit {0}))
      → ((x : T) → Confined P (f x))
      → (xs : List T) → Confined P (each f xs)
  unfolding each
  Confined-each f kf [] = Confined-pure tt
  Confined-each f kf (x ∷ xs) =
      Confined-bind (f x) (λ _. each f xs) (kf x) (λ _. Confined-each f kf xs)

noted-log :
    {W : Type 0} (P : Call → Type 0) (k : Kernel W) (c : Call) (log : List Call) (r : Bool × W)
    → P c
    → All P log
    → All P (noted k c log r).1.log
unfolding noted
noted-log P k c log (true, w) p h = (p, h)
noted-log P k c log (false, w) p h = (p, h)

module _ {W : Type 0} {P : Call → Type 0} (k : Kernel W) where
  pub Confined-perform : (c : Call) → P c → Confined P (perform k c)
  unfolding perform
  Confined-perform c p = record { at = λ s h. noted-log _ k c s.log (k.act c s.world) p h }

  pub Confined-attempt : (c : Call) → P c → Confined P (attempt k c)
  unfolding attempt perform
  Confined-attempt c p = record { at = λ s h. noted-log _ k c s.log (k.act c s.world) p h }
