-- ===== src/Os/Triples.antt =====
-- What holds after a method, by its result: rules, one for each way to build a method.
use aura_cp.Prelude.{◌≡◌, refl, Bool, true, false, if◌then◌else◌, Result, ok, err}
use aura_cp.Errors.{Error}
use aura_cp.Os.{State, Exec, pure, raise, lift, continue, ◌>>=◌}
use aura_cp.Os.Steady.{Preserves, Makes}

-- Q of the value after a success, and F after a failure.
abbrev pub After :
    {W A : Type 0} → (A → State W → Type 0) → (State W → Type 0) → Result Error A → State W → Type 0
After Q F (ok a) s = Q a s
After Q F (err e) s = F s

pub record Triple {W A : Type 0} (P : State W → Type 0) (Q : A → State W → Type 0)
    (F : State W → Type 0) (m : Exec W A) : Type 0 where
  pub at : (s : State W) → P s → After Q F (m s).0 (m s).1

module _ {W A B : Type 0} {F : State W → Type 0} where
  continue-After :
      (R : A → State W → Type 0) (Q : B → State W → Type 0) (r : Result Error A) (f : A → Exec W B)
      → ((a : A) → Triple (R a) Q F (f a))
      → (s : State W) → After R F r s
      → After Q F (continue r f s).0 (continue r f s).1
  continue-After R Q (ok a) f tf s h = (tf a).at s h
  continue-After R Q (err e) f tf s h = h

  pub Triple-bind :
      {P : State W → Type 0} (R : A → State W → Type 0) (Q : B → State W → Type 0) (m : Exec W A)
      (f : A → Exec W B)
      → Triple P R F m
      → ((a : A) → Triple (R a) Q F (f a))
      → Triple P Q F (m >>= f)
  unfolding ◌>>=◌
  Triple-bind R Q m f tm tf = record {
    at = λ s h. continue-After R Q (m s).0 f tf (m s).1 (tm.at s h);
  }

module _ {W A : Type 0} {P : State W → Type 0} {F : State W → Type 0} where
  either-After :
      (r : Result Error A) (s : State W) → ((t : State W) → P t → F t) → P s → After (λ a. P) F r s
  either-After (ok a) s pf h = h
  either-After (err e) s pf h = pf s h

  -- A method that keeps P.
  pub Triple-steady :
      (m : Exec W A) → ((t : State W) → P t → F t) → Preserves P m → Triple P (λ a. P) F m
  Triple-steady m pf km = record { at = λ s h. either-After (m s).0 (m s).1 pf (km.at s h) }

  pub Triple-pure :
      {Q : A → State W → Type 0} (a : A) → ((s : State W) → P s → Q a s) → Triple P Q F (pure a)
  unfolding pure
  Triple-pure a pq = record { at = pq }

-- Q holds after every success.
pub record Yields {W A : Type 0} (Q : State W → Type 0) (m : Exec W A) : Type 0 where
  pub at : (s : State W) (a : A) → (m s).0 ≡ ok a → Q (m s).1

module _ {W A B : Type 0} {Q : State W → Type 0} where
  continue-Yields :
      (r : Result Error A) (f : A → Exec W B)
      → ((a : A) → Yields Q (f a))
      → (s : State W) (b : B) → (continue r f s).0 ≡ ok b
      → Q (continue r f s).1
  continue-Yields (ok a) f yf s b e = (yf a).at s b e
  continue-Yields (err x) f yf s b e = absurd (cc)

  pub Yields-bind :
      (m : Exec W A) (f : A → Exec W B) → ((a : A) → Yields Q (f a)) → Yields Q (m >>= f)
  unfolding ◌>>=◌
  Yields-bind m f yf = record { at = λ s b e. continue-Yields (m s).0 f yf (m s).1 b e }

module _ {W A : Type 0} {Q : State W → Type 0} where
  pub Yields-raise : (e : Error) → Yields {A = A} Q (raise e)
  unfolding raise
  Yields-raise e = record { at = λ s a h. absurd (cc) }

  pub Yields-made : (m : Exec W A) → Makes Q m → Yields Q m
  Yields-made m mm = record { at = λ s a e. mm.at s }

  pub Yields-if :
      (b : Bool) (m n : Exec W A) → Yields Q m → Yields Q n → Yields Q (if b then m else n)
  Yields-if true m n ym yn = ym
  Yields-if false m n ym yn = yn

module _ {W A : Type 0} {Q R : State W → Type 0} where
  pub Yields-both : (m : Exec W A) → Yields Q m → Yields R m → Yields (λ s. Q s × R s) m
  Yields-both m yq yr = record { at = λ s a e. (yq.at s a e, yr.at s a e) }

  pub Yields-map : (m : Exec W A) → ((s : State W) → Q s → R s) → Yields Q m → Yields R m
  Yields-map m f yq = record { at = λ s a e. f (m s).1 (yq.at s a e) }

module _ {W A B : Type 0} {Q : State W → Type 0} where
  pub Yields-lift :
      (r : Result Error A) (f : A → Exec W B)
      → ((a : A) → r ≡ ok a → Yields Q (f a))
      → Yields Q (lift r >>= f)
  unfolding lift ◌>>=◌
  Yields-lift r f yf = record { at = λ s b e. lifted r f yf s b e }
    where
      lifted :
          (r : Result Error A) (f : A → Exec W B)
          → ((a : A) → r ≡ ok a → Yields Q (f a))
          → (s : State W) (b : B) → (continue r f s).0 ≡ ok b
          → Q (continue r f s).1
      lifted (ok a) f yf s b e = (yf a refl).at s b e
      lifted (err x) f yf s b e = absurd (cc)
