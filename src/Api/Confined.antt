-- ===== src/Api/Confined.antt =====
-- How the handlers of files, short of the file manager, confine the calls they make.
use aura_cp.Prelude.{
  ℕ, zero, suc, Bool, true, false, List, [], ◌∷◌, String, if◌then◌else◌, Bytes, Result, ok, err,
}
use aura_cp.Errors.{Error}
use aura_cp.Os.{Call, Kernel, Exec, ◌>>=◌}
use aura_cp.Os.Confined.{
  Confined, Confined-pure, Confined-bind, Confined-bind_lift, Confined-bind_asks, Confined-guard,
  Confined-need,
}
use aura_cp.Web.Middleware.{Request}
use aura_cp.Store.{Tables}
use aura_cp.Host.{Host, on_machine, commit, caught}
use aura_cp.Files.Archive.{Reader}
use aura_cp.Files.Resolve.{resolve}
use aura_cp.Files.Sort.{list_dir}
use aura_cp.Api.SiteFiles.{Answer, problem, shown, noted, change, finished}

module _ {W A : Type 0} {P : Call → Type 0} where
  pub on_machine-Confined : (m : Exec W A) → Confined P m → Confined P (on_machine m)
  unfolding on_machine
  on_machine-Confined m km = record { at = λ s h. km.at _ h }

  pub caught-Confined : (m : Exec (Host W) A) → Confined P m → Confined P (caught m)
  unfolding caught
  caught-Confined m km = record { at = λ s h. km.at s h }

pub either-Confined :
    {W A : Type 0} {P : Call → Type 0} (b : Bool) (m n : Exec W A)
    → Confined P m
    → Confined P n
    → Confined P (if b then m else n)
either-Confined true m n km kn = km
either-Confined false m n km kn = kn

pub commit-Confined :
    {W : Type 0} {P : Call → Type 0} (f : Tables → Tables) → Confined {W = Host W} P (commit f)
unfolding commit
commit-Confined f = record { at = λ s h. h }

module _ {W : Type 0} (k : Kernel W) (reader : Reader W) (text : Bytes → String) (r : Request)
    (now : ℕ) where
  module _ {P : Call → Type 0} where
    shown-Confined :
        {A : Type 0} (f : A → Answer) (x : Result Error A)
        → Confined P (shown k reader text r now f x)
    shown-Confined f (ok a) = Confined-pure (f a)
    shown-Confined f (err e) = Confined-pure (problem 400)

    noted-Confined :
        (action : String) (target : Bytes) (status : ℕ) (x : Result Error (Unit {0}))
        → Confined P (noted k reader text r now action target status x)
    noted-Confined action target status (ok x) =
        Confined-bind _ _ (commit-Confined _) λ y. Confined-pure _
    noted-Confined action target status (err e) = Confined-pure (problem 400)

    pub read-Confined :
        {A : Type 0} (f : A → Answer) (m : Exec W A)
        → Confined P m
        → Confined P (caught (on_machine m) >>= shown k reader text r now f)
    read-Confined f m km =
        Confined-bind _ _ (caught-Confined _ (on_machine-Confined m km)) (shown-Confined f)

    pub change-Confined :
        (action : String) (target : Bytes) (status : ℕ) (m : Exec W (Unit {0}))
        → Confined P m
        → Confined P (change k reader text r now action target status m)
    change-Confined action target status m km =
        Confined-bind _ _ (caught-Confined _ (on_machine-Confined m km))
          (noted-Confined action target status)

    pub finished-Confined :
        (domain sub : Bytes) (n : ℕ × List Bytes)
        → Confined P (finished k reader text r now domain sub n)
    finished-Confined domain sub (zero, []) = Confined-pure _
    finished-Confined domain sub (zero, x ∷ xs) =
        Confined-bind _ _ (commit-Confined _) λ y. Confined-pure _
    finished-Confined domain sub (suc n, xs) =
        Confined-bind _ _ (commit-Confined _) λ y. Confined-pure _

  pub list-Confined :
      {P : Call → Type 0} (user domain path : Bytes) → Confined P (list_dir k user domain path)
  unfolding list_dir
  list-Confined user domain path = Confined-bind_lift (resolve user domain path) _ λ p h.
      Confined-bind_asks _ _ λ s. Confined-guard _ _ _ λ inside.
        Confined-bind_asks _ _ λ t. Confined-bind _ _ (Confined-need _) λ des. Confined-pure _
