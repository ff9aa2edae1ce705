-- ===== src/Os.antt =====
-- The operating system as the panel sees it: the calls that change it, the questions that it
-- answers, and methods that make calls and may stop with an error.
--
-- The state of the machine and its answers are a parameter. Every call is noted in a log before
-- it is made, whether it succeeds or not. A `defer f.Close()`, whose error no code reads, is no call
-- of the model.
pub mod Confined
pub mod Steady
pub mod Logged
pub mod Triples
use aura_cp.Prelude.{
  ℕ, Bool, true, false, List, [], ◌∷◌, Option, none, some, Bytes, Result, ok, err, if◌then◌else◌,
}
use aura_cp.Errors.{Error, os_error}

pub data Call : Type 0 where
  mkdir_all : (path : Bytes) (mode : ℕ) → Call
  mkdir : (path : Bytes) (mode : ℕ) → Call
  -- os.Create, and os.OpenFile to write with O_TRUNC or with O_EXCL
  create : (path : Bytes) → Call
  open_trunc : (path : Bytes) (mode : ℕ) → Call
  open_excl : (path : Bytes) (mode : ℕ) → Call
  -- os.Open and os.ReadFile
  open_read : (path : Bytes) → Call
  -- io.Copy into an open file, WriteString, and Close
  write : (path : Bytes) → Call
  write_string : (path content : Bytes) → Call
  close : (path : Bytes) → Call
  remove : (path : Bytes) → Call
  remove_all : (path : Bytes) → Call
  rename : (from to : Bytes) → Call
  chmod : (path : Bytes) (mode : ℕ) → Call
  chown : (path user : Bytes) → Call
  -- an entry of the zip archive `path`
  zip_entry : (path name : Bytes) → Call
  -- os.WriteFile and os.Symlink
  write_file : (path body : Bytes) (mode : ℕ) → Call
  symlink : (target link : Bytes) → Call
  -- a command that system.Runner runs
  run : (argv : List Bytes) → Call

pub record Info : Type 0 where
  pub is_dir : Bool
  pub size : ℕ
  pub mode : ℕ
  pub is_symlink : Bool

-- `none` stands for an error.
pub record Kernel (W : Type 0) : Type 0 where
  pub act : Call → W → Bool × W
  pub stat : Bytes → W → Option Info
  pub lstat : Bytes → W → Option Info
  -- names with what Info() returns
  pub read_dir : Bytes → W → Option (List (Bytes × Option Info))
  pub read_file : Bytes → W → Option Bytes
  pub readlink : Bytes → W → Option Bytes
  pub eval_symlinks : Bytes → W → Option Bytes
  -- what filepath.Walk visits
  pub walk_tree : Bytes → W → List (Bytes × Option Info)
  -- what a command prints
  pub output : List Bytes → W → Bytes
  pub knows_user : Bytes → W → Bool
  -- the random number in the name of a temporary file
  pub random : W → ℕ
  -- strings.ToLower, by Unicode's tables
  pub to_lower : Bytes → Bytes

pub record State (W : Type 0) : Type 0 where
  pub world : W
  pub log : List Call

abbrev pub Exec : Type 0 → Type 0 → Type 0
Exec W A = State W → Result Error A × State W

module _ {W A : Type 0} where
  unfoldable pub pure : A → Exec W A
  pure a s = (ok a, s)

  unfoldable pub raise : Error → Exec W A
  raise e s = (err e, s)

  unfoldable pub lift : Result Error A → Exec W A
  lift r s = (r, s)

  unfoldable pub asks : (W → A) → Exec W A
  asks f s = (ok (f s.world), s)

  -- the value of a question, or its error
  unfoldable pub need : Option A → Exec W A
  need none s = (err os_error, s)
  need (some a) s = (ok a, s)

module _ {W : Type 0} where
  -- `if bad { return err }`
  unfoldable pub guard : Bool → Error → Exec W (Unit {0})
  guard true e s = (err e, s)
  guard false e s = (ok tt, s)

module _ {W A B : Type 0} where
  abbrev pub continue : Result Error A → (A → Exec W B) → Exec W B
  continue (ok a) f s = f a s
  continue (err e) f s = (err e, s)

  infixl 5 ◌>>=◌ ◌>>◌
  unfoldable pub ◌>>=◌ : Exec W A → (A → Exec W B) → Exec W B
  ◌>>=◌ m f s = let (r, s') = m s in continue r f s'

  abbrev pub ◌>>◌ : Exec W A → Exec W B → Exec W B
  m >> n = m >>= λ _. n

module _ {W A : Type 0} where
  abbrev pub or_clean : Result Error A → Exec W (Unit {0}) → Exec W A
  or_clean (ok a) c s = (ok a, s)
  or_clean (err e) c s = (err e, (c s).1)

  -- `if err != nil { cleanup; return err }`
  unfoldable pub on_error : Exec W A → Exec W (Unit {0}) → Exec W A
  on_error m c s = let (r, s') = m s in or_clean r c s'

abbrev pub renamed : {A : Type 0} → Error → Result Error A → Result Error A
renamed e (ok a) = ok a
renamed e (err f) = err e

module _ {W A : Type 0} where
  abbrev pub or_again : Result Error A → Exec W A → Exec W A
  or_again (ok a) n s = (ok a, s)
  or_again (err e) n s = n s

  -- `if err != nil { err = n() }`
  unfoldable pub or_try : Exec W A → Exec W A → Exec W A
  or_try m n s = let (r, s') = m s in or_again r n s'

  -- an error that is wrapped in another one
  unfoldable pub relabel : Error → Exec W A → Exec W A
  relabel e m s = let (r, s') = m s in (renamed e r, s')

module _ {W : Type 0} where
  -- a method whose error is dropped, `_ = f()`
  unfoldable pub ignored : Exec W (Unit {0}) → Exec W (Unit {0})
  ignored m s = (ok tt, (m s).1)

  -- a loop over a list that stops at the first error
  unfoldable pub each : {T : Type 0} → (T → Exec W (Unit {0})) → List T → Exec W (Unit {0})
  each f [] = pure tt
  each f (x ∷ xs) = f x >> each f xs

module _ {W : Type 0} (k : Kernel W) where
  unfoldable pub noted : Call → List Call → Bool × W → Result Error (Unit {0}) × State W
  noted c log (true, w) = (ok tt, record { world = w; log = c ∷ log })
  noted c log (false, w) = (err os_error, record { world = w; log = c ∷ log })

  unfoldable pub perform : Call → Exec W (Unit {0})
  unfolding noted
  perform c s = noted c s.log (k.act c s.world)

  -- a call whose error is dropped, `_ = f()`
  unfoldable pub attempt : Call → Exec W (Unit {0})
  unfolding perform
  attempt c s = (ok tt, (perform c s).1)
