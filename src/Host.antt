-- ===== src/Host.antt =====
-- The machine together with the panel's database and the ACME client that it keeps in memory: methods of the
-- machine run beside the tables, and statements beside the machine.
use aura_cp.Prelude.{Bool, Bytes, String, Option, none, some, Result, ok, err}
use aura_cp.Errors.{Error, store_error}
use aura_cp.Os.{State, Exec}
use aura_cp.Store.{Tables}

-- lego.Client, as far as the code sets it
pub record Client : Type 0 where
  pub key : Bytes
  pub email : String
  pub staging : Bool
  pub uri : Bytes
  -- the directory of the HTTP-01 provider, and the token of the DNS-01 provider
  pub http_01 : Option Bytes
  pub dns_01 : Option Bytes

pub record Host (W : Type 0) : Type 0 where
  pub machine : W
  pub tables : Tables
  -- acme.Manager.client
  pub client : Option Client

module _ {W : Type 0} where
  abbrev pub machine_of : State (Host W) → State W
  machine_of s = record { world = s.world.machine; log = s.log }

  abbrev pub beside : Host W → State W → State (Host W)
  beside h s = record { world = record h { machine = s.world }; log = s.log }

  abbrev pub with_tables : Tables → State (Host W) → State (Host W)
  with_tables t s = record { world = record s.world { tables = t }; log = s.log }

  unfoldable pub on_machine : {A : Type 0} → Exec W A → Exec (Host W) A
  on_machine m s = let (r, s') = m (machine_of s) in (r, beside s.world s')

  unfoldable pub query : {A : Type 0} → (Tables → A) → Exec (Host W) A
  query f s = (ok (f s.world.tables), s)

  -- a statement that no constraint can refuse
  unfoldable pub commit : (Tables → Tables) → Exec (Host W) (Unit {0})
  commit f s = (ok tt, with_tables (f s.world.tables) s)

  abbrev pub committed : Option Tables → State (Host W) → Result Error (Unit {0}) × State (Host W)
  committed none s = (err store_error, s)
  committed (some t) s = (ok tt, with_tables t s)

  unfoldable pub try_commit : (Tables → Option Tables) → Exec (Host W) (Unit {0})
  try_commit f s = committed (f s.world.tables) s

  unfoldable pub set_client : Option Client → Exec (Host W) (Unit {0})
  set_client c s = (ok tt, record { world = record s.world { client = c }; log = s.log })

  -- A method whose error is a value of the next one.
  unfoldable pub caught : {A : Type 0} → Exec W A → Exec W (Result Error A)
  caught m s = let (r, s') = m s in (ok r, s')
