-- ===== src/Tests/Machine.antt =====
-- A machine on which every call succeeds except `nginx -t`, and which counts the calls.
use aura_cp.Prelude.{
  ℕ, suc, Bool, true, false, [], ◌∷◌, none, some, Bytes, codes, bytes_eq, if◌then◌else◌,
}
use aura_cp.Prelude.Text.{has_suffix}
use aura_cp.Os.{Call, run, Info, Kernel, State}

abbrev pub alice : Bytes
alice = codes "alice"

abbrev pub example_com : Bytes
example_com = codes "example.com"

abbrev pub text_file : Info
text_file = record { is_dir = false; size = 3; mode = 0o644; is_symlink = false }

abbrev pub folder : Info
folder = record { is_dir = true; size = 0; mode = 0o755; is_symlink = false }

abbrev pub succeeds : Call → Bool
succeeds (run (a ∷ b ∷ [])) = false
succeeds c = true

abbrev pub machine : Kernel ℕ
machine = record {
  act = λ c w. (succeeds c, suc w);
  stat = λ p w. if has_suffix (codes ".txt") p then some text_file else none;
  lstat = λ p w. none;
  read_dir = λ p w. none;
  read_file = λ p w. some (codes "hi");
  readlink = λ p w. none;
  eval_symlinks = λ p w. some p;
  walk_tree = λ p w. (p, some text_file) ∷ [];
  output = λ argv w. codes "active\n";
  knows_user = λ u w. true;
  random = λ w. w;
  to_lower = λ s. s;
}

abbrev pub start : State ℕ
start = record { world = 0; log = [] }
