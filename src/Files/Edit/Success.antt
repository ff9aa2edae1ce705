-- ===== src/Files/Edit/Success.antt =====
-- What a success of the editor has done.
use aura_cp.Prelude.{ℕ, List, Bytes}
use aura_cp.Filepath.{dir}
use aura_cp.Os.{Call, write_string, rename, Kernel, State}
use aura_cp.Os.Logged.{Logged}
use aura_cp.Files.Edit.{edit_prefix, temp_path}

-- The content has gone into one temporary file in the directory of the target, and that one has been renamed.
abbrev pub IsReplaced : (target content : Bytes) → List Call → Type 0
IsReplaced target content log =
    (n : ℕ) × Logged (write_string (temp_path (dir target) edit_prefix n) content) log
    × Logged (rename (temp_path (dir target) edit_prefix n) target) log

module _ {W : Type 0} (k : Kernel W) (user domain : Bytes) where
  abbrev Replaced : (target content : Bytes) → State W → Type 0
  Replaced target content s = IsReplaced target content s.log
