-- ===== src/Filepath.antt =====
-- Go's `path/filepath` on Unix: Clean, Join, Base and Dir, as the source calls them.
pub mod Laws
pub mod Inside
use mathlib.Core.List.{reverse}
use aura_cp.Prelude.{
  ℕ, Bool, true, false, ◌&&◌, ◌||◌, List, [], ◌∷◌, ◌++◌, Bytes, codes, ◌==◌, nat_eq, bytes_eq,
  if◌then◌else◌, any,
}
use aura_cp.Prelude.Text.{split, join}

abbrev pub slash : ℕ
slash = b'/'

abbrev pub dot : Bytes
dot = codes "."

abbrev pub dot_dot : Bytes
dot_dot = codes ".."

-- `..` removes the element before it. At the root it is dropped; a relative path keeps it.
unfoldable pub pop : Bool → List Bytes → List Bytes
pop true [] = []
pop false [] = dot_dot ∷ []
pop rooted (top ∷ stack) = if top == dot_dot then dot_dot ∷ top ∷ stack else stack

-- One element of the path; the stack has its top at the head.
unfoldable pub step : Bool → List Bytes → Bytes → List Bytes
unfolding pop
step rooted stack part =
    if part == [] || part == dot
    then stack
    else if part == dot_dot
    then pop rooted stack
    else part ∷ stack

unfoldable pub walk : Bool → List Bytes → List Bytes → List Bytes
unfolding step
walk rooted stack [] = stack
walk rooted stack (part ∷ parts) = walk rooted (step rooted stack part) parts

-- The absolute path with these elements.
abbrev pub absolute : List Bytes → Bytes
absolute parts = slash ∷ join slash parts

or_dot : Bytes → Bytes
or_dot [] = dot
or_dot (c ∷ s) = c ∷ s

-- filepath.Clean
unfoldable pub clean : Bytes → Bytes
unfolding walk or_dot split join
clean [] = dot
clean (c ∷ s) =
    if c == slash
    then absolute (reverse (walk true [] (split slash (c ∷ s))))
    else or_dot (join slash (reverse (walk false [] (split slash (c ∷ s)))))

-- filepath.Join
unfoldable pub join_path : List Bytes → Bytes
unfolding clean join
join_path [] = []
join_path (e ∷ es) = if e == [] then join_path es else clean (join slash (e ∷ es))

unfoldable pub strip_slashes : Bytes → Bytes
strip_slashes [] = []
strip_slashes (c ∷ s) =
    let rest = strip_slashes s in if c == slash && rest == [] then [] else c ∷ rest

last_part : Bytes → List Bytes → Bytes
last_part w [] = w
last_part w (v ∷ ws) = last_part v ws

named : Bytes → Bytes
named [] = slash ∷ []
named (c ∷ s) = last_part [] (split slash (c ∷ s))

-- filepath.Base
unfoldable pub base : Bytes → Bytes
unfolding strip_slashes named last_part split
base [] = dot
base (c ∷ s) = named (strip_slashes (c ∷ s))

-- The bytes up to the last slash, with it.
unfoldable pub up_to_slash : Bytes → Bytes
up_to_slash [] = []
up_to_slash (c ∷ s) =
    let rest = up_to_slash s in if c == slash || any (λ b. b == slash) s then c ∷ rest else []

-- filepath.Dir
unfoldable pub dir : Bytes → Bytes
unfolding clean up_to_slash
dir p = clean (up_to_slash p)
