-- ===== src/Paths/Laws.antt =====
-- Where the paths of a site lie, for a user and a domain that are names.
use aura_cp.Prelude.{◌≡◌, List, [], ◌∷◌, Bytes, codes, arith, All}
use aura_cp.Prelude.Text.{join}
use aura_cp.Filepath.{absolute, join_path}
use aura_cp.Filepath.Laws.{IsPart, clean_of_IsPart}
use aura_cp.Paths.{doc_root}

-- The elements of the document root.
abbrev pub root_parts : Bytes → Bytes → List Bytes
root_parts user domain = codes "home" ∷ user ∷ codes "htdocs" ∷ domain ∷ []

pub root_parts-IsPart : (u d : Bytes) → IsPart u → IsPart d → All IsPart (root_parts u d)
root_parts-IsPart u d hu hd =
    ((cc, cc, cc, omega arith), (hu, ((cc, cc, cc, omega arith), (hd, tt))))

-- The document root is /home/<user>/htdocs/<domain>.
pub doc_root_lem : (u d : Bytes) → IsPart u → IsPart d → doc_root u d ≡ absolute (root_parts u d)
unfolding doc_root join_path join
doc_root_lem u d hu hd = clean_of_IsPart (root_parts u d) (root_parts-IsPart u d hu hd)
