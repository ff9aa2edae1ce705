-- ===== src/Files/Resolve/Laws.antt =====
-- Containment of the resolved path.
use mathlib.Core.List.{
  reverse_aux, reverse_aux-eq, reverse, reverse-append, reverse-reverse, append-nil,
}
use mathlib.Core.Path.{ap₂}
use aura_cp.Prelude.{
  ◌≡◌, ◌≢◌, refl, sym, ap, ◌∙◌, Bool, true, false, not, List, [], ◌∷◌, ◌++◌, Bytes, arith, All,
  if◌then◌else◌, codes, All-reverse, keep, bytes_beq_ne, ◌||◌, Result, ok, err, >>=-eq-ok,
  bytes_beq_iff, bytes_beq_refl, Bool-cases, inl, inr, ◌>>=◌, fail_if, ◌==◌, bytes_eq, subst,
}
use aura_cp.Prelude.Text.{split}
use aura_cp.Prelude.Text.Laws.{split-NoByte}
use aura_cp.Errors.{Error, path_escapes_root}
use aura_cp.Filepath.{slash, dot, dot_dot, absolute, clean, join_path, walk, step}
use aura_cp.Filepath.Laws.{IsPart, walk-IsPart, clean_of_IsPart, join_path-absolute}
use aura_cp.Filepath.Inside.{Inside, Inside-of_Below, Below-of_has_prefix, has_prefix-below}
use aura_cp.Validate
use aura_cp.Validate.Laws.Names.{username_iff, IsPart_of_IsUserName}
use aura_cp.Validate.Laws.Domains.{IsPart_of_domain}
use aura_cp.Paths.{doc_root}
use aura_cp.Paths.Laws.{root_parts, root_parts-IsPart, doc_root_lem}
use aura_cp.Files.Resolve.{escapes, resolve}

-- The string test lets through exactly what lies at or below the root.
pub not-escapes :
    (r : Bytes) (rs ts : List Bytes)
    → All IsPart (r ∷ rs)
    → All IsPart ts
    → escapes (absolute (r ∷ rs)) (absolute ts) ≡ false
    → Inside (r ∷ rs) (absolute ts)
unfolding escapes
not-escapes r rs ts hr ht h = elim (Bool-cases (absolute ts == absolute (r ∷ rs))) [
  | inl e ↦
      let same : absolute ts ≡ absolute (r ∷ rs) = (bytes_beq_iff _ _).0 e in
      ([], same ∙ ap absolute (sym (append-nil (r ∷ rs))), tt)
  | inr e ↦
      Inside-of_Below (r ∷ rs) (absolute ts) (Below-of_has_prefix r rs ts hr ht (ground arith))
]

-- A site's names are names in a directory.
pub record AreNames (u d : Bytes) : Type 0 where
  pub user : IsPart u
  pub domain : IsPart d

pub validated :
    (u d : Bytes) → Validate.username u ≡ ok tt → Validate.domain d ≡ ok tt → AreNames u d
validated u d hu hd = record {
  user = IsPart_of_IsUserName u ((username_iff u).0 hu);
  domain = IsPart_of_domain d hd;
}

-- What a successful resolve has established.
pub record IsResolved (u d root target : Bytes) : Type 0 where
  pub names : AreNames u d
  pub root_is : root ≡ absolute (root_parts u d)
  pub inside : Inside (root_parts u d) target

unit-eq : (r : Result Error (Unit {0})) (x : Unit {0}) → r ≡ ok x → r ≡ ok tt
unit-eq r x h = h

-- the names that a request reaches from the document root
pub reached : Bytes → Bytes → Bytes → List Bytes
reached u d sub = reverse (walk true (reverse (root_parts u d)) (split slash sub))

pub reached-IsPart : (u d sub : Bytes) → AreNames u d → All IsPart (reached u d sub)
unfolding reached
reached-IsPart u d sub n =
    All-reverse IsPart (walk true (reverse (root_parts u d)) (split slash sub)) (
      walk-IsPart (reverse (root_parts u d)) (split slash sub)
        (All-reverse IsPart (root_parts u d) (root_parts-IsPart u d n.user n.domain))
        (split-NoByte slash sub))

pub target_lem :
    (u d sub : Bytes)
    → AreNames u d
    → clean (join_path (doc_root u d ∷ sub ∷ [])) ≡ absolute (reached u d sub)
unfolding reached
target_lem u d sub n =
    ap (λ r. clean (join_path (r ∷ sub ∷ []))) (doc_root_lem u d n.user n.domain)
    ∙ ap clean (join_path-absolute (root_parts u d) sub (root_parts-IsPart u d n.user n.domain))
    ∙ clean_of_IsPart _ (unfold reached in reached-IsPart u d sub n)

abbrev gated : Bytes → Bytes → Result Error (Bytes × Bytes)
gated r t = if escapes r t then err path_escapes_root else ok (r, t)

gate :
    {E A : Type 0} (b : Bool) (e : E) (x : A)
    → (fail_if b e >>= λ _. ok x) ≡ (if b then err e else ok x)
gate true e x = refl
gate false e x = refl

-- For valid names the paths are those of the layout, and the string test decides.
pub resolve-eq :
    (u d sub : Bytes)
    → Validate.username u ≡ ok tt
    → Validate.domain d ≡ ok tt
    → resolve u d sub ≡ (
        if escapes (absolute (root_parts u d)) (absolute (reached u d sub))
        then err path_escapes_root
        else ok (absolute (root_parts u d), absolute (reached u d sub)))
unfolding resolve
resolve-eq u d sub hu hd =
    let n = validated u d hu hd in
    rw (hu, hd) (gate _ _ _ ∙ ap₂ gated (doc_root_lem u d n.user n.domain) (target_lem u d sub n))

resolve-valid :
    (u d sub root target : Bytes)
    → resolve u d sub ≡ ok (root, target)
    → (Validate.username u ≡ ok tt) × (Validate.domain d ≡ ok tt)
unfolding resolve
resolve-valid u d sub root target h =
    let (_, hu, h₁) = >>=-eq-ok (Validate.username u) _ h in
    let (_, hd, h₂) = >>=-eq-ok (Validate.domain d) _ h₁ in (hu, hd)

paired :
    (r t root target : Bytes)
    → gated r t ≡ ok (root, target)
    → (escapes r t ≡ false) × (r ≡ root) × (t ≡ target)
paired r t root target h = ground arith

-- Whatever the request, a path that resolves is the document root /home/<user>/htdocs/<domain> or
-- reached from it by names only: not empty, not `.` or `..`, and free of slashes.
pub resolve-IsResolved :
    (u d sub root target : Bytes) → resolve u d sub ≡ ok (root, target) → IsResolved u d root target
resolve-IsResolved u d sub root target h =
    let (hu, hd) = resolve-valid u d sub root target h in
    let n = validated u d hu hd in
    let (stays, root_eq, target_eq) = paired _ _ root target (sym (resolve-eq u d sub hu hd) ∙ h) in
    record {
      names = n;
      root_is = sym root_eq;
      inside = subst (Inside (root_parts u d)) target_eq (
          not-escapes _ _ (reached u d sub) (root_parts-IsPart u d n.user n.domain)
            (reached-IsPart u d sub n) stays);
    }

-- The names of a request with no `..`: the empty elements and the dots are dropped.
unfoldable pub is_name : Bytes → Bool
is_name w = not (w == [] || w == dot)

walk-plain :
    (stack parts : List Bytes)
    → All (λ w. w ≢ dot_dot) parts
    → walk true stack parts ≡ reverse_aux (keep is_name parts) stack
unfolding walk step keep is_name
walk-plain stack [] h = refl
walk-plain stack (w ∷ ws) (p, h) = elim (Bool-cases (w == [] || w == dot)) [
  | inl e ↦ rw (e, keep) (walk-plain stack ws h)
  | inr e ↦ rw (e, bytes_beq_ne w dot_dot p, keep) (walk-plain (w ∷ stack) ws h)
]

reached_of_plain :
    (u d sub : Bytes)
    → All (λ w. w ≢ dot_dot) (split slash sub)
    → reached u d sub ≡ root_parts u d ++ keep is_name (split slash sub)
unfolding reached
reached_of_plain u d sub plain =
    let names = keep is_name (split slash sub) in
    ap reverse (
      walk-plain (reverse (root_parts u d)) (split slash sub) plain
      ∙ reverse_aux-eq names (reverse (root_parts u d)))
    ∙ reverse-append (reverse names) (reverse (root_parts u d))
    ∙ ap₂ (λ x y. x ++ y) (reverse-reverse (root_parts u d)) (reverse-reverse names)

escapes-below :
    (r : Bytes) (rs ws : List Bytes)
    → escapes (absolute (r ∷ rs)) (absolute (r ∷ (rs ++ ws))) ≡ false
unfolding escapes
escapes-below r rs [] = rw (append-nil rs, bytes_beq_refl (absolute (r ∷ rs)))
escapes-below r rs (w ∷ ws) = ground (arith, has_prefix-below r rs w ws)

-- A request with no `..` is never refused: it resolves to the names that it lists, under the root.
pub resolve_of_plain :
    (u d sub : Bytes)
    → Validate.username u ≡ ok tt
    → Validate.domain d ≡ ok tt
    → All (λ w. w ≢ dot_dot) (split slash sub)
    → resolve u d sub
      ≡ ok (absolute (root_parts u d), absolute (root_parts u d ++ keep is_name (split slash sub)))
resolve_of_plain u d sub hu hd plain =
    resolve-eq u d sub hu hd
    ∙ ap (λ t. gated (absolute (root_parts u d)) (absolute t)) (reached_of_plain u d sub plain)
    ∙ rw (
        escapes-below (codes "home") (u ∷ codes "htdocs" ∷ d ∷ []) (keep is_name (split slash sub)))
