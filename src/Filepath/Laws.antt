-- ===== src/Filepath/Laws.antt =====
-- Cleaning, joining and taking apart paths that are already clean.
use mathlib.Core.List.{reverse, reverse-reverse, reverse-cons, append_assoc, append-nil}
use aura_cp.Prelude.{
  ◌≡◌, refl, ap, ◌∙◌, ◌≢◌, Bool, true, List, [], ◌∷◌, ◌++◌, Bytes, arith, bytes_beq_iff, All,
  All-reverse, nat_eq, bytes_eq,
}
use aura_cp.Prelude.Text.{split, join}
use aura_cp.Prelude.Text.Laws.{NoByte, split_whole, split-append, split-NoByte}
use aura_cp.Filepath.{slash, dot, dot_dot, pop, step, walk, absolute, clean, join_path}

-- A name that stays in the directory that it is joined to.
abbrev pub IsPart : Bytes → Type 0
IsPart w = (w ≢ []) × (w ≢ dot) × (w ≢ dot_dot) × NoByte slash w

pub walk-append :
    (rooted : Bool) (stack xs ys : List Bytes)
    → walk rooted stack (xs ++ ys) ≡ walk rooted (walk rooted stack xs) ys
unfolding walk
walk-append rooted stack [] ys = refl
walk-append rooted stack (x ∷ xs) ys = walk-append rooted (step rooted stack x) xs ys

step-IsPart :
    (stack : List Bytes) (w : Bytes)
    → All IsPart stack
    → NoByte slash w
    → All IsPart (step true stack w)
unfolding step pop
step-IsPart [] w h n =
    ground (arith, bytes_beq_iff w [], bytes_beq_iff w dot, bytes_beq_iff w dot_dot)
step-IsPart (top ∷ stack) w h n = ground (
  arith,
  bytes_beq_iff w [],
  bytes_beq_iff w dot,
  bytes_beq_iff w dot_dot,
  bytes_beq_iff top dot_dot,
)

-- Walking from a stack of names, the stack holds names only.
pub walk-IsPart :
    (stack parts : List Bytes)
    → All IsPart stack
    → All (NoByte slash) parts
    → All IsPart (walk true stack parts)
unfolding walk
walk-IsPart stack [] h n = h
walk-IsPart stack (w ∷ ws) h (n, ns) =
    walk-IsPart (step true stack w) ws (step-IsPart stack w h n) ns

pub step_of_IsPart : (stack : List Bytes) (w : Bytes) → IsPart w → step true stack w ≡ w ∷ stack
unfolding step
step_of_IsPart stack w h =
    ground (arith, bytes_beq_iff w [], bytes_beq_iff w dot, bytes_beq_iff w dot_dot)

pub walk_of_IsPart :
    (stack parts : List Bytes) → All IsPart parts → walk true stack parts ≡ reverse parts ++ stack
unfolding walk
walk_of_IsPart stack [] h = refl
walk_of_IsPart stack (w ∷ ws) (p, h) =
    rw (step_of_IsPart stack w p, walk_of_IsPart (w ∷ stack) ws h)
      (simp (reverse-cons, append_assoc))

pub split-join :
    (w : Bytes) (ws : List Bytes)
    → All (NoByte slash) (w ∷ ws)
    → split slash (join slash (w ∷ ws)) ≡ w ∷ ws
unfolding join
split-join w [] (n, _) = split_whole slash w n
split-join w (v ∷ ws) (n, ns) =
    rw (split-append slash w (join slash (v ∷ ws)), split_whole slash w n, split-join v ws ns)

pub IsPart-NoByte : (ws : List Bytes) → All IsPart ws → All (NoByte slash) ws
IsPart-NoByte [] h = tt
IsPart-NoByte (w ∷ ws) (p, h) = (p.3, IsPart-NoByte ws h)

-- Whatever the elements, walking the split of an absolute path is walking its elements.
pub walk-split-absolute :
    (stack ws : List Bytes)
    → All IsPart ws
    → walk true stack (split slash (absolute ws)) ≡ reverse ws ++ stack
unfolding walk step split join
walk-split-absolute stack [] h = refl
walk-split-absolute stack (w ∷ ws) h =
    rw (split-join w ws (IsPart-NoByte (w ∷ ws) h)) (walk_of_IsPart stack (w ∷ ws) h)

-- Clean makes any absolute path one of names.
pub clean-absolute :
    (s : Bytes) → (ws : List Bytes) × (clean (slash ∷ s) ≡ absolute ws) × All IsPart ws
unfolding clean
clean-absolute s = (
  reverse (walk true [] (split slash (slash ∷ s))),
  refl,
  All-reverse IsPart (walk true [] (split slash (slash ∷ s)))
      (walk-IsPart [] (split slash (slash ∷ s)) tt (split-NoByte slash (slash ∷ s))),
)

-- A clean absolute path is left as it is.
pub clean_of_IsPart : (ws : List Bytes) → All IsPart ws → clean (absolute ws) ≡ absolute ws
unfolding clean
clean_of_IsPart ws h =
    ap (λ r. absolute (reverse r)) (walk-split-absolute [] ws h ∙ append-nil (reverse ws))
    ∙ ap absolute (reverse-reverse ws)

-- Joining a text to a clean absolute path walks on from it.
pub join_path-absolute :
    (ws : List Bytes) (s : Bytes)
    → All IsPart ws
    → join_path (absolute ws ∷ s ∷ []) ≡ absolute (reverse (walk true (reverse ws) (split slash s)))
unfolding join_path clean join
join_path-absolute ws s h =
    ap (λ r. absolute (reverse r))
      (ap (walk true []) (split-append slash (absolute ws) s)
        ∙ walk-append true [] (split slash (absolute ws)) (split slash s)
        ∙ ap (λ k. walk true k (split slash s))
            (walk-split-absolute [] ws h ∙ append-nil (reverse ws)))

pub join_path-name :
    (ws : List Bytes) (w : Bytes)
    → All IsPart ws
    → IsPart w
    → join_path (absolute ws ∷ w ∷ []) ≡ absolute (ws ++ w ∷ [])
join_path-name ws w h p =
    join_path-absolute ws w h
    ∙ ap (λ k. absolute (reverse (walk true (reverse ws) k))) (split_whole slash w p.3)
    ∙ ap (λ k. absolute (reverse k)) (walk_of_IsPart (reverse ws) (w ∷ []) (p, tt))
    ∙ ap absolute (reverse-cons w (reverse ws) ∙ ap (λ k. k ++ w ∷ []) (reverse-reverse ws))
