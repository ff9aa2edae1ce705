-- ===== src/Vhost/Blanks.antt =====
-- Collapsing blank lines comes to an end.
use aura_cp.Prelude.{
  ℕ, suc, zero, ◌+◌, ◌≤◌, ◌<◌, ◌≡◌, refl, inl, inr, true, false, [], ◌∷◌, Option, some, arith,
  Bytes, bytes_eq, length, Bool-cases,
}
use aura_cp.Prelude.Text.{contains, has_prefix, replace_all, replace_from}
use aura_cp.Vhost.Processors.{SiteContext}
use aura_cp.Vhost.Template.{
  Template, three_newlines, two_newlines, collapse_from, collapse_blanks, strip_from, process,
  render,
}

abbrev step : ℕ → Bytes → Bytes
step skip s = replace_from three_newlines two_newlines skip s

has_prefix-length : (p s : Bytes) → has_prefix p s ≡ true → length p ≤ length s
unfolding has_prefix
has_prefix-length [] s h = omega arith
has_prefix-length (x ∷ p) [] h = absurd (ground (arith, h))
has_prefix-length (x ∷ p) (c ∷ s) h = ground (arith, has_prefix-length p s)

step-le : (skip : ℕ) (s : Bytes) → skip ≤ length s → length (step skip s) + skip ≤ length s
unfolding replace_from
step-le skip [] le = omega (arith, le)
step-le (suc skip) (c ∷ s) le = omega (arith, le, step-le skip s (omega (arith, le)))
step-le zero (c ∷ s) le = elim (Bool-cases (has_prefix three_newlines (c ∷ s))) [
  | inl e ↦ rw e (
      let fits = has_prefix-length three_newlines (c ∷ s) e in
      omega (arith, fits, step-le 2 s (omega (arith, fits))))
  | inr e ↦ rw e (omega (arith, step-le 0 s (omega arith)))
]

step-lt : (s : Bytes) → contains three_newlines s ≡ true → length (step 0 s) < length s
unfolding replace_from contains
step-lt [] h = absurd (ground (arith, h))
step-lt (c ∷ s) h = elim (Bool-cases (has_prefix three_newlines (c ∷ s))) [
  | inl e ↦ rw e (
      let fits = has_prefix-length three_newlines (c ∷ s) e in
      omega (arith, fits, step-le 2 s (omega (arith, fits))))
  | inr e ↦ rw e (omega (arith, step-lt s (rw e at h)))
]

-- What collapsing gives: a text with no three newlines in a row that is not longer.
abbrev pub IsCollapsed : Bytes → Option Bytes → Type 0
IsCollapsed s o =
    (out : Bytes) × (o ≡ some out) × (contains three_newlines out ≡ false) × (length out ≤ length s)

collapse_from-IsCollapsed : (f : ℕ) (s : Bytes) → length s < f → IsCollapsed s (collapse_from f s)
unfolding collapse_from replace_all
collapse_from-IsCollapsed zero s lt = absurd (omega (arith, lt))
collapse_from-IsCollapsed (suc f) s lt = elim (Bool-cases (contains three_newlines s)) [
  | inl e ↦
      (let shrinks = step-lt s e in
        let (out, eq, clear, le) =
          collapse_from-IsCollapsed f (step 0 s) (omega (arith, lt, shrinks)) in
        (out, rw e eq, clear, omega (arith, le, shrinks)))
  | inr e ↦ (s, rw e refl, e, omega arith)
]

-- Rendering a template always ends, whatever the body and the operator's settings, and its result has
-- no three newlines in a row.
pub render-IsCollapsed :
    (t : Template) (body : Bytes) (ctx : SiteContext)
    → IsCollapsed (strip_from 0 (process t.processors body ctx)) (render t body ctx)
unfolding render collapse_blanks
render-IsCollapsed t body ctx =
    collapse_from-IsCollapsed (suc (length rendered)) rendered (omega arith)
  where
    rendered : Bytes
    rendered = strip_from 0 (process t.processors body ctx)
