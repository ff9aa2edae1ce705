-- ===== src/Rows/Defaults.antt =====
-- A table of versions one of which may be marked as the default.
use aura_cp.Prelude.{
  ◌≡◌, refl, sym, ◌∙◌, Bool, true, false, List, [], ◌∷◌, ◌++◌, Bytes, ◌==◌, bytes_eq, All,
  All-append, any, keep, Bool-cases, inl, inr, bytes_beq_iff, bytes_beq_ne, arith,
}
use aura_cp.Rows.{update}
use aura_cp.Rows.Laws.{Distinct, Distinct-update, Distinct-keep, Distinct-append, All-keep}
use aura_cp.Store.{all_rows}

module _ {R : Type 0} (version : R → Bytes) (is_default : R → Bool) where
  abbrev has : Bytes → R → Bool
  has v r = version r == v

  -- Only the version v is a default.
  abbrev pub IsOnly : Bytes → R → Type 0
  IsOnly v r = is_default r ≡ true → version r ≡ v

  -- No version is in the table twice, and one version is the only default, if there is any.
  abbrev pub HasDefault : List R → Type 0
  HasDefault rs = Distinct has version rs × ((v : Bytes) × All (IsOnly v) rs)

  All-update_to :
      (P : R → Type 0) (q : R → Bool) (f : R → R) (rs : List R)
      → ((r : R) → q r ≡ true → P (f r))
      → All (λ r. q r ≡ false → P r) rs
      → All P (update q f rs)
  unfolding update
  All-update_to P q f [] e h = tt
  All-update_to P q f (r ∷ rs) e h = elim (Bool-cases (q r)) [
    | inl b ↦ rw b (e r b, All-update_to P q f rs e h.1)
    | inr b ↦ rw b (h.0 b, All-update_to P q f rs e h.1)
  ]

  All-cleared :
      (P : R → Type 0) (clear : R → R) (rs : List R)
      → ((r : R) → P (clear r))
      → All P (update all_rows clear rs)
  unfolding update
  All-cleared P clear [] h = tt
  All-cleared P clear (r ∷ rs) h = (h r, All-cleared P clear rs h)

  -- The mark is cleared everywhere and then set on one version.
  pub HasDefault-choose :
      (v : Bytes) (set clear : R → R) (rs : List R)
      → ((r : R) → version (set r) ≡ version r)
      → ((r : R) → version (clear r) ≡ version r)
      → ((r : R) → is_default (clear r) ≡ false)
      → HasDefault rs
      → HasDefault (update (has v) set (update all_rows clear rs))
  HasDefault-choose v set clear rs same_set same_clear unmarked (distinct, h) = (
    Distinct-update has version (has v) set _ (λ k r. rw (same_set r) refl) same_set
        (Distinct-update has version all_rows clear rs (λ k r. rw (same_clear r) refl) same_clear
          distinct),
    (
      v,
      All-update_to (IsOnly v) (has v) set _
          (λ r e on. same_set r ∙ (bytes_beq_iff (version r) v).0 e)
          (All-cleared (λ r. has v r ≡ false → IsOnly v r) clear rs
            (λ r e on. absurd (ground (arith, on, unmarked r)))),
    ),
  )

  swapped : (v : Bytes) (r : R) → (version r == v) ≡ (v == version r)
  swapped v r = elim (Bool-cases (version r == v)) [
    | inl b ↦ b ∙ sym ((bytes_beq_iff v (version r)).1 (sym ((bytes_beq_iff (version r) v).0 b)))
    | inr b ↦
        b
        ∙ sym (
            bytes_beq_ne v (version r)
              λ same. absurd (ground (arith, (bytes_beq_iff (version r) v).1 (sym same), b)))
  ]

  -- A new version comes without the mark.
  pub HasDefault-append :
      (n : R) (rs : List R)
      → is_default n ≡ false
      → any (has (version n)) rs ≡ false
      → HasDefault rs
      → HasDefault (rs ++ n ∷ [])
  HasDefault-append n rs unmarked missing (distinct, (v, only)) = (
    Distinct-append has version rs n (swapped (version n)) missing distinct,
    (v, All-append (IsOnly v) rs (n ∷ []) only ((λ on. absurd (ground (arith, on, unmarked))), tt)),
  )

  pub HasDefault-keep : (q : R → Bool) (rs : List R) → HasDefault rs → HasDefault (keep q rs)
  HasDefault-keep q rs (distinct, (v, only)) =
      (Distinct-keep has version q rs distinct, (v, All-keep (IsOnly v) q rs only))
