-- ===== src/Vhost/Types.antt =====
-- Which site types have a template.
use aura_cp.Prelude.{
  ◌≡◌, refl, Bool, true, false, ◌||◌, Bytes, codes, ◌==◌, bytes_eq, if◌then◌else◌, Result, ok, err,
}
use aura_cp.Errors.{Error, unknown_template, unknown_site_type}
use aura_cp.Validate
use aura_cp.Vhost.Template.{template_for, php, word_press, nodejs, python, static, reverse_proxy}

abbrev pub is_ok : {A : Type 0} → Result Error A → Bool
is_ok (ok a) = true
is_ok (err e) = false

-- The validator and the templates know the same site types, so no site type that validates is
-- refused for want of a template, and none has one without validating.
pub template_for-site_type : (t : Bytes) → is_ok (template_for t) ≡ is_ok (Validate.site_type t)
unfolding template_for Validate.site_type
template_for-site_type t =
    six (t == codes "php") (t == codes "wordpress") (t == codes "nodejs") (t == codes "python")
      (t == codes "static") (t == codes "reverseproxy")
  where
    six :
        (a b c d e f : Bool)
        → is_ok (
            if a
            then ok php
            else if b
            then ok word_press
            else if c
            then ok nodejs
            else if d
            then ok python
            else if e
            then ok static
            else if f
            then ok reverse_proxy
            else err unknown_template)
          ≡ is_ok (if b || a || c || d || e || f then ok tt else err unknown_site_type)
    six true true c d e f = refl
    six true false c d e f = refl
    six false true c d e f = refl
    six false false true d e f = refl
    six false false false true e f = refl
    six false false false false true f = refl
    six false false false false false true = refl
    six false false false false false false = refl
