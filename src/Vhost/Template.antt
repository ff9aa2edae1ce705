-- ===== src/Vhost/Template.antt =====
-- internal/webserver/template: the chain of processors of each site type, and rendering.
--
-- The bodies of the templates are files that the build embeds: a parameter.
use aura_cp.Prelude.{
  ℕ, suc, zero, ◌+◌, ◌-◌, Bool, true, false, ◌&&◌, ◌||◌, List, [], ◌∷◌, ◌++◌, Option, none, some,
  Bytes, codes, ◌==◌, bytes_eq, nat_eq, leb, length, if◌then◌else◌, Result, ok, err,
}
use aura_cp.Prelude.Text.{contains, has_prefix, replace_all}
use aura_cp.Errors.{Error, unknown_template, not_bundled}
use aura_cp.Vhost.Processors.{
  SiteContext, Processor, server_name, root, ssl_certificate, ssl_certificate_key, nginx_access_log,
  nginx_error_log, php_fpm_socket, app_port, reverse_proxy_url, settings,
}

pub record Template : Type 0 where
  pub template_type : Bytes
  pub processors : List Processor

abbrev pub with_type : Bytes → Template → Template
with_type t p = record { template_type = t; processors = p.processors }

abbrev pub php : Template
php = record {
  template_type = codes "php";
  processors =
      server_name ∷ root ∷ ssl_certificate ∷ ssl_certificate_key ∷ nginx_access_log
      ∷ nginx_error_log ∷ php_fpm_socket ∷ settings ∷ [];
}

abbrev pub word_press : Template
word_press = with_type (codes "wordpress") php

abbrev pub nodejs : Template
nodejs = record {
  template_type = codes "nodejs";
  processors =
      server_name ∷ root ∷ ssl_certificate ∷ ssl_certificate_key ∷ nginx_access_log
      ∷ nginx_error_log ∷ app_port ∷ settings ∷ [];
}

abbrev pub python : Template
python = with_type (codes "python") nodejs

abbrev pub static : Template
static = record {
  template_type = codes "static";
  processors =
      server_name ∷ root ∷ ssl_certificate ∷ ssl_certificate_key ∷ nginx_access_log
      ∷ nginx_error_log ∷ settings ∷ [];
}

abbrev pub reverse_proxy : Template
reverse_proxy = record {
  template_type = codes "reverseproxy";
  processors =
      server_name ∷ ssl_certificate ∷ ssl_certificate_key ∷ nginx_access_log ∷ nginx_error_log
      ∷ reverse_proxy_url ∷ settings ∷ [];
}

-- For
unfoldable pub template_for : Bytes → Result Error Template
template_for t =
    if t == codes "php"
    then ok php
    else if t == codes "wordpress"
    then ok word_press
    else if t == codes "nodejs"
    then ok nodejs
    else if t == codes "python"
    then ok python
    else if t == codes "static"
    then ok static
    else if t == codes "reverseproxy"
    then ok reverse_proxy
    else err unknown_template

abbrev pub or_missing : Option Bytes → Result Error Bytes
or_missing none = err not_bundled
or_missing (some b) = ok b

-- Load, given the embedded files by name
unfoldable pub load : (Bytes → Option Bytes) → Bytes → Result Error Bytes
load bundled t = or_missing (bundled (codes "templates/" ++ t ++ codes ".tmpl"))

abbrev pub is_name_byte : ℕ → Bool
is_name_byte c = (leb b'a' c && leb c b'z') || c == b'_'

-- The length of [a-z_]*\}\} at the start of a text, 0 where it does not match.
unfoldable pub rest_of_placeholder : Bytes → ℕ
rest_of_placeholder [] = 0
rest_of_placeholder (c ∷ s) =
    let n = rest_of_placeholder s in
    if is_name_byte c
    then (if n == 0 then 0 else suc n)
    else if has_prefix (codes "}}") (c ∷ s)
    then 2
    else 0

-- The length of \{\{[a-z_]+\}\} at the start of a text, 0 where it does not match.
unfoldable pub placeholder : Bytes → ℕ
placeholder (x ∷ y ∷ c ∷ s) =
    if x == b'{' && (y == b'{' && (is_name_byte c && not_zero (rest_of_placeholder (c ∷ s))))
    then 2 + rest_of_placeholder (c ∷ s)
    else 0
  where
    not_zero : ℕ → Bool
    not_zero zero = false
    not_zero (suc n) = true
placeholder [] = 0
placeholder (x ∷ []) = 0
placeholder (x ∷ y ∷ []) = 0

-- emptyPlaceholder.ReplaceAllString(s, ""); `skip` counts the bytes still to leave out.
unfoldable pub strip_from : ℕ → Bytes → Bytes
unfolding placeholder
strip_from skip [] = []
strip_from (suc skip) (c ∷ s) = strip_from skip s
strip_from zero (c ∷ s) =
    let inside = strip_from (placeholder (c ∷ s) - 1) s in
    let kept = c ∷ strip_from 0 s in if placeholder (c ∷ s) == 0 then kept else inside

abbrev pub three_newlines : Bytes
three_newlines = 10 ∷ 10 ∷ 10 ∷ []

abbrev pub two_newlines : Bytes
two_newlines = 10 ∷ 10 ∷ []

-- The loop, on fuel: `none` when it runs out.
unfoldable pub collapse_from : ℕ → Bytes → Option Bytes
collapse_from zero s = none
collapse_from (suc f) s =
    let rest = collapse_from f (replace_all s three_newlines two_newlines) in
    if contains three_newlines s then rest else some s

unfoldable pub collapse_blanks : Bytes → Option Bytes
unfolding collapse_from
collapse_blanks s = collapse_from (suc (length s)) s

unfoldable pub process : List Processor → Bytes → SiteContext → Bytes
process [] body ctx = body
process (p ∷ ps) body ctx = process ps (p body ctx) ctx

-- Render; `none` stands for a loop that does not end.
unfoldable pub render : Template → Bytes → SiteContext → Option Bytes
unfolding collapse_blanks strip_from process
render t body ctx = collapse_blanks (strip_from 0 (process t.processors body ctx))
