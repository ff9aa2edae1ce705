-- ===== src/Nginx/Manager.antt =====
-- internal/webserver/webserver.go: putting nginx configurations in place, and taking them away.
--
-- exec.LookPath is a parameter.
use aura_cp.Prelude.{
  Bool, false, ◌&&◌, not, [], ◌++◌, Option, none, some, Bytes, codes, ◌==◌, bytes_eq, if◌then◌else◌,
  Result, ok,
}
use aura_cp.Errors.{Error, nginx_missing}
use aura_cp.Validate
use aura_cp.Paths.{
  htpasswd_dir, htpasswd_file, acme_challenge_dir, nginx_sites_available, nginx_sites_enabled,
  nginx_site_file, nginx_site_link, cert_path, key_path, panel_nginx_file, panel_nginx_link,
  catch_all_nginx_file, catch_all_nginx_link,
}
use aura_cp.Os.{
  mkdir_all, remove, write_file, symlink, Kernel, Exec, pure, lift, asks, guard, perform, attempt,
  ◌>>=◌, ◌>>◌,
}
use aura_cp.Site.Users.{exists}
use aura_cp.Site.Steps.{staged, swap_vhost, reload_nginx, issued}
use aura_cp.Nginx.Render.{Spec, render}
use aura_cp.Nginx.PanelTexts.{PanelData, panel_text, catch_all_text}

module _ {W : Type 0} (k : Kernel W) (look_path : Bytes → W → Bool) where
  unfoldable pub reload : Exec W (Unit {0})
  unfolding reload_nginx
  reload = do
    there ← asks (look_path (codes "nginx"))
    guard (not there) nginx_missing
    reload_nginx k

  abbrev pub password_line : Spec → Bytes
  password_line s = s.basic_auth_user ++ codes ":" ++ s.basic_auth_hash ++ codes "\n"

  abbrev pub write_password : Spec → Exec W (Unit {0})
  write_password s = do
    perform k (mkdir_all htpasswd_dir 0o755)
    perform k (write_file (htpasswd_file s.domain) (password_line s) 0o644)

  -- The htpasswd file, or its removal.
  unfoldable pub apply_basic_auth : Spec → Exec W (Unit {0})
  apply_basic_auth s =
      if not (s.basic_auth_user == []) && not (s.basic_auth_hash == [])
      then write_password s
      else attempt k (remove (htpasswd_file s.domain))

  unfoldable pub site_text : Spec → Result Error Bytes
  site_text s = if s.override == [] then render s else ok s.override

  unfoldable pub apply : Spec → Exec W (Unit {0})
  unfolding site_text apply_basic_auth swap_vhost
  apply s = do
    content ← lift (site_text s)
    perform k (mkdir_all nginx_sites_available 0o755)
    perform k (mkdir_all nginx_sites_enabled 0o755)
    perform k (mkdir_all acme_challenge_dir 0o755)
    perform k (write_file (staged s.domain) content 0o644)
    swap_vhost k s.domain
    apply_basic_auth s
    reload

  -- Remove
  unfoldable pub remove_site : Bytes → Exec W (Unit {0})
  remove_site domain = do
    lift (Validate.domain domain)
    attempt k (remove (nginx_site_link domain))
    attempt k (remove (nginx_site_file domain))
    reload

  abbrev pub holds : Bytes → Option Bytes → Bool
  holds want none = false
  holds want (some have) = have == want

  abbrev pub up_to_date : W → Bool
  up_to_date w =
      holds catch_all_text (k.read_file catch_all_nginx_file w)
      && exists (k.stat catch_all_nginx_link w)

  -- a file of sites-available with a link to it in sites-enabled
  abbrev pub install : (file link body : Bytes) → Exec W (Unit {0})
  install file link body = do
    perform k (write_file file body 0o644)
    attempt k (remove link)
    perform k (symlink file link)
    reload

  unfoldable pub apply_catch_all : Exec W (Unit {0})
  apply_catch_all = do
    perform k (mkdir_all nginx_sites_available 0o755)
    perform k (mkdir_all nginx_sites_enabled 0o755)
    same ← asks up_to_date
    if same then pure tt else install catch_all_nginx_file catch_all_nginx_link catch_all_text

  abbrev pub panel_data : (domain backend : Bytes) → Bool → PanelData
  panel_data domain backend has_cert = record {
    domain = domain;
    backend = backend;
    acme_dir = acme_challenge_dir;
    cert_path = issued k has_cert (cert_path domain);
    key_path = issued k has_cert (key_path domain);
  }

  unfoldable pub apply_panel_proxy : (domain backend : Bytes) → Exec W (Unit {0})
  apply_panel_proxy domain backend = do
    lift (Validate.domain domain)
    cert ← asks (k.stat (cert_path domain))
    perform k (mkdir_all nginx_sites_available 0o755)
    perform k (mkdir_all nginx_sites_enabled 0o755)
    perform k (mkdir_all acme_challenge_dir 0o755)
    install panel_nginx_file panel_nginx_link (panel_text (panel_data domain backend (exists cert)))

  unfoldable pub remove_panel_proxy : Exec W (Unit {0})
  remove_panel_proxy = do
    attempt k (remove panel_nginx_link)
    attempt k (remove panel_nginx_file)
    reload
