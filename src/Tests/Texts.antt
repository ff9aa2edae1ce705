-- ===== src/Tests/Texts.antt =====
-- Names, permissions and templates on concrete inputs.
use aura_cp.Prelude.{◌≡◌, ◌↔◌, [], codes, ok, pos, string_eq}
use aura_cp.Validate
use aura_cp.Validate.{parse_port}
use aura_cp.Validate.Laws.Names.{IsUserName, username_iff}
use aura_cp.Vhost.Processors.{SiteContext}
use aura_cp.Vhost.Template.{static, strip_from, process, render}
use aura_cp.Vhost.Blanks.{IsCollapsed, render-IsCollapsed}
use aura_cp.Tests.Machine.{alice, example_com}

username_iff_example : (Validate.username alice ≡ ok tt) ↔ IsUserName alice
username_iff_example = username_iff alice

abbrev context : SiteContext
context = record {
  site_type = codes "static";
  domain = example_com;
  user = alice;
  doc_root = codes "/home/alice/htdocs/example.com";
  log_dir = codes "/home/alice/logs";
  cert_path = [];
  key_path = [];
  php_version = [];
  fpm_socket = [];
  app_port = pos 0;
  reverse_proxy_url = [];
  settings = codes "\n\n\n";
}

render-IsCollapsed_example :
    IsCollapsed
      (strip_from 0 (process static.processors (codes "{{root}}\n\n{{settings}}\n") context))
      (render static (codes "{{root}}\n\n{{settings}}\n") context)
render-IsCollapsed_example = render-IsCollapsed static (codes "{{root}}\n\n{{settings}}\n") context
