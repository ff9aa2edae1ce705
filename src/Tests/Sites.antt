-- ===== src/Tests/Sites.antt =====
-- A site: making it, removing it, and a request about its files.
use aura_cp.Prelude.{ℕ, pos, Option, ◌≡◌, true, false, List, [], ◌∷◌, none, some, codes, bytes_eq}
use aura_cp.Os.{pure}
use aura_cp.Os.Triples.{After}
use aura_cp.Store.{Site, site_by_domain}
use aura_cp.Web.Middleware.{Request}
use aura_cp.Files.Archive.{Reader}
use aura_cp.Api.SiteFiles.{Part}
use aura_cp.Api.Laws.{Query, uploads, Serves, fresh, handle, handle-Serves}
use aura_cp.Host.{Host}
use aura_cp.Sites.{Spec, Deps}
use aura_cp.Sites.Lifecycle.{create, delete}
use aura_cp.Sites.Creation.{Leaves, Recorded, create_lem}
use aura_cp.Sites.Laws.{IsForgotten, delete_lem}
use aura_cp.Tests.Machine.{alice, example_com, machine}
use aura_cp.Tests.Hosting.{tables, host, authority, found}

abbrev spec : Spec
spec = record {
  site_type = codes "static";
  domain = example_com;
  user = alice;
  password = [];
  php_version = [];
  start_file = [];
  entry = [];
  upstream = [];
  node_version = [];
  use_pm2 = false;
  wp_install = false;
}

abbrev deps : Deps ℕ
deps = record {
  kernel = machine;
  look_path = found;
  has_php = true;
  has_node = true;
  bin_path = λ v. v;
  pm2_path = λ v. v;
  ensure_pm2 = λ v. pure tt;
  install_wordpress = λ s. pure tt;
  authority = authority;
}

create_lem_example :
    After
      (λ rec g. (rec.domain ≡ example_com) × Recorded deps rec g)
      (Leaves deps spec tables)
      (create deps spec host).0
      (create deps spec host).1
create_lem_example = create_lem deps spec host

delete_lem_example :
    After
      (λ x g. IsForgotten deps example_com tables g.world.tables)
      (λ g. g.world.tables ≡ tables)
      (delete deps example_com host).0
      (delete deps example_com host).1
delete_lem_example = delete_lem deps example_com host

abbrev alice_site : Site
alice_site = record {
  site_type = codes "static";
  domain = example_com;
  site_user = alice;
  root_path = [];
  app = [];
  node_version = none;
  port = pos 0;
  upstream = [];
  php_version = [];
  pm2_enabled = false;
  status = codes "active";
  status_text = [];
}

abbrev served : Host ℕ
served = record { machine = 0; tables = record tables { sites = alice_site ∷ [] }; client = none }

abbrev no_archives : Reader ℕ
no_archives = record { zip_items = λ p w. none; is_gzip = λ p w. false; tar_items = λ p b w. [] }

abbrev upload : Request
upload = record {
  method = codes "POST";
  path = codes "/api/sites/example.com/files";
  header = λ name. [];
  cookies = [];
  remote_addr = codes "127.0.0.1:9";
  tls = true;
}

abbrev parts : List (Option Part)
parts =
    some (record { form_name = codes "path"; filename = []; body = codes "photos" })
    ∷ some (record { form_name = codes "files"; filename = codes "../../x"; body = codes "hi" })
    ∷ none
    ∷ []

abbrev query : Query
query = uploads (some parts)

handle-Serves_example :
    Serves machine no_archives
      (λ b. "")
      upload
      60
      example_com
      served
      (some alice_site)
      (handle machine no_archives
        (λ b. "")
        upload
        60
        query
        example_com
        (fresh machine no_archives (λ b. "") upload 60 served))
unfolding handle site_by_domain
handle-Serves_example =
    handle-Serves machine no_archives (λ b. "") upload 60 query example_com served
