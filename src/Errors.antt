-- ===== src/Errors.antt =====
-- The places where the modelled code makes an error. The texts of the messages are left out: no
-- code reads them.
pub data Error : Type 0 where
  -- internal/validate
  invalid_domain invalid_username invalid_identifier invalid_port not_a_port : Error
  unknown_site_type unsupported_php_version : Error
  -- internal/files
  path_escapes_root empty_path invalid_relative_path invalid_component : Error
  invalid_filename invalid_target is_directory is_docroot already_exists : Error
  too_large binary_file no_sources archive_too_large not_gzip tar_read_failed : Error
  unsafe_entry entry_escapes_dir entry_escapes_root unsupported_archive : Error
  -- a call of the operating system that failed
  os_error : Error
  -- internal/webserver/template
  unknown_template not_bundled : Error
  -- internal/site/creator, internal/phpruntime and internal/runtime
  vhost_exists stale_pool home_has_files home_not_empty php_not_installed : Error
  upstream_missing upstream_not_url upstream_scheme upstream_loopback : Error
  start_file_missing module_missing php_not_configured runtime_not_configured : Error
  no_backend nginx_invalid unknown_type empty_response : Error
  -- a statement that a constraint of the schema refuses
  store_error : Error
  -- internal/webserver and internal/site
  nginx_missing upstream_required site_not_found : Error
  -- internal/phpruntime
  php_in_use php_unknown apt_failed reload_failed : Error
  -- internal/noderuntime
  node_version_invalid node_unknown node_in_use node_download_failed node_extract_failed : Error
  -- internal/acme
  no_cloudflare_token dns_setup_failed obtain_failed client_failed register_failed : Error
