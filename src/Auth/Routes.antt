-- ===== src/Auth/Routes.antt =====
-- The route table of internal/api/api.go: Register, with the wrapper that stands around each handler.
--
-- Which row a request meets is decided by net/http's ServeMux and is not modelled.
use aura_cp.Prelude.{ℕ, List, [], ◌∷◌, String, string_eq}
use aura_cp.Auth.Accounts.{Panel}
use aura_cp.Web.Middleware.{Request}
use aura_cp.Auth.Handlers.{Reply, Crypto, protect, require_admin, require_perm}

pub data Guard : Type 0 where
  open_to_all : Guard
  signed_in : Guard
  admin_only : Guard
  needs : (resource action : String) → Guard

pub record Route : Type 0 where
  pub method : String
  pub pattern : String
  pub guard : Guard
  pub handler : String

abbrev pub route : (method pattern : String) → Guard → String → Route
route method pattern guard handler = record {
  method = method;
  pattern = pattern;
  guard = guard;
  handler = handler;
}

-- one row for each call of mux.Handle and mux.HandleFunc
unfoldable pub routes : List Route
routes =
    route "GET" "/api/health" open_to_all "health"
    ∷ route "GET" "/api/auth/setup" open_to_all "setupStatus"
    ∷ route "POST" "/api/auth/setup" open_to_all "setupAdmin"
    ∷ route "POST" "/api/auth/login" open_to_all "login"
    ∷ route "POST" "/api/auth/mfa/verify" open_to_all "mfaVerify"
    ∷ route "POST" "/api/auth/logout" open_to_all "logout"
    ∷ route "GET" "/api/auth/me" open_to_all "me"
    ∷ route "POST" "/api/auth/mfa/setup" signed_in "mfaSetup"
    ∷ route "POST" "/api/auth/mfa/enable" signed_in "mfaEnable"
    ∷ route "POST" "/api/auth/mfa/disable" signed_in "mfaDisable"
    ∷ route "GET" "/api/sites" (needs "sites" "read") "listSites"
    ∷ route "POST" "/api/sites" (needs "sites" "create") "createSite"
    ∷ route "GET" "/api/sites/{domain}" (needs "sites" "read") "getSite"
    ∷ route "PATCH" "/api/sites/{domain}" (needs "sites" "update") "patchSite"
    ∷ route "DELETE" "/api/sites/{domain}" (needs "sites" "delete") "deleteSite"
    ∷ route "GET" "/api/sites/{domain}/config" (needs "sites" "read") "getSiteConfig"
    ∷ route "PATCH" "/api/sites/{domain}/config" (needs "sites" "update") "patchSiteConfig"
    ∷ route "GET" "/api/sites/{domain}/vhost" (needs "sites" "read") "getSiteVhost"
    ∷ route "PUT" "/api/sites/{domain}/vhost" (needs "sites" "update") "putSiteVhost"
    ∷ route "GET" "/api/database-servers" signed_in "listDatabaseServers"
    ∷ route "GET" "/api/sites/{domain}/databases" (needs "databases" "read") "listDatabases"
    ∷ route "POST" "/api/sites/{domain}/databases" (needs "databases" "create") "createDatabase"
    ∷ route "DELETE" "/api/sites/{domain}/databases/{engine}/{name}" (needs "databases" "delete")
        "deleteDatabase"
    ∷ route "POST" "/api/sites/{domain}/databases/{engine}/{name}/manage" (needs "databases" "read")
        "manageDatabase"
    ∷ route "GET" "/api/sites/{domain}/logs" signed_in "siteLogs"
    ∷ route "GET" "/api/sites/{domain}/files" (needs "files" "read") "siteFiles"
    ∷ route "POST" "/api/sites/{domain}/files" (needs "files" "create") "uploadFiles"
    ∷ route "DELETE" "/api/sites/{domain}/files" (needs "files" "delete") "deleteFile"
    ∷ route "GET" "/api/sites/{domain}/files/download" (needs "files" "read") "downloadFile"
    ∷ route "POST" "/api/sites/{domain}/files/rename" (needs "files" "update") "renameFile"
    ∷ route "POST" "/api/sites/{domain}/files/mkdir" (needs "files" "create") "mkdirFile"
    ∷ route "POST" "/api/sites/{domain}/files/touch" (needs "files" "create") "touchFile"
    ∷ route "GET" "/api/sites/{domain}/files/text" (needs "files" "read") "readTextFile"
    ∷ route "PUT" "/api/sites/{domain}/files/text" (needs "files" "update") "writeTextFile"
    ∷ route "POST" "/api/sites/{domain}/files/chmod" (needs "files" "update") "chmodFile"
    ∷ route "POST" "/api/sites/{domain}/files/delete-many" (needs "files" "delete")
        "deleteManyFiles"
    ∷ route "POST" "/api/sites/{domain}/files/zip" (needs "files" "create") "zipFiles"
    ∷ route "POST" "/api/sites/{domain}/files/unzip" (needs "files" "create") "unzipFile"
    ∷ route "GET" "/api/sites/{domain}/cron" (needs "cron" "read") "listCron"
    ∷ route "POST" "/api/sites/{domain}/cron" (needs "cron" "create") "addCron"
    ∷ route "DELETE" "/api/sites/{domain}/cron/{id}" (needs "cron" "delete") "deleteCron"
    ∷ route "GET" "/api/sites/{domain}/backups" (needs "backups" "read") "listBackups"
    ∷ route "POST" "/api/sites/{domain}/backups" (needs "backups" "create") "createBackup"
    ∷ route "DELETE" "/api/sites/{domain}/backups/{id}" (needs "backups" "delete") "deleteBackup"
    ∷ route "GET" "/api/sites/{domain}/ssh-users" (needs "ssh_users" "read") "listSSHUsers"
    ∷ route "POST" "/api/sites/{domain}/ssh-users" (needs "ssh_users" "create") "addSSHUser"
    ∷ route "DELETE" "/api/sites/{domain}/ssh-users/{username}" (needs "ssh_users" "delete")
        "deleteSSHUser"
    ∷ route "GET" "/api/sites/{domain}/ssl" (needs "sites" "read") "siteSSL"
    ∷ route "POST" "/api/sites/{domain}/ssl/renew" (needs "sites" "update") "siteRenewCert"
    ∷ route "GET" "/api/sites/{domain}/ssl/preflight" (needs "sites" "read") "siteSSLPreflight"
    ∷ route "GET" "/api/instance" signed_in "instanceInfo"
    ∷ route "GET" "/api/instance/services" admin_only "instanceServices"
    ∷ route "POST" "/api/instance/services/{name}/restart" admin_only "instanceServiceRestart"
    ∷ route "GET" "/api/admin/users" (needs "users" "read") "listAdminUsers"
    ∷ route "POST" "/api/admin/users" (needs "users" "create") "createAdminUser"
    ∷ route "PUT" "/api/admin/users/{email}" (needs "users" "update") "updateAdminUser"
    ∷ route "DELETE" "/api/admin/users/{email}" (needs "users" "delete") "deleteAdminUser"
    ∷ route "GET" "/api/admin/roles" (needs "users" "read") "listRolePerms"
    ∷ route "PUT" "/api/admin/roles/{role}" (needs "users" "update") "updateRolePerms"
    ∷ route "DELETE" "/api/admin/roles/{role}" (needs "users" "update") "resetRolePerms"
    ∷ route "GET" "/api/settings" signed_in "getSettings"
    ∷ route "PUT" "/api/settings" (needs "settings" "update") "putSettings"
    ∷ route "GET" "/api/cloudflare" (needs "settings" "read") "getCloudflare"
    ∷ route "POST" "/api/cloudflare" (needs "settings" "update") "setCloudflare"
    ∷ route "GET" "/api/settings/panel-domain" (needs "settings" "read") "getPanelDomain"
    ∷ route "POST" "/api/settings/panel-domain" (needs "settings" "update") "setPanelDomain"
    ∷ route "GET" "/api/backups/remote" (needs "settings" "read") "getRemoteBackup"
    ∷ route "POST" "/api/backups/remote" (needs "settings" "update") "setRemoteBackup"
    ∷ route "GET" "/api/audit" admin_only "auditLog"
    ∷ route "GET" "/api/instance/node-versions" (needs "settings" "read") "listNodeRuntimes"
    ∷ route "POST" "/api/instance/node-versions" (needs "settings" "update") "installNodeRuntime"
    ∷ route "POST" "/api/instance/node-versions/{version}/default" (needs "settings" "update")
        "setDefaultNodeRuntime"
    ∷ route "DELETE" "/api/instance/node-versions/{version}" (needs "settings" "update")
        "deleteNodeRuntime"
    ∷ route "PUT" "/api/sites/{domain}/node-version" (needs "sites" "update") "setSiteNodeVersion"
    ∷ route "PUT" "/api/sites/{domain}/pm2" (needs "sites" "update") "setSitePM2"
    ∷ route "GET" "/api/instance/php-versions" (needs "settings" "read") "listPHPRuntimes"
    ∷ route "POST" "/api/instance/php-versions" (needs "settings" "update") "installPHPRuntime"
    ∷ route "POST" "/api/instance/php-versions/{version}/default" (needs "settings" "update")
        "setDefaultPHPRuntime"
    ∷ route "DELETE" "/api/instance/php-versions/{version}" (needs "settings" "update")
        "deletePHPRuntime"
    ∷ route "PUT" "/api/sites/{domain}/php-version" (needs "sites" "update") "setSitePHPVersion"
    ∷ route "GET" "/api/sites/{domain}/php-settings" (needs "sites" "read") "getPHPSettings"
    ∷ route "PUT" "/api/sites/{domain}/php-settings" (needs "sites" "update") "setPHPSettings"
    ∷ route "GET" "/api/certificates" (needs "settings" "read") "listCertificates"
    ∷ route "POST" "/api/certificates/{domain}/renew" (needs "settings" "update") "renewCertificate"
    ∷ route "GET" "/api/instance/update" (needs "settings" "read") "instanceUpdateStatus"
    ∷ route "POST" "/api/instance/update" (needs "settings" "update") "instanceUpdateApply"
    ∷ []

-- A handler behind its wrapper.
unfoldable pub behind :
    Crypto → Guard → (r : Request) (now : ℕ) (h : Panel → Reply × Panel) → Panel → Reply × Panel
unfolding protect require_admin require_perm
behind c open_to_all r now h p = h p
behind c signed_in r now h p = protect c r now h p
behind c admin_only r now h p = require_admin c r now h p
behind c (needs resource action) r now h p = require_perm c r now h p resource action
