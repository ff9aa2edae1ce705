-- ===== src/Lib.antt =====
-- auraCP, a control panel for web hosting: a model of the parts that decide what the panel does to the
-- machine, and theorems about them.
--
-- The program. The daemon (cmd/auracpd) serves an HTTP API (internal/api). A request passes the wrapper of
-- internal/api/middleware.go, which throttles logins and tests the CSRF token, and then the guard that the
-- route table (internal/api/api.go) puts before its handler: a session (internal/api/auth.go), and what the role
-- permits (internal/perm). Behind the guards, handlers sign users in and out and manage them (internal/api/auth.go,
-- internal/api/admin.go), manage the files of a site (internal/api/sitefeatures.go over internal/files), and create and delete sites, by the newer
-- internal/site/creator or by internal/site. Creating a site checks its names (internal/validate) and the state of
-- the machine, makes a Linux user (internal/osuser), certificate files, a PHP-FPM pool (internal/phpruntime) or a
-- systemd unit (internal/runtime), and an nginx configuration, which internal/webserver renders from its own
-- template and internal/site/creator from those of internal/webserver/template. internal/acme issues and renews
-- certificates, and internal/updater compares versions with the latest release. Paths of files come from
-- internal/paths, and records are kept in the database of internal/store.
--
-- The files.
--   Prelude        shared types, tests, lists, integers and results; Prelude/Text has what the source takes
--                  from Go's strings and strconv, over bytes
--   Errors         the errors of all parts, one constructor for each place that makes one
--   Regex          Go's regular expressions as far as the source uses them, by derivatives
--   Filepath       path/filepath on Unix: Clean, Join, Base and Dir
--   Validate       internal/validate/validate.go: Domain, Username, Identifier, Port, SiteType, PHPVersion,
--                  ParsePort
--   Paths          internal/paths/paths.go, one function for each path
--   Os             the operating system: a log of calls, a Kernel that answers them, methods in Exec;
--                  Os/Confined (every call satisfies a predicate), Os/Steady (a predicate of the state is kept
--                  or brought about), Os/Logged (calls made, paths left free), Os/Triples (what holds after a
--                  method by its result)
--   Files          internal/files/files.go: Resolve (resolve), Manage (Open, Delete, Rename, Mkdir, Touch,
--                  Chmod), Upload (Save, SaveAt), Edit (ReadText, WriteText), Archive (Zip, Unzip), Sort (List),
--                  Operations (any of them in any order)
--   Permissions    internal/perm/perm.go: Can, CompiledDefault, DefaultForRole, SetOverride, ClearOverride,
--                  Parse, AllowedSites; the package variable `overrides` is an explicit argument
--   Web            internal/api/middleware.go: Limiter (rateLimiter, allow), Middleware (Secure and its helpers)
--   Updater        internal/updater/updater.go: Status and Refresh over the manager's state, compareVersions
--   Vhost          internal/webserver/processor and template: Processors (one for each placeholder), Template
--                  (For, Load, Render)
--   Site           internal/site/creator: Spec, Steps (the steps of all creators), Preflight, Create (Run,
--                  RunCreate), Delete (RunDelete); Users (internal/osuser), Pools (the pool files of
--                  internal/phpruntime), Units (internal/runtime)
--   Rows           SELECT and UPDATE on a table as a list of rows
--   Auth           Accounts (internal/store/auth.go, admin.go), Totp (internal/auth/totp.go), Handlers
--                  (internal/api/auth.go), Users (internal/api/admin.go, the scope of sites, and the start of
--                  cmd/auracpd/main.go), Routes (the table in Register), Events (requests and restarts in a row)
--   Store          internal/store/queries.go, sitedata.go, certificates.go, phpruntimes.go; Store/Nodes has
--                  noderuntimes.go
--   Host           the machine and the database together, for methods that act on both
--   Nginx          internal/webserver: Texts and PanelTexts (template.go), Render (Render), Manager (Apply, Remove,
--                  ApplyCatchAll, ApplyPanelProxy, RemovePanelProxy, Reload)
--   Acme           internal/acme: Obtain (the client, its account and challenges), Issue (issue, EnsureCert, renewDue)
--   Php            internal/phpruntime: Install, Remove, SetDefault, Reconcile, poolTemplate
--   Node           internal/noderuntime: Install, SetDefault, Remove, EnsurePM2, Reconcile
--   Api            internal/api/sitefeatures.go: SiteFiles (siteFiles, uploadFiles, downloadFile and the other
--                  handlers of files)
--   Sites          internal/site/site.go: Lifecycle (Create, ReapplyRuntime, Delete)
--   Tests          a machine to run the models on, and the theorems at concrete inputs
--
-- State and errors. A method that acts on the machine is a function from a state (the machine and the log of
-- calls made so far) to a result and a state; each call is logged before the machine answers it, so a theorem
-- on the log covers failed calls too. A handler of Auth is a function from the panel's tables to a reply and
-- tables. A statement of SQL fails where a constraint of the schema refuses it. Texts are lists of bytes, except
-- roles, addresses and settings of the panel, which are only compared. An error is a constructor without its
-- message.
--
-- Bounds and fuel. Numbers are natural numbers, and ℤ where the source tests for negative ones; Atoi clamps to
-- 64 bits as strconv does, and the counters of one-time codes and the total of an archive wrap at 64 bits. Itoa,
-- compareVersions and collapseBlanks run on fuel taken from their input (the number for Itoa, the length for the
-- others), and return `none` without it; the theorems on the last two show that it is enough.
--
-- Parameters. The kernel's answers, exec.LookPath, archive readers, runtime.GOARCH, url.Parse, JSON coding, the
-- multipart reader, password hashing, HMAC and base32, the secret box, random tokens, the clock, the ACME library,
-- the HTTP handler behind the wrapper, the embedded template bodies, the installation of PM2 and of WordPress; in
-- Site, the text of the pool and the database's greatest port.
--
-- Not modelled: logging, the dry-run mode, locks (each is held for a whole method), a database that fails, the
-- pauses of the renewal loop, the HTTP handlers of sites, databases, cron jobs, logs and settings behind
-- their guards, backups, cron, and the commands. TrimSpace removes ASCII space only.
pub mod Prelude
pub mod Errors
pub mod Regex
pub mod Filepath
pub mod Validate
pub mod Paths
pub mod Os
pub mod Files
pub mod Permissions
pub mod Web
pub mod Updater
pub mod Vhost
pub mod Site
pub mod Rows
pub mod Store
pub mod Host
pub mod Nginx
pub mod Auth
pub mod Acme
pub mod Php
pub mod Sites
pub mod Api
pub mod Node
pub mod Tests
