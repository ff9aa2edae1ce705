-- ===== src/Api/SiteFiles.antt =====
-- internal/api/sitefeatures.go: the handlers of the files of a site.
--
-- JSON decoding and the multipart reader are parameters: `none` is an error of theirs. The audit log keeps texts in
-- another type than paths, so that `text` stands between the two.
use aura_cp.Prelude.{
  ℕ, zero, suc, ◌+◌, ◌*◌, ◌-◌, ◌&&◌, ◌||◌, not, List, [], ◌∷◌, ◌++◌, Option, none, some, String,
  Bytes, codes, ◌==◌, bytes_eq, nat_eq, ltb, if◌then◌else◌, Result, ok, err,
}
use aura_cp.Prelude.Text.{itoa}
use aura_cp.Errors.{Error}
use aura_cp.Os.{Info, Kernel, Exec, pure, ◌>>=◌, ◌>>◌}
use aura_cp.Web.Middleware.{Request}
use aura_cp.Auth.Handlers.{audit}
use aura_cp.Store.{Site, site_by_domain}
use aura_cp.Host.{Host, on_machine, query, commit, caught}
use aura_cp.Files.Sort.{Entry, list_dir}
use aura_cp.Files.Manage.{open_file, delete, rename_to, make_dir, touch, change_mode}
use aura_cp.Files.Upload.{save_at}
use aura_cp.Files.Edit.{read_text, write_text}
use aura_cp.Files.Archive.{Reader, zip, unzip}

-- What a handler answers; a body that only reports an error is `problem`.
pub data Answer : Type 0 where
  problem : (status : ℕ) → Answer
  done : (status : ℕ) → Answer
  entries : List Entry → Answer
  download : Info → Answer
  content : Bytes → Answer
  -- how many, and the names of those that failed
  counted : ℕ → List Bytes → Answer

-- a part of a multipart body: its form name, its file name without filepath.Base, and what it holds
pub record Part : Type 0 where
  pub form_name : Bytes
  pub filename : Bytes
  pub body : Bytes

-- at most n bytes, as io.LimitReader gives
abbrev pub take : ℕ → Bytes → Bytes
take zero xs = []
take (suc n) [] = []
take (suc n) (x ∷ xs) = x ∷ take n xs

abbrev pub octal_digits : ℕ → Bytes → Option ℕ
octal_digits acc [] = some acc
octal_digits acc (c ∷ cs) =
    let rest = octal_digits (acc * 8 + (c - b'0')) cs in
    if ltb c b'0' || ltb b'7' c then none else rest

-- strconv.ParseUint(s, 8, 32)
abbrev pub parse_octal : Bytes → Option ℕ
parse_octal [] = none
parse_octal (c ∷ cs) = elim (octal_digits 0 (c ∷ cs)) [
  | none ↦ none
  | some n ↦ if ltb n 4294967296 then some n else none
]

module _ {W : Type 0} (k : Kernel W) (reader : Reader W) (text : Bytes → String) (r : Request)
    (now : ℕ) where
  abbrev pub audited : (action : String) (target : Bytes) → Exec (Host W) (Unit {0})
  audited action target =
      commit (λ t. record t { panel = audit r now action (text target) t.panel })

  abbrev pub for_site : Option Site → (Site → Exec (Host W) Answer) → Exec (Host W) Answer
  for_site none f = pure (problem 404)
  for_site (some st) f = f st

  abbrev pub with_site : (domain : Bytes) → (Site → Exec (Host W) Answer) → Exec (Host W) Answer
  with_site domain f = query (site_by_domain domain) >>= λ row. for_site row f

  abbrev pub shown : {A : Type 0} → (A → Answer) → Result Error A → Exec (Host W) Answer
  shown f (ok a) = pure (f a)
  shown f (err e) = pure (problem 400)

  abbrev pub noted :
      (action : String) (target : Bytes) (status : ℕ)
      → Result Error (Unit {0})
      → Exec (Host W) Answer
  noted action target status (ok x) = audited action target >> pure (done status)
  noted action target status (err e) = pure (problem 400)

  -- an operation of the file manager that is noted in the audit log
  abbrev pub change :
      (action : String) (target : Bytes) (status : ℕ) → Exec W (Unit {0}) → Exec (Host W) Answer
  change action target status m = caught (on_machine m) >>= noted action target status

  abbrev pub below : (domain path : Bytes) → Bytes
  below domain path = domain ++ codes "/" ++ path

  unfoldable pub site_files : (domain path : Bytes) → Exec (Host W) Answer
  site_files domain path =
      with_site domain
        λ st. caught (on_machine (list_dir k st.site_user domain path)) >>= shown entries

  unfoldable pub download_file : (domain path : Bytes) → Exec (Host W) Answer
  download_file domain path =
      with_site domain
        λ st. caught (on_machine (open_file k st.site_user domain path)) >>= shown download

  unfoldable pub read_text_file : (domain path : Bytes) → Exec (Host W) Answer
  read_text_file domain path =
      with_site domain
        λ st. caught (on_machine (read_text k st.site_user domain path)) >>= shown content

  unfoldable pub delete_file : (domain path : Bytes) → Exec (Host W) Answer
  delete_file domain path =
      with_site domain
        λ st. change "site.files.delete" (below domain path) 200 (delete k st.site_user domain path)

  -- The arrow in the text is U+2192.
  abbrev pub renaming : (domain : Bytes) → Site → Option (Bytes × Bytes) → Exec (Host W) Answer
  renaming domain st none = pure (problem 400)
  renaming domain st (some (path, name)) =
      change "site.files.rename" (below domain path ++ (0xe2 ∷ 0x86 ∷ 0x92 ∷ []) ++ name) 200
        (rename_to k st.site_user domain path name)

  unfoldable pub rename_file : (domain : Bytes) → Option (Bytes × Bytes) → Exec (Host W) Answer
  rename_file domain input = with_site domain λ st. renaming domain st input

  abbrev pub making : (domain : Bytes) → Site → Option (Bytes × Bytes) → Exec (Host W) Answer
  making domain st none = pure (problem 400)
  making domain st (some (path, name)) =
      change "site.files.mkdir" (below domain path ++ codes "/" ++ name) 201
        (make_dir k st.site_user domain path name)

  unfoldable pub mkdir_file : (domain : Bytes) → Option (Bytes × Bytes) → Exec (Host W) Answer
  mkdir_file domain input = with_site domain λ st. making domain st input

  abbrev pub touching : (domain : Bytes) → Site → Option (Bytes × Bytes) → Exec (Host W) Answer
  touching domain st none = pure (problem 400)
  touching domain st (some (path, name)) =
      change "site.files.touch" (below domain path ++ codes "/" ++ name) 201
        (touch k st.site_user domain path name)

  unfoldable pub touch_file : (domain : Bytes) → Option (Bytes × Bytes) → Exec (Host W) Answer
  touch_file domain input = with_site domain λ st. touching domain st input

  abbrev pub writing : (domain : Bytes) → Site → Option (Bytes × Bytes) → Exec (Host W) Answer
  writing domain st none = pure (problem 400)
  writing domain st (some (path, body)) =
      change "site.files.edit" (below domain path) 200 (write_text k st.site_user domain path body)

  unfoldable pub write_text_file : (domain : Bytes) → Option (Bytes × Bytes) → Exec (Host W) Answer
  write_text_file domain input = with_site domain λ st. writing domain st input

  abbrev pub with_mode :
      (domain : Bytes) → Site → (path mode : Bytes) → Option ℕ → Exec (Host W) Answer
  with_mode domain st path mode none = pure (problem 400)
  with_mode domain st path mode (some n) =
      if ltb 0o777 n
      then pure (problem 400)
      else change "site.files.chmod" (below domain path ++ codes ":" ++ mode) 200
          (change_mode k st.site_user domain path n)

  abbrev pub setting_mode : (domain : Bytes) → Site → Option (Bytes × Bytes) → Exec (Host W) Answer
  setting_mode domain st none = pure (problem 400)
  setting_mode domain st (some (path, mode)) = with_mode domain st path mode (parse_octal mode)

  unfoldable pub chmod_file : (domain : Bytes) → Option (Bytes × Bytes) → Exec (Host W) Answer
  chmod_file domain input = with_site domain λ st. setting_mode domain st input

  abbrev pub tallied : (name : Bytes) → ℕ × List Bytes → Result Error (Unit {0}) → ℕ × List Bytes
  tallied name (n, failed) (ok x) = (suc n, failed)
  tallied name (n, failed) (err e) = (n, failed ++ name ∷ [])

  unfoldable pub delete_each :
      (domain user : Bytes) → List Bytes → ℕ × List Bytes → Exec (Host W) (ℕ × List Bytes)
  delete_each domain user [] so_far = pure so_far
  delete_each domain user (path ∷ paths) so_far =
      caught (on_machine (delete k user domain path)) >>= λ result.
      delete_each domain user paths (tallied path so_far result)

  -- The cross in the text is U+00D7.
  abbrev pub deleting : (domain : Bytes) → Site → Option (List Bytes) → Exec (Host W) Answer
  deleting domain st none = pure (problem 400)
  deleting domain st (some paths) = do
    (n, failed) ← delete_each domain st.site_user paths (0, [])
    audited "site.files.delete-many" (domain ++ codes " " ++ (0xc3 ∷ 0x97 ∷ []) ++ itoa n)
    pure (counted n failed)

  unfoldable pub delete_many_files : (domain : Bytes) → Option (List Bytes) → Exec (Host W) Answer
  unfolding delete_each
  delete_many_files domain input = with_site domain λ st. deleting domain st input

  abbrev pub zipping : (domain : Bytes) → Site → Option (List Bytes × Bytes) → Exec (Host W) Answer
  zipping domain st none = pure (problem 400)
  zipping domain st (some (paths, dest)) =
      change "site.files.zip" (below domain dest) 201 (zip k st.site_user domain paths dest)

  unfoldable pub zip_files : (domain : Bytes) → Option (List Bytes × Bytes) → Exec (Host W) Answer
  zip_files domain input = with_site domain λ st. zipping domain st input

  abbrev pub unzipping : (domain : Bytes) → Site → Option Bytes → Exec (Host W) Answer
  unzipping domain st none = pure (problem 400)
  unzipping domain st (some path) =
      change "site.files.unzip" (below domain path) 200 (unzip k reader st.site_user domain path)

  unfoldable pub unzip_file : (domain : Bytes) → Option Bytes → Exec (Host W) Answer
  unzip_file domain input = with_site domain λ st. unzipping domain st input

  abbrev pub finished : (domain sub : Bytes) → ℕ × List Bytes → Exec (Host W) Answer
  finished domain sub (zero, []) = pure (problem 400)
  finished domain sub (n, failed) =
      audited "site.files.upload" (below domain sub) >> pure (counted n failed)

  -- one round of the loop over the parts: the path, and what has been saved so far
  unfoldable pub save_part :
      (domain user : Bytes) → Part → Bytes × ℕ × List Bytes → Exec (Host W) (Bytes × ℕ × List Bytes)
  save_part domain user p (sub, n, failed) =
      if p.form_name == codes "path"
      then pure (take 4096 p.body, n, failed)
      else if p.form_name == codes "files" && not (p.filename == [])
      then (caught (on_machine (save_at k user domain sub p.filename)) >>= λ result.
          (let (m, names) = tallied p.filename (n, failed) result in pure (sub, m, names)))
      else pure (sub, n, failed)

  -- A part that cannot be read ends the loop.
  unfoldable pub save_parts :
      (domain user : Bytes) → List (Option Part) → Bytes × ℕ × List Bytes → Exec (Host W) Answer
  unfolding save_part
  save_parts domain user [] (sub, n, failed) = finished domain sub (n, failed)
  save_parts domain user (none ∷ parts) so_far = pure (problem 400)
  save_parts domain user (some p ∷ parts) so_far =
      save_part domain user p so_far >>= λ next. save_parts domain user parts next

  abbrev pub uploading :
      (domain : Bytes) → Site → Option (List (Option Part)) → Exec (Host W) Answer
  uploading domain st none = pure (problem 400)
  uploading domain st (some parts) = save_parts domain st.site_user parts ([], 0, [])

  unfoldable pub upload_files :
      (domain : Bytes) → Option (List (Option Part)) → Exec (Host W) Answer
  unfolding save_parts
  upload_files domain input = with_site domain λ st. uploading domain st input
