-- ===== src/Api/Laws.antt =====
-- What the handlers of the files of a site touch.
use aura_cp.Prelude.{
  ℕ, ◌≡◌, refl, List, [], ◌∷◌, Option, none, some, String, Bytes, Result, ok, All,
}
use aura_cp.Errors.{Error}
use aura_cp.Os.{Call, Kernel, State, Exec, pure, ◌>>=◌}
use aura_cp.Os.Confined.{Confined, Confined-pure, Confined-bind}
use aura_cp.Web.Middleware.{Request}
use aura_cp.Store.{Site, site_by_domain}
use aura_cp.Host.{Host, query}
use aura_cp.Files.Archive.{Reader}
use aura_cp.Files.Manage.Laws.{
  Contained, open_file-Confined, delete-Confined, rename_to-Confined, make_dir-Confined,
  touch-Confined, change_mode-Confined,
}
use aura_cp.Files.Upload.Laws.{save_at-Confined}
use aura_cp.Files.Edit.Laws.{read_text-Confined, write_text-Confined}
use aura_cp.Api.SiteFiles.{
  site_files, entries, Answer, Part, problem, for_site, download, content, with_mode, parse_octal,
  download_file, read_text_file, delete_file, rename_file, renaming, mkdir_file, making, touch_file,
  touching, write_text_file, writing, chmod_file, setting_mode, delete_each, delete_many_files,
  deleting, upload_files, uploading, save_part, save_parts,
}
use aura_cp.Api.Confined.{
  on_machine-Confined, caught-Confined, either-Confined, commit-Confined, read-Confined,
  change-Confined, finished-Confined, list-Confined,
}

-- What a request asks of the files of a site, archives apart.
pub data Query : Type 0 where
  lists : (path : Bytes) → Query
  downloads : (path : Bytes) → Query
  reads : (path : Bytes) → Query
  deletes : (path : Bytes) → Query
  renames : Option (Bytes × Bytes) → Query
  makes_dir : Option (Bytes × Bytes) → Query
  touches : Option (Bytes × Bytes) → Query
  writes : Option (Bytes × Bytes) → Query
  changes_mode : Option (Bytes × Bytes) → Query
  deletes_many : Option (List Bytes) → Query
  uploads : Option (List (Option Part)) → Query

module _ {W : Type 0} (k : Kernel W) (reader : Reader W) (text : Bytes → String) (r : Request)
    (now : ℕ) where
  unfoldable pub handle : Query → (domain : Bytes) → Exec (Host W) Answer
  handle (lists path) domain = site_files k reader text r now domain path
  handle (downloads path) domain = download_file k reader text r now domain path
  handle (reads path) domain = read_text_file k reader text r now domain path
  handle (deletes path) domain = delete_file k reader text r now domain path
  handle (renames input) domain = rename_file k reader text r now domain input
  handle (makes_dir input) domain = mkdir_file k reader text r now domain input
  handle (touches input) domain = touch_file k reader text r now domain input
  handle (writes input) domain = write_text_file k reader text r now domain input
  handle (changes_mode input) domain = chmod_file k reader text r now domain input
  handle (deletes_many input) domain = delete_many_files k reader text r now domain input
  handle (uploads input) domain = upload_files k reader text r now domain input

  module _ (domain : Bytes) (st : Site) where
    abbrev Own : Call → Type 0
    Own = Contained st.site_user domain

    with_mode-Own :
        (path mode : Bytes) (n : Option ℕ)
        → Confined Own (with_mode k reader text r now domain st path mode n)
    with_mode-Own path mode none = Confined-pure _
    with_mode-Own path mode (some n) = either-Confined _ _ _ (Confined-pure _) (
        change-Confined k reader text r now _ _ _ _
          (change_mode-Confined k st.site_user domain path n))

    delete_each-Own :
        (paths : List Bytes) (so_far : ℕ × List Bytes)
        → Confined Own (delete_each k reader text r now domain st.site_user paths so_far)
    unfolding delete_each
    delete_each-Own [] so_far = Confined-pure so_far
    delete_each-Own (path ∷ paths) so_far =
        Confined-bind _ _
          (caught-Confined _ (on_machine-Confined _ (delete-Confined k st.site_user domain path)))
          λ result. delete_each-Own paths _

    save_part-Own :
        (p : Part) (so_far : Bytes × ℕ × List Bytes)
        → Confined Own (save_part k reader text r now domain st.site_user p so_far)
    unfolding save_part
    save_part-Own p (sub, n, failed) = either-Confined _ _ _ (Confined-pure _) (
        either-Confined _ _ _
          (Confined-bind _ _
            (caught-Confined _
              (on_machine-Confined _ (save_at-Confined k st.site_user domain sub p.filename)))
            λ result. Confined-pure _)
          (Confined-pure _))

    save_parts-Own :
        (parts : List (Option Part)) (so_far : Bytes × ℕ × List Bytes)
        → Confined Own (save_parts k reader text r now domain st.site_user parts so_far)
    unfolding save_parts
    save_parts-Own [] (sub, n, failed) =
        finished-Confined k reader text r now domain sub (n, failed)
    save_parts-Own (none ∷ parts) so_far = Confined-pure _
    save_parts-Own (some p ∷ parts) so_far =
        Confined-bind _ _ (save_part-Own p so_far) λ next. save_parts-Own parts next

    renaming-Own :
        (input : Option (Bytes × Bytes))
        → Confined Own (renaming k reader text r now domain st input)
    renaming-Own none = Confined-pure _
    renaming-Own (some (path, name)) =
        change-Confined k reader text r now _ _ _ _
          (rename_to-Confined k st.site_user domain path name)

    making-Own :
        (input : Option (Bytes × Bytes)) → Confined Own (making k reader text r now domain st input)
    making-Own none = Confined-pure _
    making-Own (some (path, name)) =
        change-Confined k reader text r now _ _ _ _
          (make_dir-Confined k st.site_user domain path name)

    touching-Own :
        (input : Option (Bytes × Bytes))
        → Confined Own (touching k reader text r now domain st input)
    touching-Own none = Confined-pure _
    touching-Own (some (path, name)) =
        change-Confined k reader text r now _ _ _ _ (touch-Confined k st.site_user domain path name)

    writing-Own :
        (input : Option (Bytes × Bytes))
        → Confined Own (writing k reader text r now domain st input)
    writing-Own none = Confined-pure _
    writing-Own (some (path, body)) =
        change-Confined k reader text r now _ _ _ _
          (write_text-Confined k st.site_user domain path body)

    setting_mode-Own :
        (input : Option (Bytes × Bytes))
        → Confined Own (setting_mode k reader text r now domain st input)
    setting_mode-Own none = Confined-pure _
    setting_mode-Own (some (path, mode)) = with_mode-Own path mode (parse_octal mode)

    deleting-Own :
        (input : Option (List Bytes)) → Confined Own (deleting k reader text r now domain st input)
    deleting-Own none = Confined-pure _
    deleting-Own (some paths) =
        Confined-bind _ _ (delete_each-Own paths (0, []))
          λ n. Confined-bind _ _ (commit-Confined _) λ y. Confined-pure _

    uploading-Own :
        (input : Option (List (Option Part)))
        → Confined Own (uploading k reader text r now domain st input)
    uploading-Own none = Confined-pure _
    uploading-Own (some parts) = save_parts-Own parts ([], 0, [])

  -- A request that has made no call yet.
  abbrev pub fresh : Host W → State (Host W)
  fresh w = record { world = w; log = [] }

  -- Without a record of the site: 404, and nothing has happened. With one: every call is in the document root of
  -- the user on record.
  abbrev pub Serves :
      (domain : Bytes) (w : Host W) → Option Site → Result Error Answer × State (Host W) → Type 0
  Serves domain w none x = x ≡ (ok (problem 404), fresh w)
  Serves domain w (some st) x = All (Contained st.site_user domain) x.1.log

  serves :
      (domain : Bytes) (w : Host W) (f : Site → Exec (Host W) Answer)
      → ((st : Site) → Confined (Contained st.site_user domain) (f st))
      → (row : Option Site) → Serves domain w row (for_site k reader text r now row f (fresh w))
  unfolding pure
  serves domain w f own none = refl
  serves domain w f own (some st) = (own st).at (fresh w) tt

  -- A request about the files of a site, archives apart, gets 404 and does nothing when the site has no record;
  -- otherwise every call that it makes stays in the document root of the domain, in the home of the user whom
  -- the record names.
  pub handle-Serves :
      (q : Query) (domain : Bytes) (w : Host W)
      → Serves domain w (site_by_domain domain w.tables) (handle q domain (fresh w))
  unfolding handle site_files download_file read_text_file delete_file rename_file mkdir_file
      touch_file write_text_file chmod_file delete_many_files upload_files ◌>>=◌ query
  handle-Serves (lists path) domain w =
      serves domain w _
        (λ st.
          read-Confined k reader text r now entries _
            (list-Confined k reader text r now st.site_user domain path))
        _
  handle-Serves (downloads path) domain w =
      serves domain w _
        (λ st.
          read-Confined k reader text r now download _
            (open_file-Confined k st.site_user domain path))
        _
  handle-Serves (reads path) domain w =
      serves domain w _
        (λ st.
          read-Confined k reader text r now content _
            (read_text-Confined k st.site_user domain path))
        _
  handle-Serves (deletes path) domain w =
      serves domain w _
        (λ st.
          change-Confined k reader text r now _ _ _ _ (delete-Confined k st.site_user domain path))
        _
  handle-Serves (renames input) domain w = serves domain w _ (λ st. renaming-Own domain st input) _
  handle-Serves (makes_dir input) domain w = serves domain w _ (λ st. making-Own domain st input) _
  handle-Serves (touches input) domain w = serves domain w _ (λ st. touching-Own domain st input) _
  handle-Serves (writes input) domain w = serves domain w _ (λ st. writing-Own domain st input) _
  handle-Serves (changes_mode input) domain w =
      serves domain w _ (λ st. setting_mode-Own domain st input) _
  handle-Serves (deletes_many input) domain w =
      serves domain w _ (λ st. deleting-Own domain st input) _
  handle-Serves (uploads input) domain w = serves domain w _ (λ st. uploading-Own domain st input) _
