-- ===== src/Storage/Finals.antt =====
-- The two final paths, and what leaves their files as they were.
use zammad_ticket_archiver.Base.{ℕ, ◌≡◌, ◌≢◌, ap, sym, ◌∙◌, Bool, Option, List, [], ◌∷◌, ◌++◌}
use zammad_ticket_archiver.Base.Text.{Text, codes}
use zammad_ticket_archiver.Effect.{pure, finally, finally_world, >>-pure_world}
use zammad_ticket_archiver.Effect.Keeps.{Keeps-pure, Keeps-if, Keeps-bind}
use zammad_ticket_archiver.PathPolicy.{UnicodeData}
use zammad_ticket_archiver.Storage.{
  Bytes, FilePath, parent, base_name, FileSystem, write_bytes, move_file,
}
use zammad_ticket_archiver.Storage.Files.{Same, IsFileSystem, write_bytes-Keeps, move_file-Keeps}
use zammad_ticket_archiver.Storage.Places.{
  flat≢deep, flat≢deeper, snoc≢snoc, beside, outside, temp_name≢attachments_name, IsPlaced,
  sidecar_name, name≢json,
}
use zammad_ticket_archiver.Storage.Staging.{commit_attachments-Keeps}
use zammad_ticket_archiver.Storage.Ticket.{
  StoragePaths, Attachment, Entry, Recording, temp_name, attachments_name, commit_attachments,
  temp_pdf, temp_sidecar, temp_attachments, attachments_dir, store_body, remove_if, clean_up,
  stored, temp_dir, store_in,
}

-- Making the audit record and drawing a UUID touch no file.
pub record IsRecording {R : Type 0} (recording : Recording R) (file : R → FilePath → Option Bytes)
    : Type 0 where
  pub fresh_same : (p : FilePath) → Same file p recording.fresh
  pub audit_same :
      (sha : Text) (entries : List Entry) (p : FilePath)
      → Same file p (recording.audit_json sha entries)

module _ {R H : Type 0} (fs : FileSystem R H) (file : R → FilePath → Option Bytes)
    (path_of : H → FilePath) (law : IsFileSystem fs file path_of) (recording : Recording R)
    (quiet : IsRecording recording file) (unicode : UnicodeData) (root : FilePath) (fsync : Bool)
    (paths : StoragePaths) (id : ℕ) (placed : IsPlaced paths id) (pdf : Bytes)
    (atts : List Attachment) (suffix : Text) where
  abbrev pub dir : FilePath
  dir = parent paths.target_path

  abbrev pub name : Text
  name = base_name paths.target_path

  abbrev pub temp : FilePath
  temp = temp_dir fs recording unicode root fsync paths id suffix

  abbrev pub tmp_pdf : FilePath
  tmp_pdf = temp_pdf fs recording unicode root fsync paths pdf atts temp

  abbrev pub tmp_sidecar : FilePath
  tmp_sidecar = temp_sidecar fs recording unicode root fsync paths pdf atts temp

  abbrev pub tmp_attachments : FilePath
  tmp_attachments = temp_attachments fs recording unicode root fsync paths pdf atts temp

  abbrev pub kept_attachments : FilePath
  kept_attachments = attachments_dir fs recording unicode root fsync paths pdf atts temp

  pub target≢sidecar : paths.target_path ≢ paths.sidecar_path
  target≢sidecar e =
      snoc≢snoc dir name (name ++ codes ".json") (name≢json name)
        (sym placed.target ∙ (e ∙ placed.sidecar))

  pub tmp_pdf≢tmp_sidecar : tmp_pdf ≢ tmp_sidecar
  tmp_pdf≢tmp_sidecar =
      snoc≢snoc temp name (base_name paths.sidecar_path)
        (λ e. name≢json name (e ∙ sidecar_name paths id placed))

  -- A path of the target directory is none of those below the temporary directory.
  pub record IsFinal (p : FilePath) : Type 0 where
    pub last : Text
    pub at : p ≡ dir ++ (last ∷ [])
    pub not_temp : last ≢ temp_name id suffix

  pub target-IsFinal : IsFinal paths.target_path
  target-IsFinal = record { last = name; at = placed.target; not_temp = placed.not_temp suffix }

  pub sidecar-IsFinal : IsFinal paths.sidecar_path
  sidecar-IsFinal = record {
    last = name ++ codes ".json";
    at = placed.sidecar;
    not_temp = placed.sidecar_not_temp suffix;
  }

  module _ (p : FilePath) (final : IsFinal p) where
    pub final≢temp : (n : Text) → p ≢ temp ++ (n ∷ [])
    final≢temp n e = flat≢deep dir final.last (temp_name id suffix) n [] (sym final.at ∙ e)

    pub final≢staged : (n : Text) → p ≢ tmp_attachments ++ (n ∷ [])
    final≢staged n e =
        flat≢deeper dir final.last (temp_name id suffix) attachments_name n (sym final.at ∙ e)

    pub final≢attachment : (n : Text) → p ≢ kept_attachments ++ (n ∷ [])
    final≢attachment n e = flat≢deep dir final.last attachments_name n [] (sym final.at ∙ e)

    pub final-outside : (rest : FilePath) → p ≢ temp ++ rest
    final-outside rest e =
        outside dir final.last (temp_name id suffix) rest final.not_temp (sym final.at ∙ e)

    pub clean_up-Keeps : Same file p (clean_up fs recording unicode root fsync paths pdf atts temp)
    unfolding clean_up
    clean_up-Keeps =
        Keeps-bind (λ x. file x p) (fs.exists temp)
          (remove_if fs recording unicode root fsync paths pdf atts temp) (law.exists_same temp p)
          (λ there.
            Keeps-if (λ x. file x p) there (fs.remove_tree temp) (pure tt)
              (law.remove_tree_else temp p final-outside) (Keeps-pure (λ x. file x p) tt))

    pub commit_attachments-final :
        (entries : List Entry)
        → Same file p (
            commit_attachments fs recording unicode root fsync tmp_attachments kept_attachments
              entries)
    commit_attachments-final entries =
        commit_attachments-Keeps fs file path_of law recording unicode root fsync tmp_attachments
          kept_attachments p entries final≢staged final≢attachment

  -- A file of the temporary directory stays while the attachments are moved.
  pub commit_attachments-temp :
      (n : Text) (entries : List Entry)
      → Same file (temp ++ (n ∷ [])) (
          commit_attachments fs recording unicode root fsync tmp_attachments kept_attachments
            entries)
  commit_attachments-temp n entries =
      commit_attachments-Keeps fs file path_of law recording unicode root fsync tmp_attachments
        kept_attachments (temp ++ (n ∷ [])) entries (λ m. flat≢deep temp n attachments_name m [])
        (λ m.
          beside dir (temp_name id suffix) attachments_name n m
            (temp_name≢attachments_name id suffix))

  pub move_pdf-sidecar :
      Same file paths.sidecar_path (move_file fs root tmp_pdf paths.target_path fsync)
  move_pdf-sidecar =
      move_file-Keeps fs file path_of law paths.sidecar_path root tmp_pdf paths.target_path fsync
        (final≢temp paths.sidecar_path sidecar-IsFinal name) (λ e. target≢sidecar (sym e))

  pub move_sidecar-target :
      Same file paths.target_path (move_file fs root tmp_sidecar paths.sidecar_path fsync)
  move_sidecar-target =
      move_file-Keeps fs file path_of law paths.target_path root tmp_sidecar paths.sidecar_path
        fsync (final≢temp paths.target_path target-IsFinal (base_name paths.sidecar_path))
        target≢sidecar

  pub sidecar-write_temp :
      (n : Text) (bytes : Bytes)
      → Same file paths.sidecar_path (write_bytes fs root (temp ++ (n ∷ [])) bytes fsync)
  sidecar-write_temp n bytes =
      write_bytes-Keeps fs file path_of law paths.sidecar_path root (temp ++ (n ∷ [])) bytes fsync
        (final≢temp paths.sidecar_path sidecar-IsFinal n)

  -- What is cleaned up is below the temporary directory.
  pub store_in_file :
      (x : R) (p : FilePath)
      → IsFinal p
      → file (store_in fs recording unicode root fsync paths pdf atts temp x).1 p
        ≡ file (store_body fs recording unicode root fsync paths pdf atts temp x).1 p
  store_in_file x p final =
      ap (λ y. file y p)
        (>>-pure_world
            (finally (store_body fs recording unicode root fsync paths pdf atts temp)
              (clean_up fs recording unicode root fsync paths pdf atts temp))
            (stored fs recording unicode root fsync paths pdf) x
          ∙ finally_world (store_body fs recording unicode root fsync paths pdf atts temp)
              (clean_up fs recording unicode root fsync paths pdf atts temp) x)
      ∙ (clean_up-Keeps p final).at
          (store_body fs recording unicode root fsync paths pdf atts temp x).1
