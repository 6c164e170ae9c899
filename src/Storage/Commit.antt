-- ===== src/Storage/Commit.antt =====
-- What `store_ticket_files` leaves at the two final paths, however it ends.
use zammad_ticket_archiver.Base.{ℕ, ◌≡◌, ◌∙◌, Bool, Option, some, List, ◌⊎◌, inl, inr}
use zammad_ticket_archiver.Base.Text.{Text}
use zammad_ticket_archiver.Effect.{Reply, Action, Done, ok, err, cancelled, ◌>>=◌, ◌>>◌, >>=-cases}
use zammad_ticket_archiver.PathPolicy.{UnicodeData}
use zammad_ticket_archiver.Storage.{Bytes, FilePath, base_name, FileSystem, write_bytes, move_file}
use zammad_ticket_archiver.Storage.Files.{
  Same, IsFileSystem, write_bytes-Keeps, write_bytes-at, move_file-at, kept,
}
use zammad_ticket_archiver.Storage.Finals.{
  IsRecording, target-IsFinal, sidecar-IsFinal, move_pdf-sidecar, tmp_pdf≢tmp_sidecar,
  sidecar-write_temp, store_in_file, commit_attachments-temp, commit_attachments-final,
  final≢staged, move_sidecar-target,
}
use zammad_ticket_archiver.Storage.Places.{IsPlaced}
use zammad_ticket_archiver.Storage.Staging.{stage_attachments-Keeps}
use zammad_ticket_archiver.Storage.Ticket.{
  StoragePaths, Attachment, Entry, Recording, stage_attachments, commit_attachments, temp_pdf,
  temp_sidecar, temp_attachments, attachments_dir, commit, commit_all, stage_files, record_then,
  store_body, temp_dir, store_in, store_ticket_files,
}

module _ {R H : Type 0} (fs : FileSystem R H) (file : R → FilePath → Option Bytes)
    (path_of : H → FilePath) (law : IsFileSystem fs file path_of) (recording : Recording R)
    (quiet : IsRecording recording file) (unicode : UnicodeData) (root : FilePath) (fsync : Bool)
    (paths : StoragePaths) (id : ℕ) (placed : IsPlaced paths id) (pdf : Bytes)
    (atts : List Attachment) (suffix : Text) where
  abbrev temp : FilePath
  temp = temp_dir fs recording unicode root fsync paths id suffix

  abbrev tmp_pdf : FilePath
  tmp_pdf = temp_pdf fs recording unicode root fsync paths pdf atts temp

  abbrev tmp_sidecar : FilePath
  tmp_sidecar = temp_sidecar fs recording unicode root fsync paths pdf atts temp

  abbrev tmp_attachments : FilePath
  tmp_attachments = temp_attachments fs recording unicode root fsync paths pdf atts temp

  abbrev kept_attachments : FilePath
  kept_attachments = attachments_dir fs recording unicode root fsync paths pdf atts temp

  -- From a world with `Pre`, the action ends with the sidecar's file unchanged, or else with the PDF in
  -- its place.
  record Ends {A : Type 0} (Pre : R → Type 0) (m : Action R A) : Type 0 where
    at :
        (x : R)
        → Pre x
        → (file (m x).1 paths.sidecar_path ≡ file x paths.sidecar_path)
          ⊎ (file (m x).1 paths.target_path ≡ some pdf)

  Ends-bind :
      {A B : Type 0} (Pre Post : R → Type 0) (m : Action R A) (k : A → Action R B)
      → Same file paths.sidecar_path m
      → ((a : A) (x y : R) → Pre x → m x ≡ (ok a, y) → Post y)
      → ((a : A) → Ends Post (k a))
      → Ends Pre (m >>= k)
  Ends-bind Pre Post m k same post rest = record {
    at = λ x pre.
        >>=-cases
          (λ q.
            (file q.1 paths.sidecar_path ≡ file x paths.sidecar_path)
            ⊎ (file q.1 paths.target_path ≡ some pdf))
          m k x
          (λ a y e. elim ((rest a).at y (post a x y pre e)) [
            | inl left ↦
                inl (left ∙ kept fs file path_of law m paths.sidecar_path (ok a) x y same e)
            | inr pdf_there ↦ inr pdf_there
          ])
          (λ e y h. inl (kept fs file path_of law m paths.sidecar_path (err e) x y same h))
          (λ y h. inl (kept fs file path_of law m paths.sidecar_path cancelled x y same h));
  }

  abbrev Any : R → Type 0
  Any x = Done

  abbrev Staged : R → Type 0
  Staged x = file x tmp_pdf ≡ some pdf

  abbrev Placed : R → Type 0
  Placed x = file x paths.target_path ≡ some pdf

  commit-Ends : Ends Staged (commit fs recording unicode root fsync paths pdf atts temp)
  commit-Ends =
      Ends-bind Staged Placed (move_file fs root tmp_pdf paths.target_path fsync)
        (λ _. move_file fs root tmp_sidecar paths.sidecar_path fsync)
        (move_pdf-sidecar fs file path_of law recording quiet unicode root fsync paths id placed pdf
          atts suffix)
        (λ a x y staged e.
          move_file-at fs file path_of law root tmp_pdf paths.target_path fsync x y e ∙ staged)
        (λ _. record {
          at = λ x there. inr (
              (move_sidecar-target fs file path_of law recording quiet unicode root fsync paths id
                  placed pdf atts suffix).at
                x
              ∙ there);
        })

  commit_all-Ends :
      (entries : List Entry)
      → Ends Staged (commit_all fs recording unicode root fsync paths pdf atts temp entries)
  commit_all-Ends entries =
      Ends-bind Staged Staged
        (commit_attachments fs recording unicode root fsync tmp_attachments kept_attachments
          entries)
        (λ _. commit fs recording unicode root fsync paths pdf atts temp)
        (commit_attachments-final fs file path_of law recording quiet unicode root fsync paths id
          placed pdf atts suffix paths.sidecar_path
          (sidecar-IsFinal fs file path_of law recording quiet unicode root fsync paths id placed
            pdf atts suffix)
          entries)
        (λ a x y staged e.
          kept fs file path_of law
            (commit_attachments fs recording unicode root fsync tmp_attachments kept_attachments
              entries)
            tmp_pdf (ok a) x y
            (commit_attachments-temp fs file path_of law recording quiet unicode root fsync paths id
              placed pdf atts suffix (base_name paths.target_path) entries)
            e
          ∙ staged)
        (λ _. commit-Ends)

  stage_files-Ends :
      (entries : List Entry) (audit : Bytes)
      → Ends Any (stage_files fs recording unicode root fsync paths pdf atts temp entries audit)
  stage_files-Ends entries audit =
      Ends-bind Any Staged (write_bytes fs root tmp_pdf pdf fsync)
        (λ _. do
          write_bytes fs root tmp_sidecar audit fsync
          commit_all fs recording unicode root fsync paths pdf atts temp entries)
        (sidecar-write_temp fs file path_of law recording quiet unicode root fsync paths id placed
          pdf atts suffix (base_name paths.target_path) pdf)
        (λ a x y _ e. write_bytes-at fs file path_of law root tmp_pdf pdf fsync x y e)
        (λ _.
          Ends-bind Staged Staged (write_bytes fs root tmp_sidecar audit fsync)
            (λ _. commit_all fs recording unicode root fsync paths pdf atts temp entries)
            (sidecar-write_temp fs file path_of law recording quiet unicode root fsync paths id
              placed pdf atts suffix (base_name paths.sidecar_path) audit)
            (λ a x y staged e.
              kept fs file path_of law (write_bytes fs root tmp_sidecar audit fsync) tmp_pdf (ok a)
                x y
                (write_bytes-Keeps fs file path_of law tmp_pdf root tmp_sidecar audit fsync (
                  tmp_pdf≢tmp_sidecar fs file path_of law recording quiet unicode root fsync paths
                    id placed pdf atts suffix))
                e
              ∙ staged)
            (λ _. commit_all-Ends entries))

  record_then-Ends :
      (entries : List Entry)
      → Ends Any (record_then fs recording unicode root fsync paths pdf atts temp entries)
  record_then-Ends entries =
      Ends-bind Any Any (recording.audit_json (recording.sha256 pdf) entries)
        (stage_files fs recording unicode root fsync paths pdf atts temp entries)
        (quiet.audit_same (recording.sha256 pdf) entries paths.sidecar_path) (λ a x y _ e. tt)
        (stage_files-Ends entries)

  store_body-Ends : Ends Any (store_body fs recording unicode root fsync paths pdf atts temp)
  unfolding store_body
  store_body-Ends =
      Ends-bind Any Any (fs.make_dirs temp)
        (λ _.
          stage_attachments fs recording unicode root fsync tmp_attachments atts
          >>= record_then fs recording unicode root fsync paths pdf atts temp)
        (law.make_dirs_same temp paths.sidecar_path) (λ a x y _ e. tt)
        (λ _.
          Ends-bind Any Any (stage_attachments fs recording unicode root fsync tmp_attachments atts)
            (record_then fs recording unicode root fsync paths pdf atts temp)
            (stage_attachments-Keeps fs file path_of law recording unicode root fsync
              tmp_attachments paths.sidecar_path atts
              (final≢staged fs file path_of law recording quiet unicode root fsync paths id placed
                pdf atts suffix paths.sidecar_path
                (sidecar-IsFinal fs file path_of law recording quiet unicode root fsync paths id
                  placed pdf atts suffix)))
            (λ a x y _ e. tt) record_then-Ends)

  pub store_in_ends :
      (x : R)
      → (file (store_in fs recording unicode root fsync paths pdf atts temp x).1 paths.sidecar_path
          ≡ file x paths.sidecar_path)
        ⊎ (file (store_in fs recording unicode root fsync paths pdf atts temp x).1 paths.target_path
            ≡ some pdf)
  store_in_ends x = elim (store_body-Ends.at x tt) [
    | inl left ↦ inl (
        store_in_file fs file path_of law recording quiet unicode root fsync paths id placed pdf
          atts suffix x paths.sidecar_path
          (sidecar-IsFinal fs file path_of law recording quiet unicode root fsync paths id placed
            pdf atts suffix)
        ∙ left)
    | inr there ↦ inr (
        store_in_file fs file path_of law recording quiet unicode root fsync paths id placed pdf
          atts suffix x paths.target_path
          (target-IsFinal fs file path_of law recording quiet unicode root fsync paths id placed pdf
            atts suffix)
        ∙ there)
  ]

module _ {R H : Type 0} (fs : FileSystem R H) (file : R → FilePath → Option Bytes)
    (path_of : H → FilePath) (law : IsFileSystem fs file path_of) (recording : Recording R)
    (quiet : IsRecording recording file) (unicode : UnicodeData) (root : FilePath) (fsync : Bool)
    (paths : StoragePaths) (id : ℕ) (placed : IsPlaced paths id) (pdf : Bytes)
    (atts : List Attachment) where
  -- However `store_ticket_files` ends, with an error or a cancellation at any call, the sidecar's file
  -- is as it was before, or the PDF stands at its final path with all its bytes; on a file system as
  -- POSIX documents it, if the UUID and the audit record touch no file, the sidecar stands beside the
  -- PDF with ".json" added, and neither has the name of a temporary directory of the ticket.
  pub store_ticket_files-sidecar_last :
      (x : R)
      → (file
            (store_ticket_files fs recording unicode root fsync paths pdf atts id x).1
            paths.sidecar_path
          ≡ file x paths.sidecar_path)
        ⊎ (file
              (store_ticket_files fs recording unicode root fsync paths pdf atts id x).1
              paths.target_path
            ≡ some pdf)
  unfolding store_ticket_files
  store_ticket_files-sidecar_last x =
      >>=-cases
        (λ q.
          (file q.1 paths.sidecar_path ≡ file x paths.sidecar_path)
          ⊎ (file q.1 paths.target_path ≡ some pdf))
        recording.fresh
        (λ suffix.
          store_in fs recording unicode root fsync paths pdf atts
            (temp_dir fs recording unicode root fsync paths id suffix))
        x
        (λ suffix y e.
          elim (store_in_ends fs file path_of law recording quiet unicode root fsync paths id placed
            pdf atts suffix y) [
              | inl left ↦ inl (left ∙ drawn (ok suffix) y e)
              | inr there ↦ inr there
            ])
        (λ e y h. inl (drawn (err e) y h)) (λ y h. inl (drawn cancelled y h))
    where
      drawn :
          (r : Reply Text) (y : R)
          → recording.fresh x ≡ (r, y)
          → file y paths.sidecar_path ≡ file x paths.sidecar_path
      drawn r y e =
          kept fs file path_of law recording.fresh paths.sidecar_path r x y
            (quiet.fresh_same paths.sidecar_path) e
