-- ===== src/Storage/Stored.antt =====
-- What a `store_ticket_files` that returns has stored.
use mathlib.Core.Path.{subst}
use zammad_ticket_archiver.Base.{ℕ, ◌≡◌, sym, ◌∙◌, Bool, Option, some, List, [], ◌∷◌, ◌++◌}
use zammad_ticket_archiver.Base.Text.{Text}
use zammad_ticket_archiver.Effect.{
  ok, pure, ◌>>=◌, ◌>>◌, finally, >>=-eq-ok, >>-eq-ok, finally-eq-ok,
}
use zammad_ticket_archiver.PathPolicy.{UnicodeData}
use zammad_ticket_archiver.Storage.{Bytes, FilePath, base_name, FileSystem, write_bytes, move_file}
use zammad_ticket_archiver.Storage.Files.{
  Same, IsFileSystem, write_bytes-Keeps, move_file-Keeps, write_bytes-at, move_file-at, kept,
}
use zammad_ticket_archiver.Storage.Finals.{
  IsRecording, target-IsFinal, sidecar-IsFinal, tmp_pdf≢tmp_sidecar, commit_attachments-temp,
  move_sidecar-target, final≢temp, clean_up-Keeps,
}
use zammad_ticket_archiver.Storage.Places.{IsPlaced}
use zammad_ticket_archiver.Storage.Ticket.{
  StoragePaths, StorageResult, Attachment, Entry, Recording, stage_attachments, commit_attachments,
  temp_pdf, temp_sidecar, temp_attachments, attachments_dir, commit, commit_all, stage_files,
  record_then, store_body, clean_up, stored, temp_dir, store_in, store_ticket_files,
}

-- The two final files, with an audit record that was made for this PDF.
pub record IsStored {R : Type 0} (file : R → FilePath → Option Bytes) (recording : Recording R)
    (paths : StoragePaths) (pdf : Bytes) (y : R) : Type 0 where
  pub pdf_at : file y paths.target_path ≡ some pdf
  pub entries : List Entry
  pub audit : Bytes
  pub before : R
  pub after : R
  pub made : recording.audit_json (recording.sha256 pdf) entries before ≡ (ok audit, after)
  pub sidecar_at : file y paths.sidecar_path ≡ some audit

module _ {R H : Type 0} (fs : FileSystem R H) (file : R → FilePath → Option Bytes)
    (path_of : H → FilePath) (law : IsFileSystem fs file path_of) (recording : Recording R)
    (quiet : IsRecording recording file) (unicode : UnicodeData) (root : FilePath) (fsync : Bool)
    (paths : StoragePaths) (id : ℕ) (placed : IsPlaced paths id) (pdf : Bytes)
    (atts : List Attachment) (suffix : Text) where
  abbrev temp : FilePath
  temp = temp_dir fs recording unicode root fsync paths id suffix

  abbrev tmp_pdf : FilePath
  tmp_pdf = temp_pdf fs recording unicode root fsync paths pdf atts temp

  abbrev tmp_sidecar : FilePath
  tmp_sidecar = temp_sidecar fs recording unicode root fsync paths pdf atts temp

  abbrev tmp_attachments : FilePath
  tmp_attachments = temp_attachments fs recording unicode root fsync paths pdf atts temp

  abbrev kept_attachments : FilePath
  kept_attachments = attachments_dir fs recording unicode root fsync paths pdf atts temp

  commit-at :
      (x y : R) (audit : Bytes)
      → commit fs recording unicode root fsync paths pdf atts temp x ≡ (ok tt, y)
      → file x tmp_pdf ≡ some pdf
      → file x tmp_sidecar ≡ some audit
      → (file y paths.target_path ≡ some pdf) × (file y paths.sidecar_path ≡ some audit)
  commit-at x y audit e staged audit_staged =
      let (_, x1, e1, e2) =
        >>-eq-ok (move_file fs root tmp_pdf paths.target_path fsync)
          (move_file fs root tmp_sidecar paths.sidecar_path fsync) x y tt e in
      (
        kept fs file path_of law (move_file fs root tmp_sidecar paths.sidecar_path fsync)
              paths.target_path (ok tt) x1 y
              (move_sidecar-target fs file path_of law recording quiet unicode root fsync paths id
                placed pdf atts suffix)
              e2
            ∙ (move_file-at fs file path_of law root tmp_pdf paths.target_path fsync x x1 e1
                ∙ staged),
        move_file-at fs file path_of law root tmp_sidecar paths.sidecar_path fsync x1 y e2
            ∙ (kept fs file path_of law (move_file fs root tmp_pdf paths.target_path fsync)
                  tmp_sidecar (ok tt) x x1
                  (move_file-Keeps fs file path_of law tmp_sidecar root tmp_pdf paths.target_path
                    fsync
                    (λ same.
                      tmp_pdf≢tmp_sidecar fs file path_of law recording quiet unicode root fsync
                        paths id placed pdf atts suffix (sym same))
                    (λ same.
                      final≢temp fs file path_of law recording quiet unicode root fsync paths id
                        placed pdf atts suffix paths.target_path
                        (target-IsFinal fs file path_of law recording quiet unicode root fsync paths
                          id placed pdf atts suffix)
                        (base_name paths.sidecar_path) (sym same)))
                  e1
                ∙ audit_staged),
      )

  commit_all-at :
      (entries : List Entry) (x y : R) (audit : Bytes)
      → commit_all fs recording unicode root fsync paths pdf atts temp entries x ≡ (ok tt, y)
      → file x tmp_pdf ≡ some pdf
      → file x tmp_sidecar ≡ some audit
      → (file y paths.target_path ≡ some pdf) × (file y paths.sidecar_path ≡ some audit)
  commit_all-at entries x y audit e staged audit_staged =
      let moving =
        commit_attachments fs recording unicode root fsync tmp_attachments kept_attachments
          entries in
      let (_, x1, e1, e2) =
        >>-eq-ok moving (commit fs recording unicode root fsync paths pdf atts temp) x y tt e in
      let stays : (n : Text) → file x1 (temp ++ (n ∷ [])) ≡ file x (temp ++ (n ∷ [])) = λ n.
        kept fs file path_of law moving (temp ++ (n ∷ [])) (ok _) x x1
          (commit_attachments-temp fs file path_of law recording quiet unicode root fsync paths id
            placed pdf atts suffix n entries)
          e1 in
      commit-at x1 y audit e2 (stays (base_name paths.target_path) ∙ staged)
        (stays (base_name paths.sidecar_path) ∙ audit_staged)

  stage_files-at :
      (entries : List Entry) (x y : R) (audit : Bytes)
      → stage_files fs recording unicode root fsync paths pdf atts temp entries audit x ≡ (ok tt, y)
      → (file y paths.target_path ≡ some pdf) × (file y paths.sidecar_path ≡ some audit)
  stage_files-at entries x y audit e =
      let rest = commit_all fs recording unicode root fsync paths pdf atts temp entries in
      let (_, x1, e1, r1) =
        >>-eq-ok (write_bytes fs root tmp_pdf pdf fsync)
          (write_bytes fs root tmp_sidecar audit fsync >> rest) x y tt e in
      let (_, x2, e2, r2) =
        >>-eq-ok (write_bytes fs root tmp_sidecar audit fsync) rest x1 y tt r1 in
      commit_all-at entries x2 y audit r2
        (kept fs file path_of law (write_bytes fs root tmp_sidecar audit fsync) tmp_pdf (ok tt) x1
            x2
            (write_bytes-Keeps fs file path_of law tmp_pdf root tmp_sidecar audit fsync (
              tmp_pdf≢tmp_sidecar fs file path_of law recording quiet unicode root fsync paths id
                placed pdf atts suffix))
            e2
          ∙ write_bytes-at fs file path_of law root tmp_pdf pdf fsync x x1 e1)
        (write_bytes-at fs file path_of law root tmp_sidecar audit fsync x1 x2 e2)

  store_body-at :
      (x y : R)
      → store_body fs recording unicode root fsync paths pdf atts temp x ≡ (ok tt, y)
      → IsStored file recording paths pdf y
  unfolding store_body
  store_body-at x y e =
      let staging = stage_attachments fs recording unicode root fsync tmp_attachments atts in
      let (_, x1, e1, r1) =
        >>-eq-ok (fs.make_dirs temp)
          (staging >>= record_then fs recording unicode root fsync paths pdf atts temp) x y tt e in
      let (entries, x2, e2, r2) =
        >>=-eq-ok staging (record_then fs recording unicode root fsync paths pdf atts temp) x1 y tt
          r1 in
      let (audit, x3, e3, r3) =
        >>=-eq-ok (recording.audit_json (recording.sha256 pdf) entries)
          (stage_files fs recording unicode root fsync paths pdf atts temp entries) x2 y tt r2 in
      let (pdf_at, sidecar_at) = stage_files-at entries x3 y audit r3 in
      record {
        pdf_at = pdf_at;
        entries = entries;
        audit = audit;
        before = x2;
        after = x3;
        made = e3;
        sidecar_at = sidecar_at;
      }

  pub store_in-IsStored :
      (x y : R) (result : StorageResult)
      → store_in fs recording unicode root fsync paths pdf atts temp x ≡ (ok result, y)
      → (result ≡ stored fs recording unicode root fsync paths pdf)
        × IsStored file recording paths pdf y
  store_in-IsStored x y result e =
      let body = store_body fs recording unicode root fsync paths pdf atts temp in
      let tidy = clean_up fs recording unicode root fsync paths pdf atts temp in
      let (_, x1, e1, r1) =
        >>-eq-ok (finally body tidy) (pure (stored fs recording unicode root fsync paths pdf)) x y
          result e in
      let (x2, _, e2, r2) = finally-eq-ok body tidy x x1 _ e1 in
      let there = store_body-at x x2 e2 in
      let same : x1 ≡ y = λ i. (r1 i).1 in
      let tidied : (p : FilePath) → Same file p tidy → file x1 p ≡ file x2 p =
        λ p k. kept fs file path_of law tidy p (ok _) x2 x1 k r2 in
      (
        cc,
        subst (IsStored file recording paths pdf) same (record {
          pdf_at =
              tidied paths.target_path (
                clean_up-Keeps fs file path_of law recording quiet unicode root fsync paths id
                  placed pdf atts suffix paths.target_path
                  (target-IsFinal fs file path_of law recording quiet unicode root fsync paths id
                    placed pdf atts suffix))
              ∙ there.pdf_at;
          entries = there.entries;
          audit = there.audit;
          before = there.before;
          after = there.after;
          made = there.made;
          sidecar_at =
              tidied paths.sidecar_path (
                clean_up-Keeps fs file path_of law recording quiet unicode root fsync paths id
                  placed pdf atts suffix paths.sidecar_path
                  (sidecar-IsFinal fs file path_of law recording quiet unicode root fsync paths id
                    placed pdf atts suffix))
              ∙ there.sidecar_at;
        }),
      )

module _ {R H : Type 0} (fs : FileSystem R H) (file : R → FilePath → Option Bytes)
    (path_of : H → FilePath) (law : IsFileSystem fs file path_of) (recording : Recording R)
    (quiet : IsRecording recording file) (unicode : UnicodeData) (root : FilePath) (fsync : Bool)
    (paths : StoragePaths) (id : ℕ) (placed : IsPlaced paths id) (pdf : Bytes)
    (atts : List Attachment) where
  -- A `store_ticket_files` that returns gives the two paths, the digest and the size of the PDF; the PDF
  -- then stands at its path with all its bytes, and at the sidecar's path stands an audit record made
  -- for this PDF's digest; on a file system as POSIX documents it, if the UUID and the audit record
  -- touch no file, the sidecar stands beside the PDF with ".json" added, and neither has the name of a
  -- temporary directory of the ticket.
  pub store_ticket_files-IsStored :
      (x y : R) (result : StorageResult)
      → store_ticket_files fs recording unicode root fsync paths pdf atts id x ≡ (ok result, y)
      → (result ≡ stored fs recording unicode root fsync paths pdf)
        × IsStored file recording paths pdf y
  unfolding store_ticket_files
  store_ticket_files-IsStored x y result e =
      let (suffix, x1, _, e1) =
        >>=-eq-ok recording.fresh
          (λ suffix.
            store_in fs recording unicode root fsync paths pdf atts
              (temp_dir fs recording unicode root fsync paths id suffix))
          x y result e in
      store_in-IsStored fs file path_of law recording quiet unicode root fsync paths id placed pdf
        atts suffix x1 y result e1
