-- ===== src/Storage/Staging.antt =====
-- The files that the steps of `store_ticket_files` for the attachments leave as they were.
use zammad_ticket_archiver.Base.{◌≢◌, Bool, Option, none, some, List, [], ◌∷◌, ◌++◌}
use zammad_ticket_archiver.Base.Text.{Text}
use zammad_ticket_archiver.Effect.{Action, pure}
use zammad_ticket_archiver.Effect.Keeps.{Keeps-pure, Keeps-if, Keeps-seq, keeping}
use zammad_ticket_archiver.PathPolicy.{UnicodeData}
use zammad_ticket_archiver.Storage.{Bytes, FilePath, FileSystem, write_bytes, move_file}
use zammad_ticket_archiver.Storage.Files.{Same, IsFileSystem, write_bytes-Keeps, move_file-Keeps}
use zammad_ticket_archiver.Storage.Ticket.{
  Attachment, Entry, Recording, safe_name, has_content, with_entry, write_one, make_and_write,
  write_attachments, stage_attachments, move_entries, commit_attachments,
}

module _ {R H : Type 0} (fs : FileSystem R H) (file : R → FilePath → Option Bytes)
    (path_of : H → FilePath) (law : IsFileSystem fs file path_of) (recording : Recording R)
    (unicode : UnicodeData) (root : FilePath) (fsync : Bool) where
  -- Attachments are written below the directory `dir` and moved between two such directories.
  pub write_attachments-Keeps :
      (dir p : FilePath) (atts : List Attachment)
      → ((name : Text) → p ≢ dir ++ (name ∷ []))
      → Same file p (write_attachments fs recording unicode root fsync dir atts)
  unfolding write_attachments
  write_attachments-Keeps dir p [] ne = search keeping
  write_attachments-Keeps dir p (att ∷ atts) ne =
      by_content att.content (write_attachments fs recording unicode root fsync dir atts)
        (write_attachments-Keeps dir p atts ne)
    where
      by_content :
          (content : Option Bytes) (rest : Action R (List Entry))
          → Same file p rest
          → Same file p (elim content [
            | none ↦ rest
            | some content ↦ write_one fs recording unicode root fsync dir att content rest
          ])
      by_content none rest k = k
      by_content (some content) rest k =
          Keeps-seq (λ x. file x p)
            (write_bytes fs root (dir ++ (safe_name unicode att ∷ [])) content fsync)
            (with_entry fs recording unicode root fsync att content rest)
            (write_bytes-Keeps fs file path_of law p root (dir ++ (safe_name unicode att ∷ []))
              content fsync (ne (safe_name unicode att)))
            (search (keeping, k))

  pub stage_attachments-Keeps :
      (dir p : FilePath) (atts : List Attachment)
      → ((name : Text) → p ≢ dir ++ (name ∷ []))
      → Same file p (stage_attachments fs recording unicode root fsync dir atts)
  stage_attachments-Keeps dir p atts ne =
      Keeps-if (λ x. file x p) (has_content atts)
        (make_and_write fs recording unicode root fsync dir atts) (pure [])
        (Keeps-seq (λ x. file x p) (fs.make_dirs dir)
          (write_attachments fs recording unicode root fsync dir atts) (law.make_dirs_same dir p)
          (write_attachments-Keeps dir p atts ne))
        (Keeps-pure (λ x. file x p) [])

  pub move_entries-Keeps :
      (src dst p : FilePath) (entries : List Entry)
      → ((name : Text) → p ≢ src ++ (name ∷ []))
      → ((name : Text) → p ≢ dst ++ (name ∷ []))
      → Same file p (move_entries fs recording unicode root fsync src dst entries)
  unfolding move_entries
  move_entries-Keeps src dst p [] ne_src ne_dst = search keeping
  move_entries-Keeps src dst p (entry ∷ entries) ne_src ne_dst =
      Keeps-seq (λ x. file x p)
        (move_file fs root (src ++ (entry.name ∷ [])) (dst ++ (entry.name ∷ [])) fsync)
        (move_entries fs recording unicode root fsync src dst entries)
        (move_file-Keeps fs file path_of law p root (src ++ (entry.name ∷ []))
          (dst ++ (entry.name ∷ [])) fsync (ne_src entry.name) (ne_dst entry.name))
        (move_entries-Keeps src dst p entries ne_src ne_dst)

  pub commit_attachments-Keeps :
      (src dst p : FilePath) (entries : List Entry)
      → ((name : Text) → p ≢ src ++ (name ∷ []))
      → ((name : Text) → p ≢ dst ++ (name ∷ []))
      → Same file p (commit_attachments fs recording unicode root fsync src dst entries)
  commit_attachments-Keeps src dst p [] ne_src ne_dst = search keeping
  commit_attachments-Keeps src dst p (entry ∷ entries) ne_src ne_dst =
      Keeps-seq (λ x. file x p) (fs.make_dirs dst)
        (move_entries fs recording unicode root fsync src dst (entry ∷ entries))
        (law.make_dirs_same dst p) (move_entries-Keeps src dst p (entry ∷ entries) ne_src ne_dst)
