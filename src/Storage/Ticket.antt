-- ===== src/Storage/Ticket.antt =====
-- `store_ticket_files` (src/zammad_pdf_archiver/app/jobs/ticket_storage.py).
use zammad_ticket_archiver.Base.{
  ℕ, Bool, true, false, Option, none, some, List, [], ◌∷◌, ◌++◌, length, if◌then◌else◌,
}
use zammad_ticket_archiver.Base.Text.{Text, codes, or_text, show_nat}
use zammad_ticket_archiver.Effect.{Action, Done, pure, ◌>>=◌, ◌>>◌, finally}
use zammad_ticket_archiver.PathPolicy.{UnicodeData, sanitize_segment}
use zammad_ticket_archiver.Storage.{
  Bytes, FilePath, parent, base_name, FileSystem, when, write_bytes, move_file,
}

-- `StoragePaths`
pub record StoragePaths : Type 0 where
  pub target_dir : FilePath
  pub target_path : FilePath
  pub sidecar_path : FilePath

-- `StorageResult`
pub record StorageResult : Type 0 where
  pub target_path : FilePath
  pub sidecar_path : FilePath
  pub sha256_hex : Text
  pub size_bytes : ℕ

-- An attachment of the snapshot, with the id of its article.
pub record Attachment : Type 0 where
  pub article_id : ℕ
  pub attachment_id : Option ℕ
  pub filename : Option Text
  pub content : Option Bytes

-- An entry of the audit record, with the file's name in place of its path.
pub record Entry : Type 0 where
  pub name : Text
  pub article_id : ℕ
  pub attachment_id : Option ℕ
  pub filename : Option Text
  pub sha256 : Text

-- What the storage calls besides the file system: SHA-256, the first eight digits of a new UUID, and
-- the audit record of domain/audit.py as JSON, which reads certificates.
pub record Recording (R : Type 0) : Type 0 where
  pub sha256 : Bytes → Text
  pub fresh : Action R Text
  pub audit_json : Text → List Entry → Action R Bytes

abbrev pub or_none : Option ℕ → ℕ
or_none none = 0
or_none (some n) = n

abbrev pub name_or_bin : Option Text → Text
name_or_bin none = codes "bin"
name_or_bin (some name) = or_text name (codes "bin")

-- The name of an attachment's file.
unfoldable pub safe_name : UnicodeData → Attachment → Text
safe_name unicode att =
    let ids = show_nat att.article_id ++ (codes "_" ++ show_nat (or_none att.attachment_id)) in
    or_text (sanitize_segment unicode (ids ++ (codes "_" ++ name_or_bin att.filename)))
      (codes "article_" ++ ids)

abbrev pub has_content : List Attachment → Bool
has_content [] = false
has_content (att ∷ atts) = elim att.content [ some _ ↦ true | none ↦ has_content atts ]

-- f".tmp-archiving-{ticket_id}-{suffix}"
abbrev pub temp_name : ℕ → Text → Text
temp_name ticket_id suffix =
    codes ".tmp-archiving-" ++ (show_nat ticket_id ++ (codes "-" ++ suffix))

abbrev pub attachments_name : Text
attachments_name = codes "attachments"

module _ {R H : Type 0} (fs : FileSystem R H) (recording : Recording R) (unicode : UnicodeData)
    (root : FilePath) (fsync : Bool) where
  abbrev pub entry_of : Attachment → Bytes → Entry
  entry_of att content = record {
    name = safe_name unicode att;
    article_id = att.article_id;
    attachment_id = att.attachment_id;
    filename = att.filename;
    sha256 = recording.sha256 content;
  }

  abbrev pub with_entry : Attachment → Bytes → Action R (List Entry) → Action R (List Entry)
  with_entry att content rest = do entries ← rest; pure (entry_of att content ∷ entries)

  -- A pass of the loop below with an attachment that has content; `rest` is the passes after it.
  abbrev pub write_one :
      FilePath → Attachment → Bytes → Action R (List Entry) → Action R (List Entry)
  write_one dir att content rest = do
    write_bytes fs root (dir ++ (safe_name unicode att ∷ [])) content fsync
    with_entry att content rest

  -- The loop over the attachments, which are written into `dir`.
  unfoldable pub write_attachments : FilePath → List Attachment → Action R (List Entry)
  write_attachments dir [] = pure []
  write_attachments dir (att ∷ atts) = elim att.content [
    | none ↦ write_attachments dir atts
    | some content ↦ write_one dir att content (write_attachments dir atts)
  ]

  abbrev pub make_and_write : FilePath → List Attachment → Action R (List Entry)
  make_and_write dir atts = do fs.make_dirs dir; write_attachments dir atts

  abbrev pub stage_attachments : FilePath → List Attachment → Action R (List Entry)
  stage_attachments dir atts = if has_content atts then make_and_write dir atts else pure []

  -- The loop over the entries, which moves their files.
  unfoldable pub move_entries : FilePath → FilePath → List Entry → Action R Done
  move_entries src dst [] = pure tt
  move_entries src dst (entry ∷ entries) = do
    move_file fs root (src ++ (entry.name ∷ [])) (dst ++ (entry.name ∷ [])) fsync
    move_entries src dst entries

  abbrev pub commit_attachments : FilePath → FilePath → List Entry → Action R Done
  commit_attachments src dst [] = pure tt
  commit_attachments src dst (entry ∷ entries) = do
    fs.make_dirs dst
    move_entries src dst (entry ∷ entries)

  module _ (paths : StoragePaths) (pdf : Bytes) (atts : List Attachment) (temp : FilePath) where
    abbrev pub temp_pdf : FilePath
    temp_pdf = temp ++ (base_name paths.target_path ∷ [])

    abbrev pub temp_sidecar : FilePath
    temp_sidecar = temp ++ (base_name paths.sidecar_path ∷ [])

    abbrev pub temp_attachments : FilePath
    temp_attachments = temp ++ (attachments_name ∷ [])

    abbrev pub attachments_dir : FilePath
    attachments_dir = parent paths.target_path ++ (attachments_name ∷ [])

    -- The last two moves.
    abbrev pub commit : Action R Done
    commit = do
      move_file fs root temp_pdf paths.target_path fsync
      move_file fs root temp_sidecar paths.sidecar_path fsync

    abbrev pub commit_all : List Entry → Action R Done
    commit_all entries = do commit_attachments temp_attachments attachments_dir entries; commit

    -- What is written into the temporary directory, once the audit record is made.
    abbrev pub stage_files : List Entry → Bytes → Action R Done
    stage_files entries audit = do
      write_bytes fs root temp_pdf pdf fsync
      write_bytes fs root temp_sidecar audit fsync
      commit_all entries

    abbrev pub record_then : List Entry → Action R Done
    record_then entries = do
      audit ← recording.audit_json (recording.sha256 pdf) entries
      stage_files entries audit

    -- The body of the `try` in `store_ticket_files`.
    unfoldable pub store_body : Action R Done
    store_body = do
      fs.make_dirs temp
      entries ← stage_attachments temp_attachments atts
      record_then entries

    abbrev pub remove_if : Bool → Action R Done
    remove_if b = when fs b (fs.remove_tree temp)

    -- its `finally`
    unfoldable pub clean_up : Action R Done
    clean_up = do there ← fs.exists temp; remove_if there

  abbrev pub stored : StoragePaths → Bytes → StorageResult
  stored paths pdf = record {
    target_path = paths.target_path;
    sidecar_path = paths.sidecar_path;
    sha256_hex = recording.sha256 pdf;
    size_bytes = length pdf;
  }

  abbrev pub temp_dir : StoragePaths → ℕ → Text → FilePath
  temp_dir paths ticket_id suffix = parent paths.target_path ++ (temp_name ticket_id suffix ∷ [])

  abbrev pub store_in : StoragePaths → Bytes → List Attachment → FilePath → Action R StorageResult
  store_in paths pdf atts temp = do
    finally (store_body paths pdf atts temp) (clean_up paths pdf atts temp)
    pure (stored paths pdf)

  -- `store_ticket_files`
  unfoldable pub store_ticket_files :
      StoragePaths → Bytes → List Attachment → ℕ → Action R StorageResult
  store_ticket_files paths pdf atts ticket_id = do
    suffix ← recording.fresh
    store_in paths pdf atts (temp_dir paths ticket_id suffix)
