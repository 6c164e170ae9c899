-- ===== src/Tests/Files.antt =====
-- Examples of the storage: a file system in memory.
use mathlib.Core.Path.{◌≡◌, refl, ap, sym, ◌∙◌}
use zammad_ticket_archiver.Base.{
  ℕ, ◌≢◌, ◌⊎◌, true, false, Option, none, some, [], ◌∷◌, ◌++◌, arith, ◌==◌, nat_eq, Bool-cases, inl,
  inr, HasEq, list_beq, list_beq_iff, if◌then◌else◌,
}
use zammad_ticket_archiver.Base.Text.{
  Text, codes, text_eq, text_beq, text_beq_iff, show_nat, is_space,
}
use zammad_ticket_archiver.Effect.{Reply, Action, Done, ok, err}
use zammad_ticket_archiver.Errors.{os_error}
use zammad_ticket_archiver.PathPolicy.{
  UnicodeData, sanitize_segment, is_allowed, keep_allowed, sub_runs, to_ascii,
}
use zammad_ticket_archiver.Tests.{ending}
use zammad_ticket_archiver.Storage.{
  Bytes, FilePath, is_under, FileSystem, write_bytes, ensure_within_root, reject_symlinks, walk,
  fsync_dir, move_file,
}
use zammad_ticket_archiver.Storage.Files.{appended, IsFileSystem}
use zammad_ticket_archiver.Storage.Finals.{IsRecording}
use zammad_ticket_archiver.Storage.Places.{IsPlaced}
use zammad_ticket_archiver.Storage.Ticket.{
  StoragePaths, StorageResult, Attachment, Recording, store_ticket_files, clean_up, store_body,
  write_attachments, move_entries, safe_name,
}
use zammad_ticket_archiver.Storage.Commit.{store_ticket_files-sidecar_last}
use zammad_ticket_archiver.Storage.Stored.{IsStored, store_ticket_files-IsStored}

instance abbrev path_eq : HasEq FilePath
path_eq = record { eqb = list_beq; eqb_iff = list_beq_iff }

abbrev pub Disk : Type 0
Disk = FilePath → Option Bytes

unfoldable pub set : FilePath → Option Bytes → Disk → Disk
set p content x q = if q == p then content else x q

unfoldable pub write_to : FilePath → Bytes → Disk → Disk
write_to p bytes x = set p (appended (x p) bytes) x

unfoldable pub moved : FilePath → FilePath → Disk → Disk
moved src dst x = set dst (x src) (set src none x)

unfoldable pub without : FilePath → Disk → Disk
without q x p = if is_under q p then none else x p

-- Renaming fails when there is no file.
abbrev rename_held : Option Bytes → FilePath → FilePath → Action Disk Done
rename_held none src dst x = (err (os_error none (codes "no such file")), x)
rename_held (some content) src dst x = (ok tt, moved src dst x)

abbrev pub memory : FileSystem Disk FilePath
memory = record {
  resolve = λ p x. (ok p, x);
  is_symlink = λ p x. (ok false, x);
  make_dirs = λ p x. (ok tt, x);
  open_truncate = λ p x. (ok p, set p (some []) x);
  open_dir = λ p x. (ok p, x);
  write_flush = λ h bytes x. (ok tt, write_to h bytes x);
  set_mode = λ h x. (ok tt, x);
  sync = λ h x. (ok tt, x);
  close = λ h x. (ok tt, x);
  replace = λ src dst x. rename_held (x src) src dst x;
  exists = λ p x. (ok true, x);
  remove_tree = λ p x. (ok tt, without p x);
}

set-at : (p : FilePath) (content : Option Bytes) (x : Disk) → set p content x p ≡ content
unfolding set
set-at p content x = ground (arith, list_beq_iff p p)

set-else : (p q : FilePath) (content : Option Bytes) (x : Disk) → q ≢ p → set p content x q ≡ x q
unfolding set
set-else p q content x ne = ground (arith, list_beq_iff q p, ne)

is_under-append :
    (root p : FilePath) → is_under root p ≡ true → (rest : FilePath) × (p ≡ root ++ rest)
unfolding is_under
is_under-append [] p h = (p, refl)
is_under-append (part ∷ root) [] h = absurd cc
is_under-append (part ∷ root) (other ∷ p) h =
    let same : other ≡ part = ground (arith, h, text_beq_iff part other) in
    let below : is_under root p ≡ true = ground (arith, h) in
    let (rest, e) = is_under-append root p below in (rest, cc)

without-else :
    (q p : FilePath) (x : Disk) → ((rest : FilePath) → p ≢ q ++ rest) → without q x p ≡ x p
unfolding without
without-else q p x ne = elim (Bool-cases (is_under q p)) [
  | inl inside ↦ let (rest, e) = is_under-append q p inside in absurd (ne rest e)
  | inr apart ↦ ground (arith, apart)
]

rename-at :
    (held : Option Bytes) (src dst : FilePath) (x x' : Disk)
    → x src ≡ held
    → rename_held held src dst x ≡ (ok tt, x')
    → x' dst ≡ x src
unfolding moved
rename-at none src dst x x' h e = absurd cc
rename-at (some content) src dst x x' h e =
    sym (ap (λ p. p.1 dst) e) ∙ set-at dst (x src) (set src none x)

rename-else :
    (held : Option Bytes) (src dst p : FilePath) (x : Disk)
    → p ≢ src
    → p ≢ dst
    → (rename_held held src dst x).1 p ≡ x p
unfolding moved
rename-else none src dst p x ne_src ne_dst = refl
rename-else (some content) src dst p x ne_src ne_dst =
    set-else dst p (x src) (set src none x) ne_dst ∙ set-else src p none x ne_src

opened :
    (q : FilePath) (x x' : Disk) (h : FilePath)
    → Path (Reply FilePath × Disk) (ok q, set q (some []) x) (ok h, x')
    → (h ≡ q) × (x' q ≡ some [])
opened q x x' h e = (cc, sym (ap (λ p. p.1 q) e) ∙ set-at q (some []) x)

wrote :
    (h : FilePath) (bytes : Bytes) (x x' : Disk)
    → Path (Reply Done × Disk) (ok tt, write_to h bytes x) (ok tt, x')
    → x' h ≡ appended (x h) bytes
unfolding write_to
wrote h bytes x x' e = sym (ap (λ p. p.1 h) e) ∙ set-at h (appended (x h) bytes) x

memory-IsFileSystem : IsFileSystem memory (λ x. x) (λ h. h)
memory-IsFileSystem = record {
  resolve_same = λ q p. record { at = λ x. refl };
  is_symlink_same = λ q p. record { at = λ x. refl };
  make_dirs_same = λ q p. record { at = λ x. refl };
  open_dir_same = λ q p. record { at = λ x. refl };
  set_mode_same = λ h p. record { at = λ x. refl };
  sync_same = λ h p. record { at = λ x. refl };
  close_same = λ h p. record { at = λ x. refl };
  exists_same = λ q p. record { at = λ x. refl };
  open_at = λ q x x' h e. opened q x x' h e;
  open_else = λ q p ne. record { at = λ x. set-else q p (some []) x ne };
  write_at = λ h bytes x x' e. wrote h bytes x x' e;
  write_else = λ h bytes p ne. record { at = λ x. unfold write_to in set-else h p _ x ne };
  replace_at = λ src dst x x' e. rename-at (x src) src dst x x' refl e;
  replace_else =
      λ src dst p ne_src ne_dst. record { at = λ x. rename-else (x src) src dst p x ne_src ne_dst };
  remove_tree_else = λ q p ne. record { at = λ x. without-else q p x ne };
}

abbrev plain_recording : Recording Disk
plain_recording = record {
  sha256 = λ bytes. codes "digest";
  fresh = λ x. (ok (codes "0badcafe"), x);
  audit_json = λ sha entries x. (ok (sha ++ codes "\n"), x);
}

plain-IsRecording : IsRecording plain_recording (λ x. x)
plain-IsRecording = record {
  fresh_same = λ p. record { at = λ x. refl };
  audit_same = λ sha entries p. record { at = λ x. refl };
}

abbrev pub ascii : UnicodeData
ascii = record { nfkd = λ s. s; is_mark = λ c. false }

abbrev pub archive_root : FilePath
archive_root = codes "srv" ∷ []

abbrev archive_dir : FilePath
archive_dir = codes "srv" ∷ codes "ann" ∷ codes "Acme" ∷ []

abbrev acme : StoragePaths
acme = record {
  target_dir = archive_dir;
  target_path = archive_dir ++ (codes "t7.pdf" ∷ []);
  sidecar_path = archive_dir ++ (codes "t7.pdf.json" ∷ []);
}

first_of : Text → ℕ
first_of [] = 0
first_of (c ∷ s) = c

acme-IsPlaced : IsPlaced acme 7
unfolding first_of
acme-IsPlaced = record {
  target = refl;
  sidecar = refl;
  not_temp = λ suffix e. omega (arith, ap first_of e);
  sidecar_not_temp = λ suffix e. omega (arith, ap first_of e);
}

abbrev scan : Attachment
scan = record {
  article_id = 3;
  attachment_id = some 4;
  filename = some (codes "scan.png");
  content = some (1 ∷ 2 ∷ []);
}

abbrev pdf : Bytes
pdf = codes "%PDF"

abbrev pub empty_disk : Disk
empty_disk p = none

abbrev store : Action Disk StorageResult
store = store_ticket_files memory plain_recording ascii archive_root true acme pdf (scan ∷ []) 7

store_ticket_files-sidecar_last_example :
    ((store empty_disk).1 acme.sidecar_path ≡ none)
    ⊎ ((store empty_disk).1 acme.target_path ≡ some pdf)
store_ticket_files-sidecar_last_example =
    store_ticket_files-sidecar_last memory (λ x. x) (λ h. h) memory-IsFileSystem plain_recording
      plain-IsRecording ascii archive_root true acme 7 acme-IsPlaced pdf (scan ∷ []) empty_disk

abbrev acme_result : StorageResult
acme_result = record {
  target_path = acme.target_path;
  sidecar_path = acme.sidecar_path;
  sha256_hex = codes "digest";
  size_bytes = 4;
}

store_ok : (store empty_disk).0 ≡ ok acme_result
unfolding store_ticket_files clean_up store_body write_attachments write_bytes ensure_within_root
    is_under text_beq reject_symlinks walk fsync_dir move_entries move_file write_to set show_nat
    safe_name sanitize_segment is_space is_allowed keep_allowed sub_runs to_ascii without moved
store_ok = refl

store_ticket_files-IsStored_example :
    (acme_result ≡ acme_result) × IsStored (λ x. x) plain_recording acme pdf (store empty_disk).1
store_ticket_files-IsStored_example =
    store_ticket_files-IsStored memory (λ x. x) (λ h. h) memory-IsFileSystem plain_recording
      plain-IsRecording ascii archive_root true acme 7 acme-IsPlaced pdf (scan ∷ []) empty_disk
      (store empty_disk).1 acme_result (ending (store empty_disk) (ok acme_result) store_ok)
