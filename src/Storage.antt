-- ===== src/Storage.antt =====
-- Files under the storage root (src/zammad_pdf_archiver/adapters/storage/fs_storage.py, and
-- `ensure_within_root` of domain/path_policy.py), over the calls of os and pathlib.
pub mod Layout
pub mod Custom
pub mod Places
pub mod Parts
pub mod Target
pub mod Ticket
pub mod Files
pub mod Staging
pub mod Finals
pub mod Commit
pub mod Stored
use zammad_ticket_archiver.Base.{
  ℕ, Bool, true, false, ◌&&◌, Option, none, some, List, [], ◌∷◌, ◌++◌, drop, length, ◌==◌,
  if◌then◌else◌,
}
use zammad_ticket_archiver.Base.Text.{Text, codes, text_eq}
use zammad_ticket_archiver.Errors.{Exc, os_error, value_error}
use zammad_ticket_archiver.Effect.{
  Reply, Action, Done, ok, err, cancelled, pure, raise, ◌>>=◌, ◌>>◌, except, finally,
}

abbrev pub Bytes : Type 0
Bytes = List ℕ

-- An absolute path, by its parts.
abbrev pub FilePath : Type 0
FilePath = List Text

abbrev pub parent : FilePath → FilePath
parent [] = []
parent (part ∷ []) = []
parent (part ∷ next ∷ rest) = part ∷ parent (next ∷ rest)

-- path.name
abbrev pub base_name : FilePath → Text
base_name [] = []
base_name (part ∷ []) = part
base_name (part ∷ next ∷ rest) = base_name (next ∷ rest)

-- target.is_relative_to(root)
unfoldable pub is_under : FilePath → FilePath → Bool
is_under [] target = true
is_under (part ∷ root) [] = false
is_under (part ∷ root) (other ∷ target) = (part == other) && is_under root target

-- The calls on the file system; `H` is an open file or directory. `write_flush` is `f.write` and
-- `f.flush`, `make_dirs` creates the parents too and accepts a directory that exists, and
-- `remove_tree` is `shutil.rmtree` with its errors ignored.
pub record FileSystem (R H : Type 0) : Type 0 where
  pub resolve : FilePath → Action R FilePath
  pub is_symlink : FilePath → Action R Bool
  pub make_dirs : FilePath → Action R Done
  pub open_truncate : FilePath → Action R H
  pub open_dir : FilePath → Action R H
  pub write_flush : H → Bytes → Action R Done
  pub set_mode : H → Action R Done
  pub sync : H → Action R Done
  pub close : H → Action R Done
  pub replace : FilePath → FilePath → Action R Done
  pub exists : FilePath → Action R Bool
  pub remove_tree : FilePath → Action R Done

-- except OSError as exc: k exc
abbrev pub on_os_error : {R A : Type 0} → Exc → Action R A → Action R A
on_os_error (os_error n m) k = k
on_os_error e k = raise e

module _ {R H : Type 0} (fs : FileSystem R H) where
  -- `ensure_within_root`
  unfoldable pub ensure_within_root : FilePath → FilePath → Action R Done
  ensure_within_root root target = do
    r ← fs.resolve root
    t ← fs.resolve target
    (if is_under r t then pure tt else raise (value_error (codes "target path escapes root")))

  abbrev pub refuse_symlink : Bool → Action R Done
  refuse_symlink true =
      raise (value_error (codes "target path traverses a symlink under storage root"))
  refuse_symlink false = pure tt

  -- the `try` in the loop of `_reject_symlinks_under_root`
  abbrev pub check_part : FilePath → Action R Done
  check_part current =
      except (do link ← fs.is_symlink current; refuse_symlink link)
        (λ e.
          on_os_error e
            (raise (value_error (codes "target path validation failed (unreadable component)"))))

  -- The loop of `_reject_symlinks_under_root`, from `current`.
  unfoldable pub walk : FilePath → List Text → Action R Done
  walk current [] = pure tt
  walk current (part ∷ parts) = do
    check_part (current ++ (part ∷ []))
    walk (current ++ (part ∷ [])) parts

  -- the rest of `_reject_symlinks_under_root`, once both paths are resolved
  abbrev pub walk_under : FilePath → FilePath → Action R Done
  walk_under root dir = do
    ensure_within_root root dir
    (if is_under root dir
        then walk root (drop (length root) dir)
        else raise (value_error (codes "target path escapes root")))

  -- `_reject_symlinks_under_root`
  unfoldable pub reject_symlinks : FilePath → FilePath → Action R Done
  reject_symlinks root target_dir = do
    r ← fs.resolve root
    d ← fs.resolve target_dir
    walk_under r d

  abbrev pub sync_opened : Option H → Action R Done
  sync_opened none = pure tt
  sync_opened (some h) = finally (except (fs.sync h) (λ e. on_os_error e (pure tt))) (fs.close h)

  -- `_fsync_dir_best_effort`
  unfoldable pub fsync_dir : FilePath → Action R Done
  fsync_dir dir = do
    opened ← except (do h ← fs.open_dir dir; pure (some h)) (λ e. on_os_error e (pure none))
    sync_opened opened

  abbrev pub when : Bool → Action R Done → Action R Done
  when b m = if b then m else pure tt

  -- The `with` block of `write_bytes`, and its body.
  abbrev pub after_write : Bool → H → Done → Action R Done
  after_write fsync h _ = do fs.set_mode h; when fsync (fs.sync h)

  abbrev pub write_all : Bytes → Bool → H → Action R Done
  write_all bytes fsync h = fs.write_flush h bytes >>= after_write fsync h

  abbrev pub fill : Bytes → Bool → H → Action R Done
  fill bytes fsync h = finally (write_all bytes fsync h) (fs.close h)

  -- What `write_bytes` and `move_file_within_root` check before they make a directory.
  abbrev pub prepare : FilePath → FilePath → Action R Done
  prepare root target = do reject_symlinks root (parent target); fs.make_dirs (parent target)

  abbrev pub write_checked : FilePath → Bytes → Bool → Action R Done
  write_checked target bytes fsync = do h ← fs.open_truncate target; fill bytes fsync h

  abbrev pub settle_dir : FilePath → Bool → Action R Done
  settle_dir target fsync = when fsync (fsync_dir (parent target))

  abbrev pub write_settled : FilePath → Bytes → Bool → Action R Done
  write_settled target bytes fsync = do write_checked target bytes fsync; settle_dir target fsync

  abbrev pub write_prepared : FilePath → FilePath → Bytes → Bool → Action R Done
  write_prepared root target bytes fsync = do prepare root target; write_settled target bytes fsync

  -- `write_bytes`
  unfoldable pub write_bytes : FilePath → FilePath → Bytes → Bool → Action R Done
  write_bytes root target bytes fsync = do
    ensure_within_root root target
    write_prepared root target bytes fsync

  abbrev pub replace_settled : FilePath → FilePath → Bool → Action R Done
  replace_settled src dst fsync = do fs.replace src dst; settle_dir dst fsync

  abbrev pub move_prepared : FilePath → FilePath → FilePath → Bool → Action R Done
  move_prepared root src dst fsync = do prepare root dst; replace_settled src dst fsync

  abbrev pub move_ensured : FilePath → FilePath → FilePath → Bool → Action R Done
  move_ensured root src dst fsync = do ensure_within_root root dst; move_prepared root src dst fsync

  -- `move_file_within_root`
  unfoldable pub move_file : FilePath → FilePath → FilePath → Bool → Action R Done
  move_file root src dst fsync = do ensure_within_root root src; move_ensured root src dst fsync
