-- ===== src/Storage/Files.antt =====
-- What is relied on of the file system, and what the operations on files leave as it was.
use mathlib.Core.Path.{subst}
use zammad_ticket_archiver.Base.{
  ◌≡◌, ◌≢◌, ap, sym, ◌∙◌, Bool, true, false, Option, none, some, [], ◌∷◌, ◌++◌,
}
use zammad_ticket_archiver.Errors.{
  Exc, transient, permanent, timeout, request_error, http_status, server_error, rate_limit,
  auth_error, not_found, client_error, os_error, value_error, type_error, other,
}
use zammad_ticket_archiver.Effect.{
  Reply, Action, ok, err, cancelled, >>=-cases, >>=-eq-ok, >>-eq-ok, finally-eq-ok,
}
use zammad_ticket_archiver.Effect.Keeps.{
  Keeps, Keeps-raise, Keeps-bind, Keeps-seq, Keeps-finally, keeping,
}
use zammad_ticket_archiver.Storage.{
  Bytes, FilePath, FileSystem, on_os_error, ensure_within_root, refuse_symlink, check_part, walk,
  reject_symlinks, sync_opened, fsync_dir, after_write, write_all, fill, prepare, write_checked,
  settle_dir, write_settled, write_prepared, write_bytes, replace_settled, move_prepared,
  move_ensured, move_file,
}

abbrev pub appended : Option Bytes → Bytes → Option Bytes
appended none new = some new
appended (some old) new = some (old ++ new)

-- The action leaves the file at the path `p` as it was.
abbrev pub Same : {R A : Type 0} → (R → FilePath → Option Bytes) → FilePath → Action R A → Type 0
Same file p m = Keeps (λ x. file x p) m

-- What POSIX documents of these calls, where `file` gives the content at a path: opening truncates,
-- writing appends, and replacing moves; whatever a call replies, it touches no other file. `path_of`
-- is the path at which a file was opened.
pub record IsFileSystem {R H : Type 0} (fs : FileSystem R H) (file : R → FilePath → Option Bytes)
    (path_of : H → FilePath) : Type 0 where
  pub resolve_same : (q p : FilePath) → Same file p (fs.resolve q)
  pub is_symlink_same : (q p : FilePath) → Same file p (fs.is_symlink q)
  pub make_dirs_same : (q p : FilePath) → Same file p (fs.make_dirs q)
  pub open_dir_same : (q p : FilePath) → Same file p (fs.open_dir q)
  pub set_mode_same : (h : H) (p : FilePath) → Same file p (fs.set_mode h)
  pub sync_same : (h : H) (p : FilePath) → Same file p (fs.sync h)
  pub close_same : (h : H) (p : FilePath) → Same file p (fs.close h)
  pub exists_same : (q p : FilePath) → Same file p (fs.exists q)
  pub open_at :
      (q : FilePath) (x x' : R) (h : H)
      → fs.open_truncate q x ≡ (ok h, x')
      → (path_of h ≡ q) × (file x' q ≡ some [])
  pub open_else : (q p : FilePath) → p ≢ q → Same file p (fs.open_truncate q)
  pub write_at :
      (h : H) (bytes : Bytes) (x x' : R)
      → fs.write_flush h bytes x ≡ (ok tt, x')
      → file x' (path_of h) ≡ appended (file x (path_of h)) bytes
  pub write_else :
      (h : H) (bytes : Bytes) (p : FilePath) → p ≢ path_of h → Same file p (fs.write_flush h bytes)
  pub replace_at :
      (src dst : FilePath) (x x' : R)
      → fs.replace src dst x ≡ (ok tt, x')
      → file x' dst ≡ file x src
  pub replace_else : (src dst p : FilePath) → p ≢ src → p ≢ dst → Same file p (fs.replace src dst)
  pub remove_tree_else :
      (q p : FilePath) → ((rest : FilePath) → p ≢ q ++ rest) → Same file p (fs.remove_tree q)

module _ {R H : Type 0} (fs : FileSystem R H) (file : R → FilePath → Option Bytes)
    (path_of : H → FilePath) (law : IsFileSystem fs file path_of) (p : FilePath) where
  abbrev obs : R → Option Bytes
  obs x = file x p

  on_os_error-Keeps :
      {A : Type 0} (e : Exc) (k : Action R A) → Keeps obs k → Keeps obs (on_os_error e k)
  on_os_error-Keeps (os_error n m) k kk = kk
  on_os_error-Keeps (transient m) k kk = Keeps-raise obs _
  on_os_error-Keeps (permanent m) k kk = Keeps-raise obs _
  on_os_error-Keeps (timeout m) k kk = Keeps-raise obs _
  on_os_error-Keeps (request_error m) k kk = Keeps-raise obs _
  on_os_error-Keeps (http_status n m) k kk = Keeps-raise obs _
  on_os_error-Keeps (server_error m) k kk = Keeps-raise obs _
  on_os_error-Keeps (rate_limit m) k kk = Keeps-raise obs _
  on_os_error-Keeps (auth_error m) k kk = Keeps-raise obs _
  on_os_error-Keeps (not_found m) k kk = Keeps-raise obs _
  on_os_error-Keeps (client_error m) k kk = Keeps-raise obs _
  on_os_error-Keeps (value_error m) k kk = Keeps-raise obs _
  on_os_error-Keeps (type_error m) k kk = Keeps-raise obs _
  on_os_error-Keeps (other n m) k kk = Keeps-raise obs _

  ensure-Keeps : (root target : FilePath) → Keeps obs (ensure_within_root fs root target)
  unfolding ensure_within_root
  ensure-Keeps root target = search (keeping, law.resolve_same)

  refuse-Keeps : (b : Bool) → Keeps obs (refuse_symlink fs b)
  refuse-Keeps true = search keeping
  refuse-Keeps false = search keeping

  check_part-Keeps : (current : FilePath) → Keeps obs (check_part fs current)
  check_part-Keeps current =
      search (keeping, refuse-Keeps, on_os_error-Keeps, law.is_symlink_same) depth 9

  walk-Keeps : (current parts : FilePath) → Keeps obs (walk fs current parts)
  unfolding walk
  walk-Keeps current [] = search keeping
  walk-Keeps current (part ∷ parts) =
      let next = current ++ (part ∷ []) in
      Keeps-bind obs (check_part fs next) (λ _. walk fs next parts) (check_part-Keeps next)
        (λ _. walk-Keeps next parts)

  prepare-Keeps : (root target : FilePath) → Keeps obs (prepare fs root target)
  unfolding reject_symlinks
  prepare-Keeps root target =
      search (keeping, ensure-Keeps, walk-Keeps, law.resolve_same, law.make_dirs_same) depth 9

  sync_opened-Keeps : (opened : Option H) → Keeps obs (sync_opened fs opened)
  sync_opened-Keeps none = search keeping
  sync_opened-Keeps (some h) = search (keeping, on_os_error-Keeps, law.sync_same, law.close_same)

  fsync_dir-Keeps : (dir : FilePath) → Keeps obs (fsync_dir fs dir)
  unfolding fsync_dir
  fsync_dir-Keeps dir =
      search (keeping, on_os_error-Keeps, sync_opened-Keeps, law.open_dir_same) depth 9

  write_all-Keeps :
      (bytes : Bytes) (fsync : Bool) (h : H)
      → p ≢ path_of h
      → Keeps obs (write_all fs bytes fsync h)
  write_all-Keeps bytes fsync h ne =
      Keeps-bind obs (fs.write_flush h bytes) (after_write fs fsync h) (law.write_else h bytes p ne)
        (λ _. search (keeping, law.set_mode_same, law.sync_same))

  -- once a file is open
  fill-Keeps :
      (bytes : Bytes) (fsync : Bool) (h : H) → p ≢ path_of h → Keeps obs (fill fs bytes fsync h)
  fill-Keeps bytes fsync h ne =
      Keeps-finally obs (write_all fs bytes fsync h) (fs.close h) (write_all-Keeps bytes fsync h ne)
        (law.close_same h p)

  write_checked-Keeps :
      (target : FilePath) (bytes : Bytes) (fsync : Bool)
      → p ≢ target
      → Keeps obs (write_checked fs target bytes fsync)
  write_checked-Keeps target bytes fsync ne = record {
    at = λ x.
        >>=-cases (λ q. obs q.1 ≡ obs x) (fs.open_truncate target) (fill fs bytes fsync) x
          (λ h y e.
            let (at_target, _) = law.open_at target x y h e in
            (fill-Keeps bytes fsync h (λ same. ne (same ∙ at_target))).at y ∙ opened x y (ok h) e)
          (λ e y h. opened x y (err e) h) (λ y h. opened x y cancelled h);
  }
    where
      opened : (x y : R) (r : Reply H) → fs.open_truncate target x ≡ (r, y) → obs y ≡ obs x
      opened x y r e = sym (ap (λ q. obs q.1) e) ∙ (law.open_else target p ne).at x

  settle_dir-Keeps : (target : FilePath) (fsync : Bool) → Keeps obs (settle_dir fs target fsync)
  settle_dir-Keeps target fsync = search (keeping, fsync_dir-Keeps)

  -- `write_bytes` changes no file but its target, however it ends.
  pub write_bytes-Keeps :
      (root target : FilePath) (bytes : Bytes) (fsync : Bool)
      → p ≢ target
      → Keeps obs (write_bytes fs root target bytes fsync)
  unfolding write_bytes
  write_bytes-Keeps root target bytes fsync ne =
      Keeps-seq obs (ensure_within_root fs root target) (write_prepared fs root target bytes fsync)
        (ensure-Keeps root target)
        (Keeps-seq obs (prepare fs root target) (write_settled fs target bytes fsync)
          (prepare-Keeps root target)
          (Keeps-seq obs (write_checked fs target bytes fsync) (settle_dir fs target fsync)
            (write_checked-Keeps target bytes fsync ne) (settle_dir-Keeps target fsync)))

  -- `move_file_within_root` changes no file but its source and its target, however it ends.
  pub move_file-Keeps :
      (root src dst : FilePath) (fsync : Bool)
      → p ≢ src
      → p ≢ dst
      → Keeps obs (move_file fs root src dst fsync)
  unfolding move_file
  move_file-Keeps root src dst fsync ne_src ne_dst =
      Keeps-seq obs (ensure_within_root fs root src) (move_ensured fs root src dst fsync)
        (ensure-Keeps root src)
        (Keeps-seq obs (ensure_within_root fs root dst) (move_prepared fs root src dst fsync)
          (ensure-Keeps root dst)
          (Keeps-seq obs (prepare fs root dst) (replace_settled fs src dst fsync)
            (prepare-Keeps root dst)
            (Keeps-seq obs (fs.replace src dst) (settle_dir fs dst fsync)
              (law.replace_else src dst p ne_src ne_dst) (settle_dir-Keeps dst fsync))))

module _ {R H : Type 0} (fs : FileSystem R H) (file : R → FilePath → Option Bytes)
    (path_of : H → FilePath) (law : IsFileSystem fs file path_of) where
  pub kept :
      {A : Type 0} (m : Action R A) (p : FilePath) (r : Reply A) (x y : R)
      → Keeps (λ x. file x p) m
      → m x ≡ (r, y)
      → file y p ≡ file x p
  kept m p r x y k e = sym (ap (λ q. file q.1 p) e) ∙ k.at x

  after_write-Keeps :
      (fsync : Bool) (h : H) (p : FilePath) → Keeps (λ x. file x p) (after_write fs fsync h tt)
  after_write-Keeps fsync h p = search (keeping, law.set_mode_same, law.sync_same)

  fill-at :
      (target : FilePath) (bytes : Bytes) (fsync : Bool) (h : H) (x y : R)
      → path_of h ≡ target
      → file x target ≡ some []
      → fill fs bytes fsync h x ≡ (ok tt, y)
      → file y target ≡ some bytes
  fill-at target bytes fsync h x y at_target empty e =
      let (y1, _, body, closing) =
        finally-eq-ok (write_all fs bytes fsync h) (fs.close h) x y tt e in
      let (_, y2, wrote, rest) =
        >>=-eq-ok (fs.write_flush h bytes) (after_write fs fsync h) x y1 tt body in
      let written : file y2 target ≡ some bytes =
        subst (λ p. file y2 p ≡ appended (file x p) bytes) at_target
          (law.write_at h bytes x y2 wrote)
        ∙ ap (λ c. appended c bytes) empty in
      kept (fs.close h) target (ok _) y1 y (law.close_same h target) closing
      ∙ (kept (after_write fs fsync h tt) target (ok tt) y2 y1 (after_write-Keeps fsync h target)
            rest
          ∙ written)

  -- A `write_bytes` that returns leaves its bytes in the target.
  pub write_bytes-at :
      (root target : FilePath) (bytes : Bytes) (fsync : Bool) (x y : R)
      → write_bytes fs root target bytes fsync x ≡ (ok tt, y)
      → file y target ≡ some bytes
  unfolding write_bytes
  write_bytes-at root target bytes fsync x y e =
      let (_, x1, _, e1) =
        >>-eq-ok (ensure_within_root fs root target) (write_prepared fs root target bytes fsync) x y
          tt e in
      let (_, x2, _, e2) =
        >>-eq-ok (prepare fs root target) (write_settled fs target bytes fsync) x1 y tt e1 in
      let (_, x3, wrote, e3) =
        >>-eq-ok (write_checked fs target bytes fsync) (settle_dir fs target fsync) x2 y tt e2 in
      let (h, x4, opened, filled) =
        >>=-eq-ok (fs.open_truncate target) (fill fs bytes fsync) x2 x3 tt wrote in
      let (at_target, empty) = law.open_at target x2 x4 h opened in
      kept (settle_dir fs target fsync) target (ok tt) x3 y
        (settle_dir-Keeps fs file path_of law target target fsync) e3
      ∙ fill-at target bytes fsync h x4 x3 at_target empty filled

  -- A `move_file_within_root` that returns leaves in the target what the source held.
  pub move_file-at :
      (root src dst : FilePath) (fsync : Bool) (x y : R)
      → move_file fs root src dst fsync x ≡ (ok tt, y)
      → file y dst ≡ file x src
  unfolding move_file
  move_file-at root src dst fsync x y e =
      let (_, x1, e1, r1) =
        >>-eq-ok (ensure_within_root fs root src) (move_ensured fs root src dst fsync) x y tt e in
      let (_, x2, e2, r2) =
        >>-eq-ok (ensure_within_root fs root dst) (move_prepared fs root src dst fsync) x1 y tt
          r1 in
      let (_, x3, e3, r3) =
        >>-eq-ok (prepare fs root dst) (replace_settled fs src dst fsync) x2 y tt r2 in
      let (_, x4, e4, r4) = >>-eq-ok (fs.replace src dst) (settle_dir fs dst fsync) x3 y tt r3 in
      kept (settle_dir fs dst fsync) dst (ok tt) x4 y
        (settle_dir-Keeps fs file path_of law dst dst fsync) r4
      ∙ (law.replace_at src dst x3 x4 e4
          ∙ (kept (prepare fs root dst) src (ok _) x2 x3
                (prepare-Keeps fs file path_of law src root dst) e3
              ∙ (kept (ensure_within_root fs root dst) src (ok _) x1 x2
                    (ensure-Keeps fs file path_of law src root dst) e2
                  ∙ kept (ensure_within_root fs root src) src (ok _) x x1
                      (ensure-Keeps fs file path_of law src root src) e1)))
