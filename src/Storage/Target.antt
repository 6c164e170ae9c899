-- ===== src/Storage/Target.antt =====
-- Where a ticket's files are stored (`build_target_dir` of adapters/storage/layout.py and
-- `compute_storage_paths` of app/jobs/ticket_storage.py).
use mathlib.Core.Path.{subst}
use zammad_ticket_archiver.Base.{ℕ, ◌≡◌, ◌≢◌, refl, ap, sym, ◌∙◌, Option, List, [], ◌∷◌, ◌++◌}
use zammad_ticket_archiver.Base.Text.{Text, codes, strip}
use zammad_ticket_archiver.Effect.{Action, ok, pure, ◌>>=◌, ◌>>◌, >>=-eq-ok, >>-eq-ok}
use zammad_ticket_archiver.Effect.Replies.{lift}
use zammad_ticket_archiver.PathPolicy.{UnicodeData, IsSafe, sanitize_segment}
use zammad_ticket_archiver.Storage.{FilePath, parent, base_name, FileSystem, ensure_within_root}
use zammad_ticket_archiver.Storage.Layout.{
  Formatted, formatted, target_parts, build_filename_from_pattern,
}
use zammad_ticket_archiver.Storage.Parts.{
  build_filename_from_pattern-eq-ok, AreParts, target_parts-AreParts,
  build_filename_from_pattern-IsSafe,
}
use zammad_ticket_archiver.Storage.Ticket.{StoragePaths, temp_name}
use zammad_ticket_archiver.Storage.Places.{IsPlaced, parent-snoc, base_name-snoc}

module _ {R H : Type 0} (fs : FileSystem R H) (unicode : UnicodeData) (root : FilePath) where
  -- The end of `build_target_dir`, once the parts below the root are known.
  abbrev pub target_below : List Text → Action R FilePath
  target_below parts = do ensure_within_root fs root (root ++ parts); pure (root ++ parts)

  -- `build_target_dir`
  unfoldable pub build_target_dir : Text → List Text → Option (List Text) → Action R FilePath
  build_target_dir username segments allow_prefixes =
      lift (target_parts unicode username segments allow_prefixes) >>= target_below

  abbrev pub paths_in : FilePath → Text → StoragePaths
  paths_in dir filename = record {
    target_dir = dir;
    target_path = dir ++ (filename ∷ []);
    sidecar_path = dir ++ ((filename ++ codes ".json") ∷ []);
  }

  -- `compute_storage_paths`
  unfoldable pub compute_storage_paths :
      (Text → Text → Text → Formatted)
      → Text
      → List Text
      → Option (List Text)
      → Text
      → Text
      → Text
      → Action R StoragePaths
  compute_storage_paths format username segments allow_prefixes filename_pattern ticket_number
        date_iso =
      do
        target_dir ← build_target_dir username segments allow_prefixes
        filename ←
            lift
              (build_filename_from_pattern unicode format filename_pattern ticket_number date_iso)
        pure (paths_in target_dir filename)

  -- Paths below the root, as `compute_storage_paths` promises them.
  pub record AreLaidOut (format : Text → Text → Text → Formatted) (username : Text)
      (segments : List Text) (allow_prefixes : Option (List Text))
      (filename_pattern ticket_number date_iso : Text) (paths : StoragePaths) : Type 0 where
    pub parts : List Text
    pub filename : Text
    pub dir_is : paths.target_dir ≡ root ++ parts
    pub target_is : paths.target_path ≡ paths.target_dir ++ (filename ∷ [])
    pub sidecar_is : paths.sidecar_path ≡ paths.target_dir ++ ((filename ++ codes ".json") ∷ [])
    pub are_parts : AreParts unicode username segments allow_prefixes parts
    pub filename_safe : IsSafe 255 filename
    pub rendered : Text
    pub rendered_is :
        format filename_pattern
          (sanitize_segment unicode ticket_number)
          (sanitize_segment unicode date_iso)
        ≡ formatted rendered
    pub filename_is : filename ≡ strip rendered
    -- The checked directory lies, with its symbolic links resolved, in the resolved root.
    pub before : R
    pub after : R
    pub within : ensure_within_root fs root paths.target_dir before ≡ (ok tt, after)

  -- When `compute_storage_paths` returns, the directory is the root, below it the sanitized name of
  -- this user, and below that the sanitized segments given, at most ten, all of them safe, at most 64
  -- characters long and made of letters, digits, dots, dashes and underscores, and the sanitized
  -- segments begin with a prefix of the allow-list if there is one; in it lie the file, whose name is
  -- the pattern formatted with the sanitized number and date, stripped, safe and at most 255
  -- characters long, and its sidecar; and the directory has passed `ensure_within_root`.
  pub compute_storage_paths-AreLaidOut :
      (format : Text → Text → Text → Formatted) (username : Text) (segments : List Text)
      (allow_prefixes : Option (List Text)) (filename_pattern ticket_number date_iso : Text)
      (x y : R) (paths : StoragePaths)
      → compute_storage_paths format username segments allow_prefixes filename_pattern ticket_number
          date_iso x
        ≡ (ok paths, y)
      → AreLaidOut format username segments allow_prefixes filename_pattern ticket_number date_iso
          paths
  unfolding compute_storage_paths build_target_dir
  compute_storage_paths-AreLaidOut format username segments allow_prefixes filename_pattern
        ticket_number date_iso x y paths h =
      let naming =
        build_filename_from_pattern unicode format filename_pattern ticket_number date_iso in
      let building = build_target_dir username segments allow_prefixes in
      let checking = lift (target_parts unicode username segments allow_prefixes) in
      let (dir, x1, e1, h1) =
        >>=-eq-ok building (λ dir. lift naming >>= λ filename. pure (paths_in dir filename)) x y
          paths h in
      let (filename, x2, e2, h2) =
        >>=-eq-ok (lift naming) (λ filename. pure (paths_in dir filename)) x1 y paths h1 in
      let (parts, x3, e3, h3) = >>=-eq-ok checking target_below x x1 dir e1 in
      let (_, x4, e4, h4) =
        >>-eq-ok (ensure_within_root fs root (root ++ parts)) (pure (root ++ parts)) x3 x1 dir h3 in
      let is : paths_in dir filename ≡ paths = cc in
      let dir_is : root ++ parts ≡ dir = cc in
      let (rendered, rendered_is, filename_is) =
        build_filename_from_pattern-eq-ok unicode format filename_pattern ticket_number date_iso
          filename (ap (λ q. q.0) e2) in
      subst
        (AreLaidOut format username segments allow_prefixes filename_pattern ticket_number date_iso)
        is
        (record {
          parts = parts;
          filename = filename;
          dir_is = sym dir_is;
          target_is = refl;
          sidecar_is = refl;
          are_parts =
              target_parts-AreParts unicode username segments allow_prefixes parts
                (ap (λ q. q.0) e3);
          rendered = rendered;
          rendered_is = rendered_is;
          filename_is = filename_is;
          filename_safe =
              build_filename_from_pattern-IsSafe unicode format filename_pattern ticket_number
                date_iso filename (ap (λ q. q.0) e2);
          before = x3;
          after = x4;
          within = subst (λ d. ensure_within_root fs root d x3 ≡ (ok tt, x4)) dir_is e4;
        })

  -- Paths that are computed are where `store_ticket_files` needs them, unless the file's name or its
  -- sidecar's is that of a temporary directory of the ticket.
  pub AreLaidOut-IsPlaced :
      {format : Text → Text → Text → Formatted} {username : Text} {segments : List Text}
      {allow_prefixes : Option (List Text)} {filename_pattern ticket_number date_iso : Text}
      (paths : StoragePaths) (id : ℕ)
      → AreLaidOut format username segments allow_prefixes filename_pattern ticket_number date_iso
          paths
      → ((suffix : Text) → base_name paths.target_path ≢ temp_name id suffix)
      → ((suffix : Text) → base_name paths.target_path ++ codes ".json" ≢ temp_name id suffix)
      → IsPlaced paths id
  AreLaidOut-IsPlaced paths id laid not_temp sidecar_not_temp =
      let dir_is : parent paths.target_path ≡ paths.target_dir =
        ap parent laid.target_is ∙ parent-snoc paths.target_dir laid.filename in
      let name_is : base_name paths.target_path ≡ laid.filename =
        ap base_name laid.target_is ∙ base_name-snoc paths.target_dir laid.filename in
      record { target = cc; sidecar = cc; not_temp = not_temp; sidecar_not_temp = sidecar_not_temp }
