-- ===== src/Tests/Paths.antt =====
-- Examples of the computed paths.
use mathlib.Core.Path.{◌≡◌, refl}
use zammad_ticket_archiver.Base.{contains, some, [], ◌∷◌, ◌++◌, nat_eq}
use zammad_ticket_archiver.Base.Text.{Text, codes, text_beq, is_space, strip, lstrip}
use zammad_ticket_archiver.Effect.{Action, ok}
use zammad_ticket_archiver.PathPolicy.{
  validate_segments, validate_each, validate_segment, sanitize_segment, sub_runs, keep_allowed,
  to_ascii, is_allowed,
}
use zammad_ticket_archiver.Storage.{ensure_within_root, is_under}
use zammad_ticket_archiver.Storage.Layout.{
  Formatted, formatted, split_at, target_parts, check_allowed, allowed_of, parse_prefix_segments,
  build_filename_from_pattern, check_filename, strip_parts,
}
use zammad_ticket_archiver.Storage.Target.{
  compute_storage_paths, build_target_dir, AreLaidOut, compute_storage_paths-AreLaidOut,
}
use zammad_ticket_archiver.Storage.Ticket.{StoragePaths}
use zammad_ticket_archiver.Tests.{ending}
use zammad_ticket_archiver.Tests.Files.{memory, ascii, archive_root, empty_disk, Disk}

-- f"Ticket-{ticket_number}"
abbrev numbered : Text → Text → Text → Formatted
numbered pattern number date = formatted (codes "T-" ++ number)

abbrev computed : Action Disk StoragePaths
computed =
    compute_storage_paths memory ascii archive_root numbered (codes "ann") (codes "Acme" ∷ [])
      (some (codes "Acme" ∷ [])) (codes "T-{ticket_number}") (codes "70001") (codes "2024-05-01")

abbrev acme_paths : StoragePaths
acme_paths = record {
  target_dir = codes "srv" ∷ codes "ann" ∷ codes "Acme" ∷ [];
  target_path = codes "srv" ∷ codes "ann" ∷ codes "Acme" ∷ codes "T-70001" ∷ [];
  sidecar_path = codes "srv" ∷ codes "ann" ∷ codes "Acme" ∷ codes "T-70001.json" ∷ [];
}

computed_ok : (computed empty_disk).0 ≡ ok acme_paths
unfolding compute_storage_paths build_target_dir target_parts validate_segments validate_each
    validate_segment text_beq contains sanitize_segment sub_runs keep_allowed to_ascii is_space
    is_allowed check_allowed allowed_of parse_prefix_segments strip lstrip
    build_filename_from_pattern check_filename split_at strip_parts ensure_within_root is_under
computed_ok = refl

compute_storage_paths-AreLaidOut_example :
    AreLaidOut memory ascii archive_root numbered
      (codes "ann")
      (codes "Acme" ∷ [])
      (some (codes "Acme" ∷ []))
      (codes "T-{ticket_number}")
      (codes "70001")
      (codes "2024-05-01")
      acme_paths
compute_storage_paths-AreLaidOut_example =
    compute_storage_paths-AreLaidOut memory ascii archive_root numbered (codes "ann")
      (codes "Acme" ∷ []) (some (codes "Acme" ∷ [])) (codes "T-{ticket_number}") (codes "70001")
      (codes "2024-05-01") empty_disk (computed empty_disk).1 acme_paths
      (ending (computed empty_disk) (ok acme_paths) computed_ok)
