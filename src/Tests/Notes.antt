-- ===== src/Tests/Notes.antt =====
-- Examples of notes: a message with markup of its own.
use mathlib.Core.Path.{◌≡◌}
use zammad_ticket_archiver.Base.{none, some, []}
use zammad_ticket_archiver.Base.Text.{codes}
use zammad_ticket_archiver.Notes.{error_note_html}
use zammad_ticket_archiver.Notes.Markup.{count_of, error_note_html-tags}

error_note_html-tags_example :
    count_of b'<' (
      error_note_html
        (codes "1.0")
        (codes "Permanent")
        (codes "<script>")
        (codes "retry")
        none
        (some (codes "d<1>"))
        (codes "2024-05-01")
        (codes "permanent_error")
        [])
    ≡ count_of b'<' (
        error_note_html
          (codes "1.0")
          []
          []
          []
          none
          none
          (codes "2024-05-01")
          (codes "permanent_error")
          [])
error_note_html-tags_example =
    error_note_html-tags (codes "1.0") (codes "2024-05-01") (codes "permanent_error") []
      (codes "Permanent") (codes "<script>") (codes "retry") none (some (codes "d<1>")) [] [] []
      none none
