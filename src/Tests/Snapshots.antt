-- ===== src/Tests/Snapshots.antt =====
-- An example of the limits on attachments.
use mathlib.Core.Path.{◌≡◌, refl}
use zammad_ticket_archiver.Base.{ℕ, true, none, some, List, [], ◌∷◌, ◌==◌, nat_eq, if◌then◌else◌}
use zammad_ticket_archiver.Base.Text.{codes}
use zammad_ticket_archiver.Errors.{timeout}
use zammad_ticket_archiver.Effect.{Action, Done, ok, err}
use zammad_ticket_archiver.Storage.{Bytes}
use zammad_ticket_archiver.Snapshot.{
  AttachmentMeta, Article, content_at, content_map, bounded_content, with_contents, with_articles,
  fetch_one, fetch_attachments, fetch_articles, enrich_attachment_content,
}
use zammad_ticket_archiver.Snapshot.Limits.{InLimits, enrich_attachment_content-InLimits}

-- Attachment 1 has four bytes, attachment 2 three, attachment 3 seven, and the others cannot be read.
abbrev contents : ℕ → ℕ → Action Done Bytes
contents article attachment x =
    if attachment == 1
    then (ok (codes "%PDF"), x)
    else if attachment == 2
    then (ok (codes "abc"), x)
    else if attachment == 3
    then (ok (codes "too big"), x)
    else (err (timeout (codes "gone")), x)

abbrev listed : ℕ → AttachmentMeta
listed n = record {
  article_id = 9;
  attachment_id = some n;
  filename = none;
  size = none;
  content_type = none;
  content = none;
}

abbrev with_content : ℕ → Bytes → AttachmentMeta
with_content n bytes = record (listed n) { content = some bytes }

abbrev before : List (Article Done)
before =
    record { id = 9; details = tt; attachments = listed 1 ∷ listed 3 ∷ listed 4 ∷ [] }
    ∷ record { id = 10; details = tt; attachments = listed 1 ∷ listed 2 ∷ [] }
    ∷ []

-- Six bytes in all: the second copy of attachment 1 no longer fits, and attachment 2 does not either.
abbrev after : List (Article Done)
after =
    record {
      id = 9;
      details = tt;
      attachments = with_content 1 (codes "%PDF") ∷ listed 3 ∷ listed 4 ∷ [];
    }
    ∷ record { id = 10; details = tt; attachments = listed 1 ∷ listed 2 ∷ [] }
    ∷ []

enriched : enrich_attachment_content contents 5 true 6 before tt ≡ (ok after, tt)
unfolding enrich_attachment_content fetch_articles fetch_attachments fetch_one content_map
    with_articles with_contents bounded_content content_at
enriched = refl

enrich_attachment_content-InLimits_example : InLimits 5 6 after
enrich_attachment_content-InLimits_example =
    enrich_attachment_content-InLimits contents 5 6 true before after tt tt
      ((refl, (refl, (refl, tt))), ((refl, (refl, tt)), tt)) enriched
