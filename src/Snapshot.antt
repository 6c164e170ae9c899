-- ===== src/Snapshot.antt =====
-- The attachments of a snapshot (`enrich_attachment_content` of
-- src/zammad_pdf_archiver/adapters/snapshot/build_snapshot.py, and domain/snapshot_models.py).
pub mod Downloads
pub mod Limits
use zammad_ticket_archiver.Base.{
  ℕ, zero, suc, ◌+◌, Bool, true, false, ◌&&◌, not, Option, none, some, List, [], ◌∷◌, ◌++◌, ltb,
  length, ◌==◌, nat_eq, if◌then◌else◌,
}
use zammad_ticket_archiver.Base.Text.{Text}
use zammad_ticket_archiver.Effect.{Reply, Action, ok, err, cancelled, pure, ◌>>=◌, ◌>>◌, except}
use zammad_ticket_archiver.Storage.{Bytes}

-- `AttachmentMeta`; a negative size, which no limit is compared with, is left out.
pub record AttachmentMeta : Type 0 where
  pub article_id : ℕ
  pub attachment_id : Option ℕ
  pub filename : Option Text
  pub size : Option ℕ
  pub content_type : Option Text
  pub content : Option Bytes

-- `Article`; `Details` are its fields that are copied as they are.
pub record Article (Details : Type 0) : Type 0 where
  pub id : ℕ
  pub details : Details
  pub attachments : List AttachmentMeta

-- What a fetch gives: the ids of the article and of the attachment, and its bytes.
pub record Fetched : Type 0 where
  pub article_id : ℕ
  pub attachment_id : Option ℕ
  pub content : Option Bytes

-- The contents by the ids of article and attachment, the newest first.
abbrev pub Contents : Type 0
Contents = List (ℕ × (ℕ × Bytes))

-- content_map.get((article_id, attachment_id))
unfoldable pub content_at : ℕ → ℕ → Contents → Option Bytes
content_at article attachment [] = none
content_at article attachment ((a, (b, content)) ∷ contents) =
    if (article == a) && (attachment == b)
    then some content
    else content_at article attachment contents

abbrev pub add_found : ℕ → Option ℕ → Option Bytes → Contents → Contents
add_found article none content contents = contents
add_found article (some attachment) none contents = contents
add_found article (some attachment) (some content) contents =
    (article, (attachment, content)) ∷ contents

abbrev pub add_content : Fetched → Contents → Contents
add_content fetched = add_found fetched.article_id fetched.attachment_id fetched.content

-- `_attachment_content_map`, onto `out`
unfoldable pub content_map : Contents → List Fetched → Contents
content_map out [] = out
content_map out (fetched ∷ results) = content_map (add_content fetched out) results

-- The end of `_bounded_content_for_attachment`, for the content that was found.
abbrev pub bounded : Option Bytes → ℕ → ℕ → Option Bytes × ℕ
bounded none total max_total = (none, total)
bounded (some []) total max_total = (none, total)
bounded (some (b ∷ content)) total max_total =
    if ltb max_total (total + length (b ∷ content))
    then (none, total)
    else (some (b ∷ content), total + length (b ∷ content))

abbrev pub found : ℕ → Option ℕ → Contents → Option Bytes
found article none contents = none
found article (some attachment) contents = content_at article attachment contents

-- `_bounded_content_for_attachment`
unfoldable pub bounded_content : ℕ → AttachmentMeta → Contents → ℕ → ℕ → Option Bytes × ℕ
bounded_content article att contents total max_total =
    bounded (found article att.attachment_id contents) total max_total

-- `_copy_attachment`
abbrev pub copy_attachment : AttachmentMeta → Option Bytes → AttachmentMeta
copy_attachment att content = record att { content = content }

module _ (contents : Contents) (max_total : ℕ) where
  -- The inner loop of `_snapshot_with_attachment_content`, from the bytes so far.
  unfoldable pub with_contents : ℕ → ℕ → List AttachmentMeta → List AttachmentMeta × ℕ
  with_contents article total [] = ([], total)
  with_contents article total (att ∷ atts) =
      let (content, total1) = bounded_content article att contents total max_total in
      let (copies, total2) = with_contents article total1 atts in
      (copy_attachment att content ∷ copies, total2)

  -- Its outer loop.
  unfoldable pub with_articles :
      {Details : Type 0} → ℕ → List (Article Details) → List (Article Details)
  with_articles total [] = []
  with_articles total (article ∷ articles) =
      let (copies, total1) = with_contents article.id total article.attachments in
      record article { attachments = copies } ∷ with_articles total1 articles

module _ {R : Type 0} (get_content : ℕ → ℕ → Action R Bytes) (max_per_file : ℕ) where
  -- The content of a download, if it is not too large.
  abbrev pub if_small : Bytes → Option Bytes
  if_small raw = if ltb max_per_file (length raw) then none else some raw

  abbrev pub download : ℕ → ℕ → Action R (Option Bytes)
  download article attachment =
      except (do raw ← get_content article attachment; pure (if_small raw)) (λ e. pure none)

  abbrev pub too_large : Option ℕ → Bool
  too_large none = false
  too_large (some size) = ltb max_per_file size

  abbrev pub fetched_as : ℕ → ℕ → Option Bytes → Fetched
  fetched_as article attachment content = record {
    article_id = article;
    attachment_id = some attachment;
    content = content;
  }

  abbrev pub fetch_small : ℕ → ℕ → Action R Fetched
  fetch_small article attachment = do
    content ← download article attachment
    pure (fetched_as article attachment content)

  -- `_fetch_one`, of the attachment's id and size
  abbrev pub fetch_listed : ℕ → Option ℕ → Option ℕ → Action R Fetched
  fetch_listed article none size =
      pure (record { article_id = article; attachment_id = none; content = none })
  fetch_listed article (some attachment) size =
      if too_large size
      then pure (fetched_as article attachment none)
      else fetch_small article attachment

  unfoldable pub fetch_one : ℕ → AttachmentMeta → Action R Fetched
  fetch_one article att = fetch_listed article att.attachment_id att.size

  -- `_attachment_fetch_targets` and the `asyncio.gather` of the fetches, which gives their results in
  -- the order of the targets; here they run one after another.
  unfoldable pub fetch_attachments : ℕ → List AttachmentMeta → Action R (List Fetched)
  fetch_attachments article [] = pure []
  fetch_attachments article (att ∷ atts) = do
    fetched ← fetch_one article att
    results ← fetch_attachments article atts
    pure (fetched ∷ results)

  unfoldable pub fetch_articles :
      {Details : Type 0} → List (Article Details) → Action R (List Fetched)
  fetch_articles [] = pure []
  fetch_articles (article ∷ articles) = do
    here ← fetch_attachments article.id article.attachments
    results ← fetch_articles articles
    pure (here ++ results)

  -- without a target the snapshot is returned as it is
  abbrev pub enrich_with :
      {Details : Type 0} → ℕ → List (Article Details) → List Fetched → List (Article Details)
  enrich_with max_total articles [] = articles
  enrich_with max_total articles (fetched ∷ results) =
      with_articles (content_map [] (fetched ∷ results)) max_total 0 articles

  -- `enrich_attachment_content`, on the articles of the snapshot
  unfoldable pub enrich_attachment_content :
      {Details : Type 0} → Bool → ℕ → List (Article Details) → Action R (List (Article Details))
  enrich_attachment_content include_binary max_total articles =
      if include_binary && ltb 0 max_total
      then (do results ← fetch_articles articles; pure (enrich_with max_total articles results))
      else pure articles
