-- ===== src/Snapshot/Limits.antt =====
-- The limits on the contents that a snapshot takes up.
use mathlib.Core.Path.{subst}
use zammad_ticket_archiver.Base.{
  ℕ, ◌+◌, ◌≤◌, ◌≡◌, refl, ap, arith, Bool, Bool-cases, inl, inr, ◌&&◌, Option, none, some, List, [],
  ◌∷◌, ltb, length, All, nat_eq,
}
use zammad_ticket_archiver.Effect.{Action, ok, pure, >>=-eq-ok}
use zammad_ticket_archiver.Storage.{Bytes}
use zammad_ticket_archiver.Snapshot.Downloads.{size_of, SmallFetched, fetch_articles_small}
use zammad_ticket_archiver.Snapshot.{
  AttachmentMeta, Article, Fetched, Contents, content_at, add_found, add_content, content_map,
  bounded, found, bounded_content, with_contents, with_articles, fetch_articles, enrich_with,
  enrich_attachment_content,
}

abbrev pub total_of : List AttachmentMeta → ℕ
total_of [] = 0
total_of (att ∷ atts) = size_of att.content + total_of atts

-- The bytes of the contents in the articles.
unfoldable pub total_contents : {Details : Type 0} → List (Article Details) → ℕ
total_contents [] = 0
total_contents (article ∷ articles) = total_of article.attachments + total_contents articles

-- No content is larger than `n`.
abbrev pub EachUpTo : {Details : Type 0} → ℕ → List (Article Details) → Type 0
EachUpTo n = All (λ article. All (λ att. size_of att.content ≤ n) article.attachments)

-- what is found in the map
abbrev SmallContents : ℕ → Contents → Type 0
SmallContents n = All (λ entry. length entry.1.1 ≤ n)

bounded-total :
    (content : Option Bytes) (total max_total : ℕ)
    → total ≤ max_total
    → ((bounded content total max_total).1 ≡ total + size_of (bounded content total max_total).0)
      × ((bounded content total max_total).1 ≤ max_total)
      × (size_of (bounded content total max_total).0 ≤ size_of content)
bounded-total none total max_total few = (omega arith, few, omega arith)
bounded-total (some []) total max_total few = (omega arith, few, omega arith)
bounded-total (some (b ∷ content)) total max_total few = (ground arith, ground arith, ground arith)

content_at_small :
    (n article attachment : ℕ) (contents : Contents)
    → SmallContents n contents
    → size_of (content_at article attachment contents) ≤ n
unfolding content_at
content_at_small n article attachment [] small = omega arith
content_at_small n article attachment ((a, (b, content)) ∷ contents) (one, small) =
    ground (arith, one, content_at_small n article attachment contents small)

found_small :
    (n article : ℕ) (id : Option ℕ) (contents : Contents)
    → SmallContents n contents
    → size_of (found article id contents) ≤ n
found_small n article none contents small = omega arith
found_small n article (some attachment) contents small =
    content_at_small n article attachment contents small

module _ (contents : Contents) (max_total n : ℕ) (small : SmallContents n contents) where
  with_contents_bounded :
      (article total : ℕ) (atts : List AttachmentMeta)
      → total ≤ max_total
      → let p = with_contents contents max_total article total atts in
        (p.1 ≡ total + total_of p.0) × (p.1 ≤ max_total) × All (λ att. size_of att.content ≤ n) p.0
  unfolding with_contents bounded_content
  with_contents_bounded article total [] few = (omega arith, few, tt)
  with_contents_bounded article total (att ∷ atts) few =
      let content = found article att.attachment_id contents in
      let (sum, fits, smaller) = bounded-total content total max_total few in
      let (sums, fit, each) =
        with_contents_bounded article (bounded content total max_total).1 atts fits in
      (
        omega (arith, sum, sums),
        fit,
        (omega (arith, smaller, found_small n article att.attachment_id contents small), each),
      )

  with_articles_bounded :
      {Details : Type 0} (total : ℕ) (articles : List (Article Details))
      → total ≤ max_total
      → (total + total_contents (with_articles contents max_total total articles) ≤ max_total)
        × EachUpTo n (with_articles contents max_total total articles)
  unfolding with_articles total_contents
  with_articles_bounded total [] few = (omega arith, tt)
  with_articles_bounded total (article ∷ articles) few =
      let (sum, fits, each) = with_contents_bounded article.id total article.attachments few in
      let (sums, all) =
        with_articles_bounded
          (with_contents contents max_total article.id total article.attachments).1 articles fits in
      (omega (arith, sum, sums), (each, all))

add_found_small :
    (n article : ℕ) (id : Option ℕ) (content : Option Bytes) (contents : Contents)
    → size_of content ≤ n
    → SmallContents n contents
    → SmallContents n (add_found article id content contents)
add_found_small n article none content contents few small = small
add_found_small n article (some attachment) none contents few small = small
add_found_small n article (some attachment) (some content) contents few small = (few, small)

content_map_small :
    (n : ℕ) (out : Contents) (results : List Fetched)
    → SmallFetched n results
    → SmallContents n out
    → SmallContents n (content_map out results)
unfolding content_map
content_map_small n out [] few small = small
content_map_small n out (fetched ∷ results) (one, few) small =
    content_map_small n (add_content fetched out) results few
      (add_found_small n fetched.article_id fetched.attachment_id fetched.content out one small)

-- No attachment has a content yet.
abbrev pub NoContents : {Details : Type 0} → List (Article Details) → Type 0
NoContents = All (λ article. All (λ att. att.content ≡ none) article.attachments)

no_total : (atts : List AttachmentMeta) → All (λ att. att.content ≡ none) atts → total_of atts ≡ 0
no_total [] none_here = refl
no_total (att ∷ atts) (one, none_here) = omega (arith, ap size_of one, no_total atts none_here)

no_total_contents :
    {Details : Type 0} (articles : List (Article Details))
    → NoContents articles
    → total_contents articles ≡ 0
unfolding total_contents
no_total_contents [] none_here = refl
no_total_contents (article ∷ articles) (one, none_here) =
    omega (arith, no_total article.attachments one, no_total_contents articles none_here)

none_small :
    (n : ℕ) (atts : List AttachmentMeta)
    → All (λ att. att.content ≡ none) atts
    → All (λ att. size_of att.content ≤ n) atts
none_small n [] none_here = tt
none_small n (att ∷ atts) (one, none_here) =
    (omega (arith, ap size_of one), none_small n atts none_here)

none_up_to :
    {Details : Type 0} (n : ℕ) (articles : List (Article Details))
    → NoContents articles
    → EachUpTo n articles
none_up_to n [] none_here = tt
none_up_to n (article ∷ articles) (one, none_here) =
    (none_small n article.attachments one, none_up_to n articles none_here)

-- The two limits.
abbrev pub InLimits : {Details : Type 0} → ℕ → ℕ → List (Article Details) → Type 0
InLimits max_per_file max_total articles =
    (total_contents articles ≤ max_total) × EachUpTo max_per_file articles

unchanged_InLimits :
    {Details : Type 0} (n max_total : ℕ) (articles : List (Article Details))
    → NoContents articles
    → InLimits n max_total articles
unchanged_InLimits n max_total articles none_here =
    (omega (arith, no_total_contents articles none_here), none_up_to n articles none_here)

enrich_with-InLimits :
    {R Details : Type 0} (get_content : ℕ → ℕ → Action R Bytes) (n max_total : ℕ)
    (articles : List (Article Details)) (results : List Fetched)
    → NoContents articles
    → SmallFetched n results
    → InLimits n max_total (enrich_with get_content n max_total articles results)
enrich_with-InLimits get_content n max_total articles [] none_here small =
    unchanged_InLimits n max_total articles none_here
enrich_with-InLimits get_content n max_total articles (fetched ∷ results) none_here small =
    let contents = content_map [] (fetched ∷ results) in
    let (total, each) =
      with_articles_bounded contents max_total n
        (content_map_small n [] (fetched ∷ results) small tt) 0 articles (omega arith) in
    (omega (arith, total), each)

-- A snapshot without contents is enriched with at most `max_total` bytes in all and at most
-- `max_per_file` bytes for each attachment, whatever sizes Zammad states and whichever downloads fail.
pub enrich_attachment_content-InLimits :
    {R Details : Type 0} (get_content : ℕ → ℕ → Action R Bytes) (max_per_file max_total : ℕ)
    (include_binary : Bool) (articles enriched : List (Article Details)) (x y : R)
    → NoContents articles
    → enrich_attachment_content get_content max_per_file include_binary max_total articles x
      ≡ (ok enriched, y)
    → InLimits max_per_file max_total enriched
unfolding enrich_attachment_content
enrich_attachment_content-InLimits get_content max_per_file max_total include_binary articles
      enriched x y none_here h =
    elim (Bool-cases (include_binary && ltb 0 max_total)) [
      | inl enabled ↦
          let (results, x1, e1, e2) =
            >>=-eq-ok (fetch_articles get_content max_per_file articles)
              (λ results. pure (enrich_with get_content max_per_file max_total articles results)) x
              y enriched (ground (arith, h, enabled)) in
          let is : enrich_with get_content max_per_file max_total articles results ≡ enriched =
            cc in
          subst (InLimits max_per_file max_total) is (
            enrich_with-InLimits get_content max_per_file max_total articles results none_here
              (fetch_articles_small get_content max_per_file articles results x x1 e1))
      | inr disabled ↦
          let is : articles ≡ enriched = ground (arith, h, disabled) in
          subst (InLimits max_per_file max_total) is
            (unchanged_InLimits max_per_file max_total articles none_here)
    ]
