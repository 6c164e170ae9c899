-- ===== src/Snapshot/Downloads.antt =====
-- No download is kept that is larger than the limit for a file.
use mathlib.Core.Path.{subst}
use zammad_ticket_archiver.Base.{
  ℕ, ◌≤◌, ◌≡◌, ap, arith, Bool-cases, inl, inr, Option, none, some, List, [], ◌∷◌, ◌++◌, length,
  All, All-append, nat_eq,
}
use zammad_ticket_archiver.Effect.{
  Reply, Action, ok, err, cancelled, pure, ◌>>=◌, except, >>=-eq-ok,
}
use zammad_ticket_archiver.Storage.{Bytes}
use zammad_ticket_archiver.Snapshot.{
  AttachmentMeta, Article, Fetched, if_small, download, too_large, fetched_as, fetch_small,
  fetch_listed, fetch_one, fetch_attachments, fetch_articles,
}

abbrev pub size_of : Option Bytes → ℕ
size_of none = 0
size_of (some content) = length content

-- No content that was fetched is larger than `n`.
abbrev pub SmallFetched : ℕ → List Fetched → Type 0
SmallFetched n = All (λ fetched. size_of fetched.content ≤ n)

module _ {R : Type 0} (get_content : ℕ → ℕ → Action R Bytes) (n : ℕ) where
  if_small_up_to : (raw : Bytes) → size_of (if_small get_content n raw) ≤ n
  if_small_up_to raw = ground arith

  download_small :
      (article attachment : ℕ) (content : Option Bytes) (x y : R)
      → download get_content n article attachment x ≡ (ok content, y)
      → size_of content ≤ n
  download_small article attachment content x y h =
      replied (get_content article attachment x).0 (get_content article attachment x).1 h
    where
      replied :
          (r : Reply Bytes) (x1 : R)
          → except (do raw ← (λ _. (r, x1)); pure (if_small get_content n raw)) (λ e. pure none) x
            ≡ (ok content, y)
          → size_of content ≤ n
      replied (ok raw) x1 h =
          let is : if_small get_content n raw ≡ content = cc in
          omega (arith, ap size_of is, if_small_up_to raw)
      replied (err e) x1 h = let is : none ≡ content = cc in omega (arith, ap size_of is)
      replied cancelled x1 h = absurd cc

  fetch_small_up_to :
      (article attachment : ℕ) (fetched : Fetched) (x y : R)
      → fetch_small get_content n article attachment x ≡ (ok fetched, y)
      → size_of fetched.content ≤ n
  fetch_small_up_to article attachment fetched x y h =
      let (content, z, e1, e2) =
        >>=-eq-ok (download get_content n article attachment)
          (λ content. pure (fetched_as get_content n article attachment content)) x y fetched h in
      let is : content ≡ fetched.content = cc in
      omega (arith, ap size_of is, download_small article attachment content x z e1)

  fetch_listed_small :
      (article : ℕ) (id size : Option ℕ) (fetched : Fetched) (x y : R)
      → fetch_listed get_content n article id size x ≡ (ok fetched, y)
      → size_of fetched.content ≤ n
  fetch_listed_small article none size fetched x y h =
      let is : none ≡ fetched.content = cc in omega (arith, ap size_of is)
  fetch_listed_small article (some attachment) size fetched x y h =
      elim (Bool-cases (too_large get_content n size)) [
        | inl large ↦
            let skipped : Path (Reply Fetched × R)
                (ok (fetched_as get_content n article attachment none), x) (ok fetched, y) =
              ground (arith, h, large) in
            let is : none ≡ fetched.content = cc in omega (arith, ap size_of is)
        | inr small ↦
            let tried : fetch_small get_content n article attachment x ≡ (ok fetched, y) =
              ground (arith, h, small) in
            fetch_small_up_to article attachment fetched x y tried
      ]

  fetch_attachments_small :
      (article : ℕ) (atts : List AttachmentMeta) (results : List Fetched) (x y : R)
      → fetch_attachments get_content n article atts x ≡ (ok results, y)
      → SmallFetched n results
  unfolding fetch_attachments fetch_one
  fetch_attachments_small article [] results x y h =
      let is : [] ≡ results = cc in subst (SmallFetched n) is tt
  fetch_attachments_small article (att ∷ atts) results x y h =
      let rest = fetch_attachments get_content n article atts in
      let (fetched, x1, e1, h1) =
        >>=-eq-ok (fetch_one get_content n article att)
          (λ fetched. rest >>= λ results. pure (fetched ∷ results)) x y results h in
      let (others, x2, e2, h2) =
        >>=-eq-ok rest (λ results. pure (fetched ∷ results)) x1 y results h1 in
      let is : fetched ∷ others ≡ results = cc in
      subst (SmallFetched n) is (
        fetch_listed_small article att.attachment_id att.size fetched x x1 e1,
        fetch_attachments_small article atts others x1 x2 e2,
      )

  pub fetch_articles_small :
      {Details : Type 0} (articles : List (Article Details)) (results : List Fetched) (x y : R)
      → fetch_articles get_content n articles x ≡ (ok results, y)
      → SmallFetched n results
  unfolding fetch_articles
  fetch_articles_small [] results x y h = let is : [] ≡ results = cc in subst (SmallFetched n) is tt
  fetch_articles_small (article ∷ articles) results x y h =
      let rest = fetch_articles get_content n articles in
      let (here, x1, e1, h1) =
        >>=-eq-ok (fetch_attachments get_content n article.id article.attachments)
          (λ here. rest >>= λ results. pure (here ++ results)) x y results h in
      let (others, x2, e2, h2) =
        >>=-eq-ok rest (λ results. pure (here ++ results)) x1 y results h1 in
      let is : here ++ others ≡ results = cc in
      subst (SmallFetched n) is (
        All-append (λ fetched. size_of fetched.content ≤ n) here others
          (fetch_attachments_small article.id article.attachments here x x1 e1)
          (fetch_articles_small articles others x1 x2 e2))
