-- ===== src/Process/Archive.antt =====
-- What a finished pipeline has done.
use zammad_ticket_archiver.Base.{
  ℕ, ◌≡◌, inl, inr, true, false, Option, some, List, arith, Bool-cases,
}
use zammad_ticket_archiver.Base.Text.{Text}
use zammad_ticket_archiver.Effect.{Action, ok, >>=-eq-ok, >>-eq-ok}
use zammad_ticket_archiver.Settings.{WorkflowSettings}
use zammad_ticket_archiver.Tags.{should_process, apply_processing}
use zammad_ticket_archiver.Tags.Service.{View}
use zammad_ticket_archiver.Stores.{World, remotely}
use zammad_ticket_archiver.TicketId.{Fields}
use zammad_ticket_archiver.Process.Services.{
  skipped_not_triggered, ProcessTicketResult, HistoryEvent, Services,
}
use zammad_ticket_archiver.Process.Pipeline.{
  plain_event, record_history, skip, finish, store_rendered, render_to, place, archive,
  skip_not_triggered, archive_or_skip, list_then, run_ticket_pipeline,
}

module _ {R Ticket Paths Rendered Stored : Type 0}
    (services : Services R Ticket Paths Rendered Stored) (settings : WorkflowSettings) (t : ℕ)
    (trigger : Text) (payload : Fields) (delivery_id request_id : Option Text) where
  -- Every step up to the storage has run and returned, one after the other, from the world `x`.
  pub record WasArchived (x : R) : Type 0 where
    pub ticket : Ticket
    pub tags : List Text
    pub paths : Paths
    pub rendered : Rendered
    pub stored : Stored
    pub after_get : R
    pub after_list : R
    pub after_tags : R
    pub after_paths : R
    pub after_render : R
    pub after_store : R
    pub got : services.get_ticket t x ≡ (ok ticket, after_get)
    pub listed : services.list_tags t after_get ≡ (ok tags, after_list)
    pub triggered : should_process tags trigger settings.require_tag ≡ true
    pub started : apply_processing services.tagger t trigger after_list ≡ (ok tt, after_tags)
    pub placed : services.compute_paths ticket payload after_tags ≡ (ok paths, after_paths)
    pub drawn :
        services.build_and_render_pdf ticket tags t after_paths ≡ (ok rendered, after_render)
    pub kept : services.store_ticket_files rendered paths after_render ≡ (ok stored, after_store)

  remotely-eq-ok :
      {A : Type 0} (m : Action R A) (w w' : World R) (a : A)
      → remotely m w ≡ (ok a, w')
      → m w.remote ≡ (ok a, w'.remote)
  remotely-eq-ok m w w' a h = λ i. ((h i).0, (h i).1.remote)

  skip-ne-true :
      (w w' : World R) (result : ProcessTicketResult)
      → skip_not_triggered services settings t trigger payload delivery_id request_id w
        ≡ (ok (result, true), w')
      → ⊥
  unfolding skip record_history
  skip-ne-true w w' result h = ground arith

  archived :
      (ticket : Ticket) (tags : List Text) (w w1 w2 w' : World R) (result : ProcessTicketResult)
      → services.get_ticket t w.remote ≡ (ok ticket, w1.remote)
      → services.list_tags t w1.remote ≡ (ok tags, w2.remote)
      → should_process tags trigger settings.require_tag ≡ true
      → archive services settings t trigger payload delivery_id request_id ticket tags w2
        ≡ (ok (result, true), w')
      → WasArchived w.remote
  unfolding archive
  archived ticket tags w w1 w2 w' result got listed triggered h =
      let (_, w3, started, h3) =
        >>-eq-ok (remotely (apply_processing services.tagger t trigger))
          (place services settings t trigger payload delivery_id request_id ticket tags) w2 w' _
          h in
      let (paths, w4, placed, h4) =
        >>=-eq-ok (remotely (services.compute_paths ticket payload))
          (render_to services settings t trigger payload delivery_id request_id ticket tags) w3 w' _
          h3 in
      let (rendered, w5, drawn, h5) =
        >>=-eq-ok (remotely (services.build_and_render_pdf ticket tags t))
          (store_rendered services settings t trigger payload delivery_id request_id paths) w4 w' _
          h4 in
      let (stored, w6, kept, _) =
        >>=-eq-ok (remotely (services.store_ticket_files rendered paths))
          (finish services settings t trigger payload delivery_id request_id) w5 w' _ h5 in
      record {
        ticket = ticket;
        tags = tags;
        paths = paths;
        rendered = rendered;
        stored = stored;
        after_get = w1.remote;
        after_list = w2.remote;
        after_tags = w3.remote;
        after_paths = w4.remote;
        after_render = w5.remote;
        after_store = w6.remote;
        got = got;
        listed = listed;
        triggered = triggered;
        started = remotely-eq-ok (apply_processing services.tagger t trigger) w2 w3 tt started;
        placed = remotely-eq-ok (services.compute_paths ticket payload) w3 w4 paths placed;
        drawn = remotely-eq-ok (services.build_and_render_pdf ticket tags t) w4 w5 rendered drawn;
        kept = remotely-eq-ok (services.store_ticket_files rendered paths) w5 w6 stored kept;
      }

  -- A pipeline that returns with its time observed has fetched the ticket, found that it is to be
  -- processed, set the processing tag, computed the paths, rendered the document and stored the
  -- files, each with success and in this order.
  pub run_ticket_pipeline-WasArchived :
      (w w' : World R) (result : ProcessTicketResult)
      → run_ticket_pipeline services settings t trigger payload delivery_id request_id w
        ≡ (ok (result, true), w')
      → WasArchived w.remote
  unfolding run_ticket_pipeline archive
  run_ticket_pipeline-WasArchived w w' result h =
      let S = list_then services settings t trigger payload delivery_id request_id in
      let (ticket, w1, got, h1) = >>=-eq-ok (remotely (services.get_ticket t)) S w w' _ h in
      let (tags, w2, listed, h2) =
        >>=-eq-ok (remotely (services.list_tags t))
          (archive_or_skip services settings t trigger payload delivery_id request_id ticket) w1 w'
          _ h1 in
      elim (Bool-cases (should_process tags trigger settings.require_tag)) [
        | inl triggered ↦
            archived ticket tags w w1 w2 w' result
              (remotely-eq-ok (services.get_ticket t) w w1 ticket got)
              (remotely-eq-ok (services.list_tags t) w1 w2 tags listed) triggered
              (rw triggered at h2)
        | inr idle ↦ absurd (skip-ne-true w2 w' result (rw idle at h2))
      ]

  module _ (view : R → View)
      (history_keeps : (event : HistoryEvent) (x : R) (v : ℕ) (j : Text)
        → view (services.record_history_event event x).1 v j ≡ view x v j) where
    view-skip :
        (w : World R) (v : ℕ) (j : Text)
        → view
            (skip_not_triggered services settings t trigger payload delivery_id request_id
              w).1.remote
            v
            j
          ≡ view w.remote v j
    unfolding skip record_history
    view-skip w v j = ground (
      arith,
      history_keeps (plain_event skipped_not_triggered (some t) delivery_id request_id) w.remote v
          j,
    )

    -- A ticket whose listed tags say that it is not to be processed keeps all its tags, and those
    -- of every other ticket stay too, if fetching, listing and recording history change no tags.
    pub view-run_ticket_pipeline_idle :
        (w : World R) (ticket : Ticket) (tags : List Text) (x1 x2 : R)
        → services.get_ticket t w.remote ≡ (ok ticket, x1)
        → services.list_tags t x1 ≡ (ok tags, x2)
        → should_process tags trigger settings.require_tag ≡ false
        → ((v : ℕ) (j : Text) → view x2 v j ≡ view w.remote v j)
        → (v : ℕ) (j : Text)
        → view
            (run_ticket_pipeline services settings t trigger payload delivery_id request_id
              w).1.remote
            v
            j
          ≡ view w.remote v j
    unfolding run_ticket_pipeline
    view-run_ticket_pipeline_idle w ticket tags x1 x2 got listed idle same v j =
        ground (arith, view-skip (record w { remote = x2 }) v j, same v j)
