-- ===== src/Process/Outcome.antt =====
-- What the error handling replies, and the tags that it leaves.
use mathlib.Core.Path.{fun_ext}
use zammad_ticket_archiver.Base.{
  ℕ, ◌≡◌, ◌≢◌, refl, ap, sym, ◌∙◌, ◌⊎◌, inl, inr, Bool, true, false, Option, some, take, List,
  arith, nat_eq, eq_refl, if◌then◌else◌,
}
use zammad_ticket_archiver.Base.Text.{Text, strip, text_eq, text_beq_iff}
use zammad_ticket_archiver.Errors.{Exc, described, DomainError}
use zammad_ticket_archiver.Errors.Classify.{classify}
use zammad_ticket_archiver.Effect.{ok, cancelled, ◌>>◌, >>-eq-ok, Returns, Returns-seq}
use zammad_ticket_archiver.Settings.{WorkflowSettings}
use zammad_ticket_archiver.Tags.{processing_tag, done_tag, error_tag, should_process, apply_error}
use zammad_ticket_archiver.Tags.Service.{View, without_tag, IsTagService}
use zammad_ticket_archiver.Tags.Transitions.{failed, apply_error-failed}
use zammad_ticket_archiver.Tags.Decision.{Lists}
use zammad_ticket_archiver.Stores.{World, count, failed_total}
use zammad_ticket_archiver.Process.Services.{
  failed_transient, failed_permanent, transient_label, permanent_label, ProcessTicketResult,
  HistoryEvent, Services,
}
use zammad_ticket_archiver.Process.Pipeline.{record_history}
use zammad_ticket_archiver.Process.Failure.{
  is_transient, classification_label, concise_exc_message, apply_error_with_retry, post_error_note,
  apply_error_and_cleanup_processing_tag, failed_result, failure_event, conclude_failure,
  handle_ticket_pipeline_exception,
}

module _ {R Ticket Paths Rendered Stored : Type 0}
    (services : Services R Ticket Paths Rendered Stored) (settings : WorkflowSettings) (t : ℕ)
    (trigger : Text) (delivery_id request_id : Option Text) where
  failure_replies :
      (e : Exc) (w : World R)
      → ((handle_ticket_pipeline_exception services settings t trigger delivery_id request_id e w).0
          ≡ ok (failed_result services settings t trigger delivery_id request_id e (classify e)))
        ⊎ ((handle_ticket_pipeline_exception services settings t trigger delivery_id request_id e
              w).0
            ≡ cancelled)
  unfolding handle_ticket_pipeline_exception post_error_note record_history
      apply_error_and_cleanup_processing_tag apply_error_with_retry
  failure_replies e w = ground arith

  -- What the result of a failed ticket says: its status and its classification by whether the first
  -- error is transient, the ticket, and the first 500 characters of the error's text, scrubbed.
  pub record IsFailureOf (e : Exc) (result : ProcessTicketResult) : Type 0 where
    pub status_is :
        result.status ≡ (if is_transient (classify e) then failed_transient else failed_permanent)
    pub ticket_is : result.ticket_id ≡ some t
    pub label_is :
        result.classification
        ≡ some (if is_transient (classify e) then transient_label else permanent_label)
    pub message_is : result.message ≡ take 500 (services.scrub (strip (described e)))

  failed_result-IsFailureOf :
      (e : Exc)
      → IsFailureOf e
          (failed_result services settings t trigger delivery_id request_id e (classify e))
  unfolding concise_exc_message classification_label
  failed_result-IsFailureOf e = record {
    status_is = ground arith;
    ticket_is = refl;
    label_is = ground arith;
    message_is = refl;
  }

  -- Whatever the calls of the error handling reply, it returns a result or is cancelled, and never
  -- raises. The result is of the ticket, is a transient failure exactly if the first error is
  -- classified as transient and else a permanent one, with the same label, and carries the first 500
  -- characters of that error's text, stripped and scrubbed.
  pub handle_replies :
      (e : Exc) (w : World R)
      → ((result : ProcessTicketResult) × ((handle_ticket_pipeline_exception services settings t
              trigger delivery_id request_id e w).0
            ≡ ok result)
          × IsFailureOf e result)
        ⊎ ((handle_ticket_pipeline_exception services settings t trigger delivery_id request_id e
              w).0
            ≡ cancelled)
  handle_replies e w = elim (failure_replies e w) [
    | inl returned ↦ inl (
      failed_result services settings t trigger delivery_id request_id e (classify e),
      returned,
      failed_result-IsFailureOf e,
    )
    | inr stopped ↦ inr stopped
  ]

  module _ (view : R → View) (law : IsTagService services.tagger view)
      -- Zammad answers each tag call with success, and only those calls change tags.
      (adds : (u : ℕ) (tag : Text) (x : R) → (services.tagger.add_tag u tag x).0 ≡ ok tt)
      (removes : (u : ℕ) (tag : Text) (x : R) → (services.tagger.remove_tag u tag x).0 ≡ ok tt)
      (article_keeps : (u : ℕ) (body : Text) (x : R) (v : ℕ) (j : Text)
        → view (services.create_internal_article u body x).1 v j ≡ view x v j)
      (history_keeps : (event : HistoryEvent) (x : R) (v : ℕ) (j : Text)
        → view (services.record_history_event event x).1 v j ≡ view x v j) where
    remove_tag-Returns : (tag : Text) → Returns (services.tagger.remove_tag t tag)
    remove_tag-Returns tag = record { at = removes t tag }

    add_tag-Returns : (tag : Text) → Returns (services.tagger.add_tag t tag)
    add_tag-Returns tag = record { at = adds t tag }

    set_trigger-Returns :
        (keep : Bool)
        → Returns (
            if keep
            then services.tagger.add_tag t trigger
            else services.tagger.remove_tag t trigger)
    set_trigger-Returns true = record { at = adds t trigger }
    set_trigger-Returns false = record { at = removes t trigger }

    apply_error-Returns : (keep : Bool) → Returns (apply_error services.tagger t trigger keep)
    unfolding apply_error
    apply_error-Returns keep = Returns-seq _ _ (remove_tag-Returns processing_tag) (
        Returns-seq _ _ (remove_tag-Returns done_tag)
          (Returns-seq _ _ (set_trigger-Returns keep) (add_tag-Returns error_tag)))

    -- the tags once the error handling has set its own
    abbrev pub settled : Bool → View → View
    settled keep v = without_tag t processing_tag (failed t trigger keep v)

    view-cleanup :
        (d : DomainError) (w : World R) (v : ℕ) (j : Text)
        → view
            (apply_error_and_cleanup_processing_tag services settings t trigger delivery_id
              request_id d w).1.remote
            v
            j
          ≡ settled (is_transient d) (view w.remote) v j
    unfolding apply_error_and_cleanup_processing_tag apply_error_with_retry
    view-cleanup d w v j =
        let keep = is_transient d in
        let x' = (apply_error services.tagger t trigger keep w.remote).1 in
        let ran : apply_error services.tagger t trigger keep w.remote ≡ (ok tt, x') =
          λ i. ((apply_error-Returns keep).at w.remote i, x') in
        let removed : services.tagger.remove_tag t processing_tag x'
            ≡ (ok tt, (services.tagger.remove_tag t processing_tag x').1) =
          λ i.
            (removes t processing_tag x' i, (services.tagger.remove_tag t processing_tag x').1) in
        ground (
          arith,
          (apply_error-Returns keep).at w.remote,
          removes t processing_tag x',
          apply_error-failed services.tagger view law t trigger w.remote x' keep ran v j,
          law.remove_done t processing_tag x' (services.tagger.remove_tag t processing_tag x').1
              removed v j,
        )

    view-post_error_note :
        (e : Exc) (d : DomainError) (w : World R) (v : ℕ) (j : Text)
        → view
            (post_error_note services settings t trigger delivery_id request_id e d w).1.remote
            v
            j
          ≡ view w.remote v j
    unfolding post_error_note
    view-post_error_note e d w v j =
        ground
          (arith, article_keeps t (services.error_note e d request_id delivery_id) w.remote v j)

    view-conclude_failure :
        (e : Exc) (w : World R) (v : ℕ) (j : Text)
        → view
            (conclude_failure services settings t trigger delivery_id request_id e w).1.remote
            v
            j
          ≡ view w.remote v j
    unfolding record_history
    view-conclude_failure e w v j = ground (
      arith,
      history_keeps (failure_event services settings t trigger delivery_id request_id e) w.remote v
          j,
    )

    -- If Zammad answers each tag call with success and does what it documents, and notes and
    -- history change no tags, an error handling that returns leaves the ticket with the error tag,
    -- the trigger tag exactly if the error is transient, and neither the processing nor the done
    -- tag (where these four differ); all other tags are as they were.
    pub view-handle_ticket_pipeline_exception :
        (e : Exc) (w w' : World R) (result : ProcessTicketResult)
        → handle_ticket_pipeline_exception services settings t trigger delivery_id request_id e w
          ≡ (ok result, w')
        → (v : ℕ) (j : Text)
        → view w'.remote v j ≡ settled (is_transient (classify e)) (view w.remote) v j
    unfolding handle_ticket_pipeline_exception
    view-handle_ticket_pipeline_exception e w w' result h v j =
        let w0 : World R = record w { local = count failed_total w.local } in
        let note =
          post_error_note services settings t trigger delivery_id request_id e (classify e) in
        let clean =
          apply_error_and_cleanup_processing_tag services settings t trigger delivery_id request_id
            (classify e) in
        let last = conclude_failure services settings t trigger delivery_id request_id e in
        let (_, w1, noted, rest) = >>-eq-ok note (clean >> last) w0 w' result h in
        let (_, w2, cleaned, rest') = >>-eq-ok clean last w1 w' result rest in
        let s1 : view w1.remote ≡ view w.remote = fun_ext λ v. fun_ext λ j.
          ap (λ p. view p.1.remote v j) (sym noted) ∙ view-post_error_note e (classify e) w0 v j in
        ap (λ p. view p.1.remote v j) (sym rest')
        ∙ (view-conclude_failure e w2 v j
            ∙ (ap (λ p. view p.1.remote v j) (sym cleaned)
                ∙ (view-cleanup (classify e) w1 v j
                    ∙ ap (λ s. settled (is_transient (classify e)) s v j) s1)))

    -- If Zammad answers each tag call with success and does what it documents, notes and history
    -- change no tags, and the trigger is none of the workflow's own three tags, a ticket whose
    -- failure was handled is, by its tags, processed again exactly if the error is transient or
    -- the trigger tag is not required.
    pub should_process_after_failure :
        (e : Exc) (w w' : World R) (result : ProcessTicketResult) (tags : List Text)
        (require : Bool)
        → handle_ticket_pipeline_exception services settings t trigger delivery_id request_id e w
          ≡ (ok result, w')
        → Lists (view w'.remote t) tags
        → trigger ≢ done_tag
        → trigger ≢ error_tag
        → trigger ≢ processing_tag
        → should_process tags trigger require
          ≡ (if require then is_transient (classify e) else true)
    unfolding should_process
    should_process_after_failure e w w' result tags require h listed not_done not_error
          not_processing =
        ground (
          arith,
          listed trigger,
          listed done_tag,
          view-handle_ticket_pipeline_exception e w w' result h t trigger,
          view-handle_ticket_pipeline_exception e w w' result h t done_tag,
          eq_refl t,
          eq_refl trigger,
          eq_refl done_tag,
          text_beq_iff trigger error_tag,
          text_beq_iff trigger processing_tag,
          text_beq_iff done_tag trigger,
          text_beq_iff done_tag error_tag,
          text_beq_iff done_tag processing_tag,
        )
