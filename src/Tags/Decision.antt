-- ===== src/Tags/Decision.antt =====
-- When a ticket is processed again after each transition, by the tags that Zammad then lists.
use zammad_ticket_archiver.Base.{
  ℕ, ◌≡◌, ◌≢◌, Bool, true, false, List, arith, contains, nat_eq, eq_refl, if◌then◌else◌,
}
use zammad_ticket_archiver.Base.Text.{Text, text_eq, text_beq_iff}
use zammad_ticket_archiver.Effect.{ok}
use zammad_ticket_archiver.Tags.{
  processing_tag, done_tag, error_tag, TicketTagger, apply_processing, apply_done, apply_error,
  should_process,
}
use zammad_ticket_archiver.Tags.Service.{View, IsTagService}
use zammad_ticket_archiver.Tags.Transitions.{
  apply_processing-moved, apply_done-moved, apply_error-failed,
}

-- `tags` is what the ticket carries.
abbrev pub Lists : (Text → Bool) → List Text → Type 0
Lists v tags = (j : Text) → contains tags j ≡ v j

module _ {W : Type 0} (client : TicketTagger W) (view : W → View) (law : IsTagService client view)
    (t : ℕ) (trigger : Text) (w w' : W) (tags : List Text) (listed : Lists (view w' t) tags) where
  -- With tag calls that do what Zammad documents, and the ticket's tags listed as they are, a
  -- ticket on which `apply_done` returned is not processed again, whatever the settings.
  pub should_process-apply_done :
      (require : Bool)
      → apply_done client t trigger w ≡ (ok tt, w')
      → should_process tags trigger require ≡ false
  unfolding should_process
  should_process-apply_done require h = ground (
    arith,
    listed done_tag,
    apply_done-moved client view law t trigger w w' h t done_tag,
    eq_refl t,
    eq_refl done_tag,
  )

  -- With tag calls that do what Zammad documents, and the ticket's tags listed as they are, a
  -- ticket on which `apply_processing` returned is not picked up a second time, if the trigger tag
  -- is required and is not the processing tag.
  pub should_process-apply_processing :
      trigger ≢ processing_tag
      → apply_processing client t trigger w ≡ (ok tt, w')
      → should_process tags trigger true ≡ false
  unfolding should_process
  should_process-apply_processing differs h = ground (
    arith,
    listed trigger,
    apply_processing-moved client view law t trigger w w' h t trigger,
    eq_refl t,
    eq_refl trigger,
    text_beq_iff trigger processing_tag,
  )

  -- With tag calls that do what Zammad documents, and the ticket's tags listed as they are, a
  -- ticket on which `apply_error` returned is processed again exactly if the trigger was kept or
  -- is not required, if the trigger is neither the done nor the error tag.
  pub should_process-apply_error :
      (keep_trigger require : Bool)
      → trigger ≢ done_tag
      → trigger ≢ error_tag
      → apply_error client t trigger keep_trigger w ≡ (ok tt, w')
      → should_process tags trigger require ≡ (if require then keep_trigger else true)
  unfolding should_process
  should_process-apply_error keep require not_done not_error h = ground (
    arith,
    listed trigger,
    listed done_tag,
    apply_error-failed client view law t trigger w w' keep h t trigger,
    apply_error-failed client view law t trigger w w' keep h t done_tag,
    eq_refl t,
    eq_refl trigger,
    eq_refl done_tag,
    text_beq_iff trigger error_tag,
    text_beq_iff done_tag trigger,
    text_beq_iff done_tag error_tag,
  )
