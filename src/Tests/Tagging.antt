-- ===== src/Tests/Tagging.antt =====
-- Examples of the tags' transitions and of the decision that they lead to.
use zammad_ticket_archiver.Base.{
  ℕ, ◌≡◌, ◌≢◌, refl, ap, sym, ◌∙◌, true, arith, nat_eq, contains-add, contains-discard,
}
use zammad_ticket_archiver.Base.Text.{Text, text_eq, text_beq_iff}
use zammad_ticket_archiver.Effect.{ok}
use zammad_ticket_archiver.Tags.{
  processing_tag, done_tag, error_tag, apply_processing, apply_done, apply_error,
}
use zammad_ticket_archiver.Tags.Service.{
  Tables, with_tag, without_tag, IsTagService, memory_tagger, memory_view,
}
use zammad_ticket_archiver.Tests.{trigger, one_triggered}

add_reads :
    (t : ℕ) (tag : Text) (w : Tables) (u : ℕ) (j : Text)
    → memory_view (memory_tagger.add_tag t tag w).1 u j ≡ with_tag t tag (memory_view w) u j
add_reads t tag w u j =
    ground (arith, contains-add tag j (w u), text_beq_iff tag j, text_beq_iff j tag)

remove_reads :
    (t : ℕ) (tag : Text) (w : Tables) (u : ℕ) (j : Text)
    → memory_view (memory_tagger.remove_tag t tag w).1 u j ≡ without_tag t tag (memory_view w) u j
remove_reads t tag w u j =
    ground (arith, contains-discard tag j (w u), text_beq_iff tag j, text_beq_iff j tag)

-- The tag service of the examples meets what the theorems ask of Zammad.
pub memory-IsTagService : IsTagService memory_tagger memory_view
memory-IsTagService = record {
  add_done =
      λ t tag w w' h u j. ap (λ x. memory_view x u j) (sym (λ i. (h i).1)) ∙ add_reads t tag w u j;
  remove_done = λ t tag w w' h u j.
      ap (λ x. memory_view x u j) (sym (λ i. (h i).1)) ∙ remove_reads t tag w u j;
  add_else = λ t tag w u j h. ground (arith, add_reads t tag w u j);
  remove_else = λ t tag w u j h. ground (arith, remove_reads t tag w u j);
}

abbrev started : Tables
started = (apply_processing memory_tagger 7 trigger one_triggered).1

abbrev archived : Tables
archived = (apply_done memory_tagger 7 trigger one_triggered).1

abbrev broken : Tables
broken = (apply_error memory_tagger 7 trigger true one_triggered).1

starts : apply_processing memory_tagger 7 trigger one_triggered ≡ (ok tt, started)
unfolding apply_processing
starts = refl

archives : apply_done memory_tagger 7 trigger one_triggered ≡ (ok tt, archived)
unfolding apply_done
archives = refl

breaks : apply_error memory_tagger 7 trigger true one_triggered ≡ (ok tt, broken)
unfolding apply_error
breaks = refl

pub trigger_ne_processing : trigger ≢ processing_tag
trigger_ne_processing h = ground (arith, h)

pub trigger_ne_done : trigger ≢ done_tag
trigger_ne_done h = ground (arith, h)

pub trigger_ne_error : trigger ≢ error_tag
trigger_ne_error h = ground (arith, h)
