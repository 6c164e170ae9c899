-- ===== src/Tests/Ingests.antt =====
-- An example of a batch of webhooks: a dispatcher that lists the jobs.
use mathlib.Core.Path.{◌≡◌, refl}
use zammad_ticket_archiver.Base.Text.{text_beq}
use zammad_ticket_archiver.Base.{ℕ, false, some, List, [], ◌∷◌, ◌++◌}
use zammad_ticket_archiver.Base.Text.{codes}
use zammad_ticket_archiver.Effect.{ok}
use zammad_ticket_archiver.TicketId.{
  Fields, end, field, int, extract_ticket_id, get, coerce_ticket_id,
}
use zammad_ticket_archiver.Ingest.{accepted_count, Dispatcher, IngestRequest, batch_ingest}
use zammad_ticket_archiver.Ingest.Batch.{Job, IsLogged, AreJobsOf, batch_ingest-logged}
use zammad_ticket_archiver.Tests.{memory_settings, digits}

abbrev listing : Dispatcher (List Job)
listing = record {
  enqueue = λ delivery_id payload w. (ok tt, w ++ ((delivery_id, payload) ∷ []));
  spawn = λ delivery_id payload w. (ok tt, w ++ ((delivery_id, payload) ∷ []));
  is_shutting_down = λ w. false;
}

listing-IsLogged : IsLogged listing (λ w. w)
listing-IsLogged = record {
  enqueued = λ delivery_id payload w. (w ++ ((delivery_id, payload) ∷ []), refl, refl);
  spawned = λ delivery_id payload w. (w ++ ((delivery_id, payload) ∷ []), refl, refl);
}

abbrev posted : IngestRequest
posted = record {
  settings = some memory_settings;
  request_id = some (codes "r1");
  delivery_header = some (codes "d1");
}

abbrev of_ticket : ℕ → Fields
of_ticket n = field (codes "ticket_id") (int n) end

names_7 : extract_ticket_id digits (of_ticket 7) ≡ ok (some 7)
unfolding extract_ticket_id coerce_ticket_id get text_beq
names_7 = refl

names_8 : extract_ticket_id digits (of_ticket 8) ≡ ok (some 8)
unfolding extract_ticket_id coerce_ticket_id get text_beq
names_8 = refl

batch_ingest-logged_example :
    (y : List Job) × (batch_ingest listing digits posted (of_ticket 7 ∷ of_ticket 8 ∷ []) false []
      ≡ (ok (accepted_count 2), y))
    × (jobs : List Job) × (y ≡ [] ++ jobs)
    × AreJobsOf posted.request_id (of_ticket 7 ∷ of_ticket 8 ∷ []) jobs
batch_ingest-logged_example =
    batch_ingest-logged listing digits (λ w. w) listing-IsLogged posted memory_settings
      (of_ticket 7 ∷ of_ticket 8 ∷ []) [] refl refl ((7, names_7), ((8, names_8), tt))
