-- ===== src/Queue/Codec.antt =====
-- What a message says is what was enqueued.
use zammad_ticket_archiver.Base.{ℕ, ◌≡◌, Option, none, some, [], ◌∷◌, arith, take, lookup, insert}
use zammad_ticket_archiver.Base.Text.{Text, text_eq, text_beq, strip, show_nat}
use zammad_ticket_archiver.Effect.{ok}
use zammad_ticket_archiver.Settings.{WorkflowSettings}
use zammad_ticket_archiver.TicketId.{dict, Fields}
use zammad_ticket_archiver.Queue.{Streams, nonempty, or_blank, job_fields, decode_envelope}

module _ {R : Type 0} (streams : Streams R) (settings : WorkflowSettings) where
  -- Decoding the fields that `enqueue_ticket_job` writes gives the job back: its payload, attempt
  -- and earliest time, its delivery id without surrounding white space, and the first 500
  -- characters of its last error, stripped; if Python reads back the JSON, the attempt and the time
  -- that it wrote.
  pub decode_envelope-job_fields :
      (message_id : Text) (delivery_id : Option Text) (payload : Fields) (attempt not_before : ℕ)
      (last_error : Option Text) (now : ℕ)
      → streams.loads (streams.dumps payload) ≡ ok (dict payload)
      → streams.parse_int (show_nat attempt) ≡ some attempt
      → streams.parse_time (streams.show_time not_before) ≡ some not_before
      → decode_envelope streams settings (
        message_id,
        job_fields streams settings delivery_id payload attempt not_before last_error now,
      )
        ≡ ok (record {
          message_id = message_id;
          payload = payload;
          delivery_id = nonempty (strip (or_blank delivery_id));
          attempt = attempt;
          not_before = not_before;
          last_error = nonempty (strip (take 500 (or_blank last_error)));
        })
  unfolding decode_envelope job_fields lookup insert text_beq
  decode_envelope-job_fields message_id delivery_id payload attempt not_before none now l p t =
      ground (arith, l, p, t)
  decode_envelope-job_fields message_id delivery_id payload attempt not_before (some []) now l p t =
      ground (arith, l, p, t)
  decode_envelope-job_fields message_id delivery_id payload attempt not_before (some (c ∷ s)) now l
        p t =
      ground (arith, l, p, t)
