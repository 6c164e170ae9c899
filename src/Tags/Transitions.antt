-- ===== src/Tags/Transitions.antt =====
-- What each transition leaves on the ticket, whatever tags it had before.
use mathlib.Core.Path.{fun_ext}
use zammad_ticket_archiver.Base.{
  ℕ, ◌≡◌, ap, ◌∙◌, Bool, true, false, ◌||◌, arith, ◌==◌, nat_eq, if◌then◌else◌,
}
use zammad_ticket_archiver.Base.Text.{Text, text_eq}
use zammad_ticket_archiver.Effect.{Action, Done, ok, ◌>>◌, >>-eq-ok}
use zammad_ticket_archiver.Tags.{
  processing_tag, done_tag, error_tag, TicketTagger, apply_processing, apply_done, apply_error,
}
use zammad_ticket_archiver.Tags.Service.{View, with_tag, without_tag, IsTagService}

-- One tag is set, the other three of the workflow are cleared, all else is as it was.
abbrev pub moved : ℕ → Text → Text → Text → Text → View → View
moved t set a b c v u j =
    if u == t
    then (if j == set then true else if j == a || (j == b || j == c) then false else v u j)
    else v u j

-- The error tag is set and the trigger is set or cleared.
abbrev pub failed : ℕ → Text → Bool → View → View
failed t trigger keep v u j =
    if u == t
    then (if j == error_tag
        then true
        else if j == trigger
        then keep
        else if j == processing_tag || j == done_tag
        then false
        else v u j)
    else v u j

module _ {W : Type 0} (view : W → View) where
  -- `m`, where it returns, changes the tags by `f`.
  pub record Turns (m : Action W Done) (f : View → View) : Type 0 where
    pub at : (w w' : W) → m w ≡ (ok tt, w') → view w' ≡ f (view w)

  Turns-seq :
      (m k : Action W Done) (f g : View → View)
      → Turns m f
      → Turns k g
      → Turns (m >> k) (λ v. g (f v))
  Turns-seq m k f g tm tk = record {
    at = λ w w' h.
        let (_, w1, first, rest) = >>-eq-ok m k w w' tt h in
        tk.at w1 w' rest ∙ ap g (tm.at w w1 first);
  }

module _ {W : Type 0} (client : TicketTagger W) (view : W → View) (law : IsTagService client view)
    (t : ℕ) where
  add_tag-Turns : (tag : Text) → Turns view (client.add_tag t tag) (with_tag t tag)
  add_tag-Turns tag = record {
    at = λ w w' h. fun_ext λ u. fun_ext λ j. law.add_done t tag w w' h u j;
  }

  remove_tag-Turns : (tag : Text) → Turns view (client.remove_tag t tag) (without_tag t tag)
  remove_tag-Turns tag = record {
    at = λ w w' h. fun_ext λ u. fun_ext λ j. law.remove_done t tag w w' h u j;
  }

  -- the third call of `apply_error`
  set_trigger-Turns :
      (tag : Text) (keep : Bool)
      → Turns view
          (if keep then client.add_tag t tag else client.remove_tag t tag)
          (if keep then with_tag t tag else without_tag t tag)
  set_trigger-Turns tag true = add_tag-Turns tag
  set_trigger-Turns tag false = remove_tag-Turns tag

  remove_three-Turns :
      (a b c d : Text)
      → Turns view
          (do
            client.remove_tag t a
            client.remove_tag t b
            client.remove_tag t c
            client.add_tag t d)
          (λ v. with_tag t d (without_tag t c (without_tag t b (without_tag t a v))))
  remove_three-Turns a b c d = Turns-seq view _ _ _ _ (remove_tag-Turns a) (
      Turns-seq view _ _ _ _ (remove_tag-Turns b)
        (Turns-seq view _ _ _ _ (remove_tag-Turns c) (add_tag-Turns d)))

  failed_reads :
      (trigger : Text) (v : View) (keep : Bool) (u : ℕ) (j : Text)
      → with_tag t error_tag
          ((if keep then with_tag t trigger else without_tag t trigger)
            (without_tag t done_tag (without_tag t processing_tag v)))
          u
          j
        ≡ failed t trigger keep v u j
  failed_reads trigger v true u j = ground arith
  failed_reads trigger v false u j = ground arith

  module _ (trigger : Text) (w w' : W) where
    -- With tag calls that do what Zammad documents, an `apply_processing` that returns leaves the
    -- processing tag set and the done, error and trigger tags cleared (the processing tag stays
    -- set if it is the trigger); every other tag of the ticket, and every other ticket, keeps what
    -- it had.
    pub apply_processing-moved :
        apply_processing client t trigger w ≡ (ok tt, w')
        → (u : ℕ) (j : Text)
        → view w' u j ≡ moved t processing_tag done_tag error_tag trigger (view w) u j
    unfolding apply_processing
    apply_processing-moved h u j =
        ap (λ v. v u j) ((remove_three-Turns done_tag error_tag trigger processing_tag).at w w' h)
        ∙ ground arith

    -- With tag calls that do what Zammad documents, an `apply_done` that returns leaves the done
    -- tag set and the processing, error and trigger tags cleared (the done tag stays set if it is
    -- the trigger); every other tag of the ticket, and every other ticket, keeps what it had.
    pub apply_done-moved :
        apply_done client t trigger w ≡ (ok tt, w')
        → (u : ℕ) (j : Text)
        → view w' u j ≡ moved t done_tag processing_tag error_tag trigger (view w) u j
    unfolding apply_done
    apply_done-moved h u j =
        ap (λ v. v u j) ((remove_three-Turns processing_tag error_tag trigger done_tag).at w w' h)
        ∙ ground arith

    -- With tag calls that do what Zammad documents, an `apply_error` that returns leaves the error
    -- tag set, the trigger tag set or cleared as `keep_trigger` says (unless it is the error tag),
    -- and the processing and done tags cleared where they are not the trigger; every other tag of
    -- the ticket, and every other ticket, keeps what it had.
    pub apply_error-failed :
        (keep_trigger : Bool)
        → apply_error client t trigger keep_trigger w ≡ (ok tt, w')
        → (u : ℕ) (j : Text) → view w' u j ≡ failed t trigger keep_trigger (view w) u j
    unfolding apply_error
    apply_error-failed keep h u j =
        ap (λ v. v u j)
          ((Turns-seq view _ _ _ _ (remove_tag-Turns processing_tag) (
              Turns-seq view _ _ _ _ (remove_tag-Turns done_tag) (
                Turns-seq view _ _ _ _ (set_trigger-Turns trigger keep)
                  (add_tag-Turns error_tag)))).at
            w w' h)
        ∙ failed_reads trigger (view w) keep u j
