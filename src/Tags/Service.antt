-- ===== src/Tags/Service.antt =====
-- What the state machine relies on of Zammad's tag calls, and a service in memory that meets it.
use zammad_ticket_archiver.Base.{
  ℕ, ◌≡◌, Bool, true, false, ◌&&◌, List, ◌==◌, nat_eq, contains, add, discard, if◌then◌else◌,
}
use zammad_ticket_archiver.Base.Text.{Text, text_eq}
use zammad_ticket_archiver.Effect.{ok}
use zammad_ticket_archiver.Tags.{TicketTagger}

-- The tags that each ticket carries, by ticket and tag.
abbrev pub View : Type 0
View = ℕ → Text → Bool

abbrev pub with_tag : ℕ → Text → View → View
with_tag t tag v u j = if u == t && j == tag then true else v u j

abbrev pub without_tag : ℕ → Text → View → View
without_tag t tag v u j = if u == t && j == tag then false else v u j

-- Zammad's documented `/tags/add` and `/tags/remove`: a call that succeeds sets or clears that tag
-- of that ticket, and whatever a call replies it touches no other tag or ticket.
pub record IsTagService {W : Type 0} (client : TicketTagger W) (view : W → View) : Type 0 where
  pub add_done :
      (t : ℕ) (tag : Text) (w w' : W)
      → client.add_tag t tag w ≡ (ok tt, w')
      → (u : ℕ) (j : Text) → view w' u j ≡ with_tag t tag (view w) u j
  pub remove_done :
      (t : ℕ) (tag : Text) (w w' : W)
      → client.remove_tag t tag w ≡ (ok tt, w')
      → (u : ℕ) (j : Text) → view w' u j ≡ without_tag t tag (view w) u j
  pub add_else :
      (t : ℕ) (tag : Text) (w : W) (u : ℕ) (j : Text)
      → (u == t && j == tag) ≡ false
      → view (client.add_tag t tag w).1 u j ≡ view w u j
  pub remove_else :
      (t : ℕ) (tag : Text) (w : W) (u : ℕ) (j : Text)
      → (u == t && j == tag) ≡ false
      → view (client.remove_tag t tag w).1 u j ≡ view w u j

-- A service whose calls all succeed; its world is the tags of each ticket.
abbrev pub Tables : Type 0
Tables = ℕ → List Text

abbrev change : ℕ → (List Text → List Text) → Tables → Tables
change t f w u = if u == t then f (w u) else w u

abbrev pub memory_tagger : TicketTagger Tables
memory_tagger = record {
  add_tag = λ t tag w. (ok tt, change t (add tag) w);
  remove_tag = λ t tag w. (ok tt, change t (discard tag) w);
}

abbrev pub memory_view : Tables → View
memory_view w u j = contains (w u) j
