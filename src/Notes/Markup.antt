-- ===== src/Notes/Markup.antt =====
-- What a text can put into the markup of a note.
use zammad_ticket_archiver.Base.{
  ℕ, ◌+◌, ◌≡◌, refl, sym, ◌∙◌, arith, Option, List, [], ◌∷◌, ◌++◌, ◌==◌, nat_eq, if◌then◌else◌,
}
use zammad_ticket_archiver.Base.Text.{Text, codes, or_text}
use zammad_ticket_archiver.Queue.{or_blank}
use zammad_ticket_archiver.Notes.{
  escape_one, escape, list_item, joined, note, escape_or, item_if, error_note_html,
}

-- How often the character `c` stands in a text.
unfoldable pub count_of : ℕ → Text → ℕ
count_of c [] = 0
count_of c (d ∷ s) = let rest = count_of c s in if d == c then rest + 1 else rest

count_of-append : (c : ℕ) (s t : Text) → count_of c (s ++ t) ≡ count_of c s + count_of c t
unfolding count_of
count_of-append c [] t = omega arith
count_of-append c (d ∷ s) t = ground (arith, count_of-append c s t)

escape_one-plain : (c : ℕ) → count_of b'<' (escape_one c) ≡ 0
unfolding count_of escape_one
escape_one-plain c = ground arith

-- An escaped text opens no tag.
escape-plain : (s : Text) → count_of b'<' (escape s) ≡ 0
unfolding escape count_of
escape-plain [] = refl
escape-plain (c ∷ s) =
    omega
      (arith, count_of-append b'<' (escape_one c) (escape s), escape_one-plain c, escape-plain s)

list_item-tags :
    (label text : Text)
    → count_of b'<' (list_item label text) ≡ (count_of b'<' label + count_of b'<' text) + 4
unfolding count_of
list_item-tags label text = omega (
  arith,
  count_of-append b'<' (codes "<li>")
      (label ++ (codes ": <code>" ++ (text ++ codes "</code></li>"))),
  count_of-append b'<' label (codes ": <code>" ++ (text ++ codes "</code></li>")),
  count_of-append b'<' (codes ": <code>") (text ++ codes "</code></li>"),
  count_of-append b'<' text (codes "</code></li>"),
)

-- The tags of a note, up to what its title and its version have.
note-tags :
    (title version : Text) (items : List Text)
    → count_of b'<' (note title version items)
      ≡ (count_of b'<' title + count_of b'<' version) + (count_of b'<' (joined items) + 6)
unfolding count_of
note-tags title version items =
    let end_of = codes "<ul>" ++ (joined items ++ codes "</ul>") in
    omega (
      arith,
      count_of-append b'<' (codes "<p><strong>")
          (title ++ (codes " (" ++ (version ++ (codes ")</strong></p>" ++ end_of)))),
      count_of-append b'<' title (codes " (" ++ (version ++ (codes ")</strong></p>" ++ end_of))),
      count_of-append b'<' (codes " (") (version ++ (codes ")</strong></p>" ++ end_of)),
      count_of-append b'<' version (codes ")</strong></p>" ++ end_of),
      count_of-append b'<' (codes ")</strong></p>") end_of,
      count_of-append b'<' (codes "<ul>") (joined items ++ codes "</ul>"),
      count_of-append b'<' (joined items) (codes "</ul>"),
    )

escaped_item-tags :
    (label text : Text) → count_of b'<' (list_item label (escape text)) ≡ count_of b'<' label + 4
escaped_item-tags label text = omega (arith, list_item-tags label (escape text), escape-plain text)

-- Items in the same order with as many tags each.
abbrev SameTags : List Text → List Text → Type 0
SameTags [] [] = Unit
SameTags (s ∷ ss) (t ∷ ts) = (count_of b'<' s ≡ count_of b'<' t) × SameTags ss ts
SameTags _ _ = ⊥

joined-SameTags :
    (ss ts : List Text) → SameTags ss ts → count_of b'<' (joined ss) ≡ count_of b'<' (joined ts)
joined-SameTags [] [] same = refl
joined-SameTags [] (t ∷ ts) same = absurd same
joined-SameTags (s ∷ ss) [] same = absurd same
joined-SameTags (s ∷ ss) (t ∷ ts) (one, same) = omega (
  arith,
  one,
  joined-SameTags ss ts same,
  count_of-append b'<' s (joined ss),
  count_of-append b'<' t (joined ts),
)

SameTags-append :
    (prefix ss ts : List Text) → SameTags ss ts → SameTags (prefix ++ ss) (prefix ++ ts)
SameTags-append [] ss ts same = same
SameTags-append (p ∷ prefix) ss ts same = (refl, SameTags-append prefix ss ts same)

-- two escaped texts in the same item
swapped :
    (label s t : Text)
    → count_of b'<' (list_item label (escape s)) ≡ count_of b'<' (list_item label (escape t))
swapped label s t = escaped_item-tags label s ∙ sym (escaped_item-tags label t)

-- The note of an error has as many signs `<`, whatever the classification, the message, the action, the
-- request id and the delivery id are: none of them opens a tag in the note.
pub error_note_html-tags :
    (version timestamp_utc code hint : Text) (classification text action : Text)
    (request_id delivery_id : Option Text) (classification' text' action' : Text)
    (request_id' delivery_id' : Option Text)
    → count_of b'<' (
        error_note_html version classification text action request_id delivery_id timestamp_utc code
          hint)
      ≡ count_of b'<' (
          error_note_html version classification' text' action' request_id' delivery_id'
            timestamp_utc code hint)
unfolding error_note_html
error_note_html-tags version timestamp_utc code hint classification text action request_id
      delivery_id classification' text' action' request_id' delivery_id' =
    omega (
      arith,
      note-tags (codes "PDF archiver error") version items,
      note-tags (codes "PDF archiver error") version items',
      joined-SameTags items items' same,
    )
  where
    ends : Option Text → Option Text → List Text
    ends request delivery =
        list_item (codes "request_id") (escape_or request (codes "unknown"))
        ∷ list_item (codes "delivery_id") (escape_or delivery (codes "none"))
        ∷ list_item (codes "time_utc") timestamp_utc
        ∷ []

    all_items : Text → Text → Text → Option Text → Option Text → List Text
    all_items a b c request delivery =
        list_item (codes "classification") (escape a)
        ∷ list_item (codes "error") (escape b)
        ∷ list_item (codes "action") (escape c)
        ∷ (item_if (codes "code") (escape code)
            ++ (item_if (codes "hint") (escape hint) ++ ends request delivery))

    items : List Text
    items = all_items classification text action request_id delivery_id

    items' : List Text
    items' = all_items classification' text' action' request_id' delivery_id'

    ends_same : SameTags (ends request_id delivery_id) (ends request_id' delivery_id')
    ends_same = (
      swapped (codes "request_id") (or_text (or_blank request_id) (codes "unknown"))
          (or_text (or_blank request_id') (codes "unknown")),
      (
        swapped (codes "delivery_id") (or_text (or_blank delivery_id) (codes "none"))
            (or_text (or_blank delivery_id') (codes "none")),
        (refl, tt),
      ),
    )

    same : SameTags items items'
    same = (
      swapped (codes "classification") classification classification',
      (
        swapped (codes "error") text text',
        (
          swapped (codes "action") action action',
          SameTags-append (item_if (codes "code") (escape code))
              (item_if (codes "hint") (escape hint) ++ ends request_id delivery_id)
              (item_if (codes "hint") (escape hint) ++ ends request_id' delivery_id')
              (SameTags-append (item_if (codes "hint") (escape hint)) (ends request_id delivery_id)
                (ends request_id' delivery_id') ends_same),
        ),
      ),
    )
