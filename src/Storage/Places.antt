-- ===== src/Storage/Places.antt =====
-- The places `store_ticket_files` uses, and that they differ.
use zammad_ticket_archiver.Base.{
  ℕ, ◌≡◌, ◌≢◌, refl, ap, sym, ◌∙◌, arith, [], ◌∷◌, ◌++◌, length, length-append,
}
use zammad_ticket_archiver.Base.Text.{Text, codes}
use zammad_ticket_archiver.Storage.{FilePath, parent, base_name}
use zammad_ticket_archiver.Storage.Ticket.{StoragePaths, temp_name, attachments_name}

-- `parent` and `name` of a path with one more part.
pub parent-snoc : (dir : FilePath) (name : Text) → parent (dir ++ (name ∷ [])) ≡ dir
parent-snoc [] name = refl
parent-snoc (part ∷ []) name = refl
parent-snoc (part ∷ next ∷ rest) name = ap (λ p. part ∷ p) (parent-snoc (next ∷ rest) name)

pub base_name-snoc : (dir : FilePath) (name : Text) → base_name (dir ++ (name ∷ [])) ≡ name
base_name-snoc [] name = refl
base_name-snoc (part ∷ []) name = refl
base_name-snoc (part ∷ next ∷ rest) name = base_name-snoc (next ∷ rest) name

-- An entry of a directory is none of the entries of a directory beside it.
pub flat≢deep :
    (d : FilePath) (a b c : Text) (rest : FilePath) → d ++ (a ∷ []) ≢ (d ++ (b ∷ [])) ++ (c ∷ rest)
flat≢deep d a b c rest e = omega (
  arith,
  ap length e,
  length-append d (a ∷ []),
  length-append d (b ∷ []),
  length-append (d ++ (b ∷ [])) (c ∷ rest),
)

pub flat≢deeper :
    (d : FilePath) (a b c n : Text) → d ++ (a ∷ []) ≢ ((d ++ (b ∷ [])) ++ (c ∷ [])) ++ (n ∷ [])
flat≢deeper d a b c n e = omega (
  arith,
  ap length e,
  length-append d (a ∷ []),
  length-append d (b ∷ []),
  length-append (d ++ (b ∷ [])) (c ∷ []),
  length-append ((d ++ (b ∷ [])) ++ (c ∷ [])) (n ∷ []),
)

pub snoc≢snoc : (d : FilePath) (a b : Text) → a ≢ b → d ++ (a ∷ []) ≢ d ++ (b ∷ [])
snoc≢snoc d a b ne e = ne (sym (base_name-snoc d a) ∙ (ap base_name e ∙ base_name-snoc d b))

pub beside :
    (d : FilePath) (a b m n : Text)
    → a ≢ b
    → (d ++ (a ∷ [])) ++ (m ∷ []) ≢ (d ++ (b ∷ [])) ++ (n ∷ [])
beside d a b m n ne e =
    snoc≢snoc d a b ne
      (sym (parent-snoc (d ++ (a ∷ [])) m) ∙ (ap parent e ∙ parent-snoc (d ++ (b ∷ [])) n))

append_nil : (d : FilePath) → d ++ [] ≡ d
append_nil [] = refl
append_nil (a ∷ d) = ap (λ p. a ∷ p) (append_nil d)

-- An entry of a directory is outside the tree below another entry.
pub outside :
    (d : FilePath) (a b : Text) (rest : FilePath) → a ≢ b → d ++ (a ∷ []) ≢ (d ++ (b ∷ [])) ++ rest
outside d a b [] ne e = snoc≢snoc d a b ne (e ∙ append_nil (d ++ (b ∷ [])))
outside d a b (c ∷ rest) ne e = flat≢deep d a b c rest e

first : Text → ℕ
first [] = 0
first (c ∷ s) = c

pub temp_name≢attachments_name : (id : ℕ) (suffix : Text) → temp_name id suffix ≢ attachments_name
unfolding first
temp_name≢attachments_name id suffix e = omega (arith, ap first e)

-- The paths that `compute_storage_paths` makes of a file's name; the name is none that a temporary
-- directory of this ticket has.
pub record IsPlaced (paths : StoragePaths) (id : ℕ) : Type 0 where
  pub target : paths.target_path ≡ parent paths.target_path ++ (base_name paths.target_path ∷ [])
  pub sidecar :
      paths.sidecar_path
      ≡ parent paths.target_path ++ ((base_name paths.target_path ++ codes ".json") ∷ [])
  pub not_temp : (suffix : Text) → base_name paths.target_path ≢ temp_name id suffix
  pub sidecar_not_temp :
      (suffix : Text) → base_name paths.target_path ++ codes ".json" ≢ temp_name id suffix

pub sidecar_name :
    (paths : StoragePaths) (id : ℕ)
    → IsPlaced paths id
    → base_name paths.sidecar_path ≡ base_name paths.target_path ++ codes ".json"
sidecar_name paths id placed =
    ap base_name placed.sidecar ∙ base_name-snoc (parent paths.target_path) _

pub name≢json : (name : Text) → name ≢ name ++ codes ".json"
name≢json name e = omega (arith, ap length e, length-append name (codes ".json"))
