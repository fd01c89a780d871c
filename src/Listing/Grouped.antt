-- ===== src/Listing/Grouped.antt =====
-- On `rows_by_hash` of agent_wrap/domain/logs/listing.py.
use mathlib.Core.List.{append_assoc, append-nil}
use claude_agent_wrap.Prelude.{
  ◌≡◌, refl, sym, ap, ◌∙◌, Bool, List, [], ◌∷◌, ◌++◌, keep, if◌then◌else◌, Bool-cases, inl, inr,
  Text, text_beq, text_beq_iff, text_eq,
}
use claude_agent_wrap.Prelude.Dict.{Dict, get, or_else, update, get-update}
use claude_agent_wrap.Listing.Sessions.{SessionRow, group_rows, rows_by_hash}

abbrev owned_by : Text → SessionRow → Bool
owned_by hash r = text_beq r.key.project_hash hash

-- The rows of a project so far.
abbrev rows_of : Text → Dict Text (List SessionRow) → List SessionRow
rows_of hash grouped = or_else (get hash grouped) []

rows_of-update :
    (hash : Text) (r : SessionRow) (grouped : Dict Text (List SessionRow))
    → rows_of hash (update r.key.project_hash [] (λ old. old ++ (r ∷ [])) grouped)
      ≡ (if owned_by hash r then rows_of hash grouped ++ (r ∷ []) else rows_of hash grouped)
rows_of-update hash r grouped = elim (Bool-cases (owned_by hash r)) [
  | inl same ↦
      let e : r.key.project_hash ≡ hash = (text_beq_iff r.key.project_hash hash).0 same in
      rw (get-update r.key.project_hash hash [] (λ old. old ++ (r ∷ [])) grouped, same)
        (ap (λ h. rows_of h grouped ++ (r ∷ [])) e)
  | inr other ↦
      rw (get-update r.key.project_hash hash [] (λ old. old ++ (r ∷ [])) grouped, other) refl
]

group_rows-keep :
    (hash : Text) (rows : List SessionRow) (grouped : Dict Text (List SessionRow))
    → rows_of hash (group_rows rows grouped) ≡ rows_of hash grouped ++ keep (owned_by hash) rows
unfolding group_rows
group_rows-keep hash [] grouped = sym (append-nil (rows_of hash grouped))
group_rows-keep hash (r ∷ rows) grouped =
    group_rows-keep hash rows (update r.key.project_hash [] (λ old. old ++ (r ∷ [])) grouped)
    ∙ elim (Bool-cases (owned_by hash r)) [
      | inl same ↦
          rw (rows_of-update hash r grouped, same)
            (append_assoc (rows_of hash grouped) (r ∷ []) (keep (owned_by hash) rows))
      | inr other ↦ rw (rows_of-update hash r grouped, other) refl
    ]

-- The rows that a project hash is given are those that carry it, in the order of the whole list.
pub rows_by_hash_owned :
    (rows : List SessionRow) (hash : Text)
    → or_else (get hash (rows_by_hash rows)) [] ≡ keep (λ r. text_beq r.key.project_hash hash) rows
unfolding rows_by_hash get
rows_by_hash_owned rows hash = group_rows-keep hash rows []
