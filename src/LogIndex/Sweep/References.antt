-- ===== src/LogIndex/Sweep/References.antt =====
-- What reaches a blob, apart from how the sweep finds it.
use mathlib.Core.Option.{some-injective}
use claude_agent_wrap.Prelude.{
  ℕ, ◌≡◌, refl, sym, ap, subst, ◌∙◌, inl, inr, Option, none, some, List, [], ◌∷◌, ◌++◌, In,
  In-split, In-append_left, In-append_right, Option-cases, Text,
}
use claude_agent_wrap.LogIndex.Codec.{unpack_ids}
use claude_agent_wrap.LogIndex.Pointers.{find_pointers}
use claude_agent_wrap.LogIndex.Sweep.{
  Blob, RequestRow, Database, Runtime, text_of, to_list, row_refs, referenced_blob_ids,
}

-- A request names an id in its message vector or in one of its three blob columns.
pub data Names (r : RequestRow) (i : ℕ) : Type 0 where
  message : (ids : List ℕ) → unpack_ids r.message_refs ≡ some ids → In i ids → Names r i
  system : r.system_blob ≡ some i → Names r i
  tools : r.tools_blob ≡ some i → Names r i
  response : r.response_blob ≡ some i → Names r i

-- A blob is reached from a request that names it, from a request whose error text points at it, or
-- from the text of a blob that is reached.
pub data Reachable (rt : Runtime) (db : Database) : Blob → Type 0 where
  by_request : (b : Blob) (r : RequestRow) → In r db.requests → Names r b.id → Reachable rt db b
  by_error :
      (b : Blob) (r : RequestRow) (t : Text)
      → In r db.requests
      → r.error ≡ some t
      → In b.sha256 (find_pointers t)
      → Reachable rt db b
  by_text :
      (b d : Blob) (t : Text)
      → In b db.blobs
      → Reachable rt db b
      → text_of rt b ≡ some t
      → In d.sha256 (find_pointers t)
      → Reachable rt db d

In-to_list : {A : Type 0} (a : A) (o : Option A) → o ≡ some a → In a (to_list o)
In-to_list a none h = cc
In-to_list a (some x) h = inl (sym (some-injective x a h))

to_list-In : {A : Type 0} (a : A) (o : Option A) → In a (to_list o) → o ≡ some a
to_list-In a none h = absurd h
to_list-In a (some x) (inl e) = ap some (sym e)
to_list-In a (some x) (inr h) = absurd h

abbrev columns : RequestRow → List ℕ
columns r = to_list r.system_blob ++ (to_list r.tools_blob ++ to_list r.response_blob)

row_refs-some :
    (r : RequestRow) (refs : List ℕ)
    → row_refs r ≡ some refs
    → (ids : List ℕ) × (unpack_ids r.message_refs ≡ some ids) × (ids ++ columns r ≡ refs)
unfolding row_refs
row_refs-some r refs h = elim (Option-cases (unpack_ids r.message_refs)) [
  | inl bad ↦ absurd (cc (rw (bad, row_refs) at h))
  | inr (ids, e) ↦ (ids, e, some-injective (ids ++ columns r) refs (rw (e, row_refs) at h))
]

Names-ids :
    (r : RequestRow) (ids : List ℕ) (i : ℕ)
    → unpack_ids r.message_refs ≡ some ids
    → Names r i
    → In i (ids ++ columns r)
Names-ids r ids i e (message js f m) =
    In-append_left i ids (columns r) (subst (In i) (some-injective js ids (sym f ∙ e)) m)
Names-ids r ids i e (system f) =
    In-append_right i ids (columns r) (In-append_left i _ _ (In-to_list i r.system_blob f))
Names-ids r ids i e (tools f) = In-append_right i ids (columns r) (
    In-append_right i (to_list r.system_blob) _
      (In-append_left i _ _ (In-to_list i r.tools_blob f)))
Names-ids r ids i e (response f) = In-append_right i ids (columns r) (
    In-append_right i (to_list r.system_blob) _
      (In-append_right i (to_list r.tools_blob) _ (In-to_list i r.response_blob f)))

ids-Names :
    (r : RequestRow) (ids : List ℕ) (i : ℕ)
    → unpack_ids r.message_refs ≡ some ids
    → In i (ids ++ columns r)
    → Names r i
ids-Names r ids i e m = elim (In-split i ids (columns r) m) [
  | inl x ↦ message ids e x
  | inr x ↦ elim (In-split i (to_list r.system_blob) _ x) [
    | inl y ↦ system (to_list-In i r.system_blob y)
    | inr y ↦ elim (In-split i (to_list r.tools_blob) (to_list r.response_blob) y) [
      | inl z ↦ tools (to_list-In i r.tools_blob z)
      | inr z ↦ response (to_list-In i r.response_blob z)
    ]
  ]
]

referenced-cons :
    (r : RequestRow) (rs : List RequestRow) (refs : List ℕ)
    → referenced_blob_ids (r ∷ rs) ≡ some refs
    → (ids rest : List ℕ) × (unpack_ids r.message_refs ≡ some ids)
      × (referenced_blob_ids rs ≡ some rest)
      × ((ids ++ columns r) ++ rest ≡ refs)
unfolding referenced_blob_ids
referenced-cons r rs refs h = elim (Option-cases (row_refs r)) [
  | inl bad ↦ absurd (cc (rw (bad, referenced_blob_ids) at h))
  | inr (row, e) ↦ elim (Option-cases (referenced_blob_ids rs)) [
    | inl bad ↦ absurd (cc (rw (e, bad, referenced_blob_ids) at h))
    | inr (rest, f) ↦
        let (ids, u, g) = row_refs-some r row e in
        (
          ids,
          rest,
          u,
          f,
          ap (λ x. x ++ rest) g
              ∙ some-injective (row ++ rest) refs (rw (e, f, referenced_blob_ids) at h),
        )
  ]
]

-- The ids that are collected are those that a request names.
pub Names-referenced :
    (rs : List RequestRow) (refs : List ℕ) (r : RequestRow) (i : ℕ)
    → referenced_blob_ids rs ≡ some refs
    → In r rs
    → Names r i
    → In i refs
Names-referenced [] refs r i h m n = absurd m
Names-referenced (q ∷ rs) refs r i h m n =
    let (ids, rest, u, f, g) = referenced-cons q rs refs h in
    subst (In i) g (elim m [
      | inl e ↦
          In-append_left i (ids ++ columns q) rest
            (Names-ids q ids i u (subst (λ x. Names x i) e n))
      | inr m' ↦ In-append_right i (ids ++ columns q) rest (Names-referenced rs rest r i f m' n)
    ])

pub referenced-Names :
    (rs : List RequestRow) (refs : List ℕ) (i : ℕ)
    → referenced_blob_ids rs ≡ some refs
    → In i refs
    → (r : RequestRow) × In r rs × Names r i
unfolding referenced_blob_ids
referenced-Names [] refs i h m = absurd (subst (In i) (sym (some-injective [] refs h)) m)
referenced-Names (q ∷ rs) refs i h m =
    let (ids, rest, u, f, g) = referenced-cons q rs refs h in
    elim (In-split i (ids ++ columns q) rest (subst (In i) (sym g) m)) [
      | inl x ↦ (q, inl refl, ids-Names q ids i u x)
      | inr x ↦ let (r, m', n) = referenced-Names rs rest i f x in (r, inr m', n)
    ]
