-- ===== src/Listing/Counted.antt =====
-- On `merge_sessions` of agent_wrap/domain/logs/listing.py: the records of rows and sessions.
use claude_agent_wrap.Prelude.{
  ℕ, ◌+◌, ◌≡◌, refl, Bool, none, some, List, [], ◌∷◌, arith, eqb, sum_by, Bool-cases, Option-cases,
  inl, inr, text_eq, HasEq, ◌==◌,
}
use claude_agent_wrap.Prelude.Dict.{Dict, get, put, values}
use claude_agent_wrap.Prelude.Floats.{Floats}
use claude_agent_wrap.Listing.Sessions.{
  SessionRow, insert_by, sort_by, key_lt, Merged, first_meta, join_meta, merge_row, merge_rows,
  merge_sessions,
}

sum_by-insert_by :
    {A : Type 0} (f : A → ℕ) (before : A → A → Bool) (x : A) (ys : List A)
    → sum_by f (insert_by before x ys) ≡ f x + sum_by f ys
unfolding insert_by
sum_by-insert_by f before x [] = refl
sum_by-insert_by f before x (y ∷ ys) = elim (Bool-cases (before y x)) [
  | inl later ↦ rw later (omega (arith, sum_by-insert_by f before x ys))
  | inr here ↦ rw here refl
]

sum_by-sort_by :
    {A : Type 0} (f : A → ℕ) (before : A → A → Bool) (xs : List A)
    → sum_by f (sort_by before xs) ≡ sum_by f xs
unfolding sort_by
sum_by-sort_by f before [] = refl
sum_by-sort_by f before (x ∷ xs) =
    omega (arith, sum_by-insert_by f before x (sort_by before xs), sum_by-sort_by f before xs)

module _ {K V : Type 0} ⦃e : HasEq K⦄ (g : V → ℕ) where
  sum_by-put_new :
      (k : K) (v : V) (m : Dict K V)
      → get k m ≡ none
      → sum_by g (values (put k v m)) ≡ sum_by g (values m) + g v
  unfolding get put
  sum_by-put_new k v [] h = omega arith
  sum_by-put_new k v ((j, w) ∷ m) h = elim (Bool-cases (j == k)) [
    | inl same ↦ absurd (cc (rw (same, get) at h))
    | inr other ↦ rw other (omega (arith, sum_by-put_new k v m (rw (other, get) at h)))
  ]

  sum_by-put_old :
      (k : K) (v w : V) (m : Dict K V)
      → get k m ≡ some w
      → sum_by g (values (put k v m)) + g w ≡ sum_by g (values m) + g v
  unfolding get put
  sum_by-put_old k v w [] h = cc
  sum_by-put_old k v w ((j, x) ∷ m) h = elim (Bool-cases (j == k)) [
    | inl same ↦ let q : x ≡ w = cc (rw (same, get) at h) in rw (same, q) (omega arith)
    | inr other ↦ rw other (omega (arith, sum_by-put_old k v w m (rw (other, get) at h)))
  ]

module _ (fl : Floats) where
  abbrev records_of : Merged fl → ℕ
  records_of merged = sum_by (λ meta. meta.count) (values merged)

  merge_row-records :
      (row : SessionRow) (merged : Merged fl)
      → records_of (merge_row fl row merged) ≡ records_of merged + row.record_count
  unfolding merge_row first_meta join_meta
  merge_row-records row merged = elim (Option-cases (get row.key.claude_session_id merged)) [
    | inl e ↦
        rw (e, merge_row)
          (sum_by-put_new (λ meta. meta.count) row.key.claude_session_id (first_meta fl row) merged
            e)
    | inr (old, e) ↦
        rw (e, merge_row)
          (omega (
            arith,
            sum_by-put_old (λ meta. meta.count) row.key.claude_session_id (join_meta fl old row) old
                merged e,
          ))
  ]

  merge_rows-records :
      (rows : List SessionRow) (merged : Merged fl)
      → records_of (merge_rows fl rows merged)
        ≡ records_of merged + sum_by (λ r. r.record_count) rows
  unfolding merge_rows
  merge_rows-records [] merged = omega arith
  merge_rows-records (row ∷ rows) merged = elim (Bool-cases (eqb row.record_count 0)) [
    | inl none_yet ↦ rw (none_yet, merge_rows) (ground (arith, merge_rows-records rows merged))
    | inr some_yet ↦
        rw (some_yet, merge_rows)
          (omega (
            arith,
            merge_rows-records rows (merge_row fl row merged),
            merge_row-records row merged,
          ))
  ]

  -- The sessions of the list have together as many records as the rows that it was made from.
  pub merge_sessions_records :
      (rows : List SessionRow)
      → sum_by (λ meta. meta.count) (merge_sessions fl rows) ≡ sum_by (λ r. r.record_count) rows
  unfolding merge_sessions
  merge_sessions_records rows =
      let by_key = sort_by (λ a b. key_lt a.key b.key) rows in
      omega (
        arith,
        sum_by-sort_by (λ meta. meta.count) _ (values (merge_rows fl by_key [])),
        merge_rows-records by_key [],
        sum_by-sort_by (λ r. r.record_count) (λ a b. key_lt a.key b.key) rows,
      )
