-- ===== src/LogIndex/Sweep/Deletion.antt =====
-- What `_delete_blobs` leaves, and the bytes that it counts.
use claude_agent_wrap.Prelude.{
  ℕ, ◌+◌, ◌≡◌, refl, sym, subst, inl, inr, not, List, [], ◌∷◌, arith, length, sum_by, keep, In,
  In-split, In-append_left, In-append_right, elem, elem-In, not_elem-In, Bool-cases, nat_eq,
}
use claude_agent_wrap.LogIndex.Sweep.{
  Blob, Database, select, batched, delete_batches, delete_doomed,
}
use claude_agent_wrap.LogIndex.Sweep.Batches.{concat, batched-concat}

abbrev rest_of : List Blob → List ℕ → List Blob
rest_of blobs batch = keep (λ b. not (elem b.id batch)) blobs

-- Two sides of a batch.
select-rest :
    (f : Blob → ℕ) (blobs : List Blob) (batch : List ℕ)
    → sum_by f (select blobs batch) + sum_by f (rest_of blobs batch) ≡ sum_by f blobs
select-rest f [] batch = omega arith
select-rest f (b ∷ bs) batch = elim (Bool-cases (elem b.id batch)) [
  | inl there ↦ rw there (omega (arith, select-rest f bs batch))
  | inr other ↦ rw other (omega (arith, select-rest f bs batch))
]

In-rest_of :
    (b : Blob) (blobs : List Blob) (batch : List ℕ)
    → In b blobs
    → ¬ In b.id batch
    → In b (rest_of blobs batch)
In-rest_of b [] batch m h = absurd m
In-rest_of b (x ∷ xs) batch m h = elim (Bool-cases (elem x.id batch)) [
  | inl there ↦ rw there (elim m [
    | inl e ↦ absurd (h (subst (λ (y : Blob). In y.id batch) (sym e) (elem-In x.id batch there)))
    | inr r ↦ In-rest_of b xs batch r h
  ])
  | inr other ↦ rw other (elim m [ inl e ↦ inl e | inr r ↦ inr (In-rest_of b xs batch r h) ])
]

rest_of-In :
    (b : Blob) (blobs : List Blob) (batch : List ℕ)
    → In b (rest_of blobs batch)
    → In b blobs × (¬ In b.id batch)
rest_of-In b [] batch m = absurd m
rest_of-In b (x ∷ xs) batch m = elim (Bool-cases (elem x.id batch)) [
  | inl there ↦ let (p, q) = rest_of-In b xs batch (rw there at m) in (inr p, q)
  | inr other ↦ elim (rw other at m) [
    | inl e ↦ (inl e, subst (λ (y : Blob). ¬ In y.id batch) (sym e) (not_elem-In x.id batch other))
    | inr r ↦ let (p, q) = rest_of-In b xs batch r in (inr p, q)
  ]
]

In-delete_batches :
    (b : Blob) (blobs : List Blob) (bs : List (List ℕ))
    → In b blobs
    → ¬ In b.id (concat bs)
    → In b (delete_batches blobs bs).0
unfolding delete_batches
In-delete_batches b blobs [] m h = m
In-delete_batches b blobs (batch ∷ more) m h =
    In-delete_batches b (rest_of blobs batch) more
      (In-rest_of b blobs batch m (λ x. h (In-append_left b.id batch (concat more) x)))
      (λ x. h (In-append_right b.id batch (concat more) x))

delete_batches-In :
    (b : Blob) (blobs : List Blob) (bs : List (List ℕ))
    → In b (delete_batches blobs bs).0
    → In b blobs × (¬ In b.id (concat bs))
unfolding delete_batches
delete_batches-In b blobs [] m = (m, λ x. x)
delete_batches-In b blobs (batch ∷ more) m =
    let (kept, absent) = delete_batches-In b (rest_of blobs batch) more m in
    let (there, out) = rest_of-In b blobs batch kept in
    (there, λ x. elim (In-split b.id batch (concat more) x) [ inl y ↦ out y | inr y ↦ absent y ])

delete_batches-freed :
    (blobs : List Blob) (bs : List (List ℕ))
    → (delete_batches blobs bs).1 + sum_by (λ b. length b.payload) (delete_batches blobs bs).0
      ≡ sum_by (λ b. length b.payload) blobs
unfolding delete_batches
delete_batches-freed blobs [] = omega arith
delete_batches-freed blobs (batch ∷ more) = omega (
  arith,
  select-rest (λ b. length b.payload) blobs batch,
  delete_batches-freed (rest_of blobs batch) more,
)

batched-In : (j : ℕ) (ids : List ℕ) → In j (concat (batched ids)) → In j ids
batched-In j ids = subst (In j) (batched-concat ids)

In-batched : (j : ℕ) (ids : List ℕ) → In j ids → In j (concat (batched ids))
In-batched j ids = subst (In j) (sym (batched-concat ids))

module _ (db : Database) where
  pub In-delete_doomed :
      (ids : List ℕ) (b : Blob)
      → In b db.blobs
      → ¬ In b.id ids
      → In b (delete_doomed db ids).0.blobs
  unfolding delete_doomed
  In-delete_doomed [] b m h = m
  In-delete_doomed (i ∷ ids) b m h =
      In-delete_batches b db.blobs (batched (i ∷ ids)) m (λ x. h (batched-In b.id (i ∷ ids) x))

  pub delete_doomed-In :
      (ids : List ℕ) (b : Blob)
      → In b (delete_doomed db ids).0.blobs
      → In b db.blobs × (¬ In b.id ids)
  unfolding delete_doomed
  delete_doomed-In [] b m = (m, λ x. x)
  delete_doomed-In (i ∷ ids) b m =
      let (there, out) = delete_batches-In b db.blobs (batched (i ∷ ids)) m in
      (there, λ x. out (In-batched b.id (i ∷ ids) x))

  pub delete_doomed-freed :
      (ids : List ℕ)
      → (delete_doomed db ids).1.freed_bytes
          + sum_by (λ b. length b.payload) (delete_doomed db ids).0.blobs
        ≡ sum_by (λ b. length b.payload) db.blobs
  unfolding delete_doomed
  delete_doomed-freed [] = omega arith
  delete_doomed-freed (i ∷ ids) = delete_batches-freed db.blobs (batched (i ∷ ids))

  pub delete_doomed-requests : (ids : List ℕ) → (delete_doomed db ids).0.requests ≡ db.requests
  unfolding delete_doomed
  delete_doomed-requests [] = refl
  delete_doomed-requests (i ∷ ids) = refl
