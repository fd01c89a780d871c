-- ===== src/LogIndex/Sweep/Batches.antt =====
-- On `sorted` and `_batched`, and the rows that a batch selects.
use claude_agent_wrap.Prelude.{
  ℕ, zero, suc, ◌≤◌, ◌≡◌, refl, sym, ap, subst, ◌∙◌, inl, inr, List, [], ◌∷◌, ◌++◌, arith, leb,
  length, take, drop, take-append-drop, In, elem, elem-In, In-elem, Bool-cases, nat_eq,
}
use claude_agent_wrap.LogIndex.Sweep.{Blob, insert_id, sorted, batches, batched, select}

-- `insert_id` and `sorted` keep the members.
In-insert_id : (i n : ℕ) (ms : List ℕ) → In i (n ∷ ms) → In i (insert_id n ms)
unfolding insert_id
In-insert_id i n [] h = h
In-insert_id i n (m ∷ ms) h = elim (Bool-cases (leb n m)) [
  | inl low ↦ rw low h
  | inr high ↦ rw high (elim h [
    | inl e ↦ inr (In-insert_id i n ms (inl e))
    | inr (inl e) ↦ inl e
    | inr (inr m') ↦ inr (In-insert_id i n ms (inr m'))
  ])
]

insert_id-In : (i n : ℕ) (ms : List ℕ) → In i (insert_id n ms) → In i (n ∷ ms)
unfolding insert_id
insert_id-In i n [] h = h
insert_id-In i n (m ∷ ms) h = elim (Bool-cases (leb n m)) [
  | inl low ↦ rw low at h
  | inr high ↦ elim (rw high at h) [
    | inl e ↦ inr (inl e)
    | inr m' ↦ elim (insert_id-In i n ms m') [ inl e ↦ inl e | inr r ↦ inr (inr r) ]
  ]
]

pub In-sorted : (i : ℕ) (ns : List ℕ) → In i ns → In i (sorted ns)
unfolding sorted
In-sorted i [] h = h
In-sorted i (n ∷ ns) (inl e) = In-insert_id i n (sorted ns) (inl e)
In-sorted i (n ∷ ns) (inr m) = In-insert_id i n (sorted ns) (inr (In-sorted i ns m))

pub sorted-In : (i : ℕ) (ns : List ℕ) → In i (sorted ns) → In i ns
unfolding sorted
sorted-In i [] h = h
sorted-In i (n ∷ ns) h = elim (insert_id-In i n (sorted ns) h) [
  | inl e ↦ inl e
  | inr m ↦ inr (sorted-In i ns m)
]

length-insert_id : (n : ℕ) (ms : List ℕ) → length (insert_id n ms) ≡ suc (length ms)
unfolding insert_id
length-insert_id n [] = refl
length-insert_id n (m ∷ ms) = ground (arith, length-insert_id n ms)

pub length-sorted : (ns : List ℕ) → length (sorted ns) ≡ length ns
unfolding sorted
length-sorted [] = refl
length-sorted (n ∷ ns) = omega (arith, length-insert_id n (sorted ns), length-sorted ns)

-- The members of a list of batches.
abbrev pub concat : {A : Type 0} → List (List A) → List A
concat [] = []
concat (b ∷ bs) = b ++ concat bs

length-drop-lt :
    {A : Type 0} (size : ℕ) (n : A) (ns : List A) → length (drop (suc size) (n ∷ ns)) ≤ length ns
length-drop-lt zero n ns = omega arith
length-drop-lt (suc size) n [] = omega arith
length-drop-lt (suc size) n (m ∷ ns) = omega (arith, length-drop-lt size m ns)

batches-concat :
    {A : Type 0} (fuel size : ℕ) (ns : List A)
    → length ns ≤ fuel
    → concat (batches fuel (suc size) ns) ≡ ns
unfolding batches
batches-concat zero size [] h = refl
batches-concat zero size (n ∷ ns) h = absurd (omega arith)
batches-concat (suc fuel) size [] h = refl
batches-concat (suc fuel) size (n ∷ ns) h =
    ap (λ more. take (suc size) (n ∷ ns) ++ more)
      (batches-concat fuel size (drop (suc size) (n ∷ ns))
        (omega (arith, length-drop-lt size n ns)))
    ∙ take-append-drop (suc size) (n ∷ ns)

-- The batches hold the ids, all of them, in their order.
pub batched-concat : {A : Type 0} (ns : List A) → concat (batched ns) ≡ ns
unfolding batched
batched-concat ns = batches-concat (length ns) 4999 ns (omega arith)

-- Selecting the rows of a batch.
pub In-select :
    (b : Blob) (blobs : List Blob) (batch : List ℕ)
    → In b blobs
    → In b.id batch
    → In b (select blobs batch)
In-select b [] batch m i = absurd m
In-select b (x ∷ xs) batch (inl e) i =
    rw (In-elem x.id batch (subst (λ y. In y.id batch) e i)) (inl e)
In-select b (x ∷ xs) batch (inr m) i = elim (Bool-cases (elem x.id batch)) [
  | inl there ↦ rw there (inr (In-select b xs batch m i))
  | inr other ↦ rw other (In-select b xs batch m i)
]

pub select-In :
    (b : Blob) (blobs : List Blob) (batch : List ℕ)
    → In b (select blobs batch)
    → In b blobs × In b.id batch
select-In b [] batch m = absurd m
select-In b (x ∷ xs) batch m = elim (Bool-cases (elem x.id batch)) [
  | inl there ↦ elim (rw there at m) [
    | inl e ↦ (inl e, subst (λ y. In y.id batch) (sym e) (elem-In x.id batch there))
    | inr m' ↦ let (p, q) = select-In b xs batch m' in (inr p, q)
  ]
  | inr other ↦ let (p, q) = select-In b xs batch (rw other at m) in (inr p, q)
]
