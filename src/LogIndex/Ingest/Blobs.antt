-- ===== src/LogIndex/Ingest/Blobs.antt =====
-- On `_insert_blobs`: which blobs there are afterwards, and the ids that are read back.
use claude_agent_wrap.Prelude.{
  ℕ, ◌≡◌, refl, sym, ap, subst, ◌∙◌, inl, inr, List, [], ◌∷◌, map, elem, In, elem-In, not_elem-In,
  In-map, Bool-cases, text_eq, nat_eq,
}
use claude_agent_wrap.LogIndex.Codec.{Bytes}
use claude_agent_wrap.LogIndex.Sweep.{Blob}
use claude_agent_wrap.LogIndex.Ingest.{ContentBlob, Ids, IsFresh, insert_blob, insert_blobs}

-- The table's two keys, over a list of its rows.
pub record AreKeyed (blobs : List Blob) : Type 0 where
  pub unique_id : (b d : Blob) → In b blobs → In d blobs → b.id ≡ d.id → b ≡ d
  pub unique_sha : (b d : Blob) → In b blobs → In d blobs → b.sha256 ≡ d.sha256 → b ≡ d

-- Some row has the address, and the id.
abbrev pub Has : List Blob → Bytes → Type 0
Has blobs a = (b : Blob) × In b blobs × (b.sha256 ≡ a)

abbrev pub Holds : List Blob → ℕ → Bytes → Type 0
Holds blobs i a = (b : Blob) × In b blobs × (b.id ≡ i) × (b.sha256 ≡ a)

pub map-In :
    {A B : Type 0} (f : A → B) (b : B) (xs : List A)
    → In b (map f xs)
    → (a : A) × In a xs × (b ≡ f a)
map-In f b [] m = absurd m
map-In f b (x ∷ xs) (inl e) = (x, inl refl, e)
map-In f b (x ∷ xs) (inr m) = let (a, n, e) = map-In f b xs m in (a, inr n, e)

AreKeyed-cons :
    (n : Blob) (blobs : List Blob)
    → AreKeyed blobs
    → ¬ In n.id (map (λ (b : Blob). b.id) blobs)
    → ¬ In n.sha256 (map (λ (b : Blob). b.sha256) blobs)
    → AreKeyed (n ∷ blobs)
AreKeyed-cons n blobs k new_id new_sha = record {
  unique_id = one_key (λ b. b.id) k.unique_id new_id;
  unique_sha = one_key (λ b. b.sha256) k.unique_sha new_sha;
}
  where
    one_key :
        {B : Type 0} (f : Blob → B)
        → ((b d : Blob) → In b blobs → In d blobs → f b ≡ f d → b ≡ d)
        → ¬ In (f n) (map f blobs)
        → (b d : Blob) → In b (n ∷ blobs)
        → In d (n ∷ blobs)
        → f b ≡ f d
        → b ≡ d
    one_key f old out b d (inl p) (inl q) e = p ∙ sym q
    one_key f old out b d (inl p) (inr m) e =
        absurd (out (subst (λ x. In x (map f blobs)) (sym e ∙ ap f p) (In-map f d blobs m)))
    one_key f old out b d (inr m) (inl q) e =
        absurd (out (subst (λ x. In x (map f blobs)) (e ∙ ap f q) (In-map f b blobs m)))
    one_key f old out b d (inr m) (inr r) e = old b d m r e

module _ (ids : Ids) where
  insert_blob-AreKeyed :
      (c : ContentBlob) (blobs : List Blob)
      → IsFresh ids
      → AreKeyed blobs
      → AreKeyed (insert_blob ids c blobs)
  unfolding insert_blob
  insert_blob-AreKeyed c blobs new k =
      elim (Bool-cases (elem c.sha256 (map (λ (b : Blob). b.sha256) blobs))) [
        | inl there ↦ rw (there, insert_blob) k
        | inr absent ↦
            rw (absent, insert_blob)
              (AreKeyed-cons _ blobs k (new.fresh-new (map (λ (b : Blob). b.id) blobs))
                (not_elem-In c.sha256 (map (λ (b : Blob). b.sha256) blobs) absent))
      ]

  -- Distinct ids and distinct addresses stay distinct.
  pub insert_blobs-AreKeyed :
      (cs : List ContentBlob) (blobs : List Blob)
      → IsFresh ids
      → AreKeyed blobs
      → AreKeyed (insert_blobs ids cs blobs)
  unfolding insert_blobs
  insert_blobs-AreKeyed [] blobs new k = k
  insert_blobs-AreKeyed (c ∷ cs) blobs new k =
      insert_blobs-AreKeyed cs (insert_blob ids c blobs) new (insert_blob-AreKeyed c blobs new k)

  insert_blob-keeps :
      (c : ContentBlob) (blobs : List Blob) (b : Blob) → In b blobs → In b (insert_blob ids c blobs)
  unfolding insert_blob
  insert_blob-keeps c blobs b m =
      elim (Bool-cases (elem c.sha256 (map (λ (x : Blob). x.sha256) blobs))) [
        | inl there ↦ rw (there, insert_blob) m
        | inr absent ↦ rw (absent, insert_blob) (inr m)
      ]

  -- No row is changed or lost.
  pub insert_blobs-keeps :
      (cs : List ContentBlob) (blobs : List Blob) (b : Blob)
      → In b blobs
      → In b (insert_blobs ids cs blobs)
  unfolding insert_blobs
  insert_blobs-keeps [] blobs b m = m
  insert_blobs-keeps (c ∷ cs) blobs b m =
      insert_blobs-keeps cs (insert_blob ids c blobs) b (insert_blob-keeps c blobs b m)

  insert_blob-Has : (c : ContentBlob) (blobs : List Blob) → Has (insert_blob ids c blobs) c.sha256
  unfolding insert_blob
  insert_blob-Has c blobs = elim (Bool-cases (elem c.sha256 (map (λ (x : Blob). x.sha256) blobs))) [
    | inl there ↦
        let (b, m, e) =
          map-In (λ (x : Blob). x.sha256) c.sha256 blobs
            (elem-In c.sha256 (map (λ (x : Blob). x.sha256) blobs) there) in
        rw (there, insert_blob) (b, m, sym e)
    | inr absent ↦ rw (absent, insert_blob) (_, inl refl, refl)
  ]

  -- What is carried is there afterwards.
  pub insert_blobs-Has :
      (cs : List ContentBlob) (blobs : List Blob) (c : ContentBlob)
      → In c cs
      → Has (insert_blobs ids cs blobs) c.sha256
  unfolding insert_blobs
  insert_blobs-Has [] blobs c m = absurd m
  insert_blobs-Has (d ∷ cs) blobs c (inl e) =
      let (b, m, q) = insert_blob-Has d blobs in
      (
        b,
        insert_blobs-keeps cs (insert_blob ids d blobs) b m,
        q ∙ ap (λ (x : ContentBlob). x.sha256) (sym e),
      )
  insert_blobs-Has (d ∷ cs) blobs c (inr m) = insert_blobs-Has cs (insert_blob ids d blobs) c m
