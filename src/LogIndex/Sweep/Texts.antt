-- ===== src/LogIndex/Sweep/Texts.antt =====
-- On `_blob_texts`: the pointers in the texts of the blobs that a list of ids names.
use mathlib.Core.List.{append_assoc}
use mathlib.Core.Option.{some-injective}
use claude_agent_wrap.Prelude.{
  ℕ, ◌≡◌, ◌≢◌, none, some, >>=-some, Option-cases, refl, sym, ap, subst, ◌∙◌, inl, inr, List, [],
  ◌∷◌, ◌++◌, In, In-split, In-append_left, In-append_right, nat_eq, Text,
}
use claude_agent_wrap.LogIndex.Codec.{Bytes, decode}
use claude_agent_wrap.LogIndex.Pointers.{find_pointers}
use claude_agent_wrap.LogIndex.Sweep.{
  Blob, Runtime, select, text_of, texts_of_rows, texts_of_batches,
}
use claude_agent_wrap.LogIndex.Sweep.Batches.{concat, In-select, select-In}
use claude_agent_wrap.LogIndex.Sweep.Claim.{pointers_of}

pub pointers_of-append :
    (ts us : List Text) → pointers_of (ts ++ us) ≡ pointers_of ts ++ pointers_of us
unfolding pointers_of
pointers_of-append [] us = refl
pointers_of-append (t ∷ ts) us = simp (pointers_of-append ts us, append_assoc)

module _ (rt : Runtime) where
  -- The pointers in the text of a blob.
  abbrev pub Points : Blob → Bytes → Type 0
  Points b a = (t : Text) × (text_of rt b ≡ some t) × In a (find_pointers t)

  rows-cons :
      (x : Blob) (xs : List Blob) (ts : List Text)
      → texts_of_rows rt (x ∷ xs) ≡ some ts
      → (t : Text) × (rest : List Text) × (text_of rt x ≡ some t)
        × (texts_of_rows rt xs ≡ some rest)
        × (t ∷ rest ≡ ts)
  unfolding texts_of_rows
  rows-cons x xs ts h =
      let (t, e, h1) = >>=-some (text_of rt x) _ ts h in
      let (rest, f, h2) = >>=-some (texts_of_rows rt xs) _ ts h1 in
      (t, rest, e, f, some-injective (t ∷ rest) ts h2)

  rows-In :
      (b : Blob) (a : Bytes) (bs : List Blob) (ts : List Text)
      → texts_of_rows rt bs ≡ some ts
      → In b bs
      → Points b a
      → In a (pointers_of ts)
  unfolding pointers_of
  rows-In b a [] ts h m p = absurd m
  rows-In b a (x ∷ xs) ts h m (u, here, q) =
      let (t, rest, e, f, g) = rows-cons x xs ts h in
      subst (λ z. In a (pointers_of z)) g
        (elim m [
          | inl same ↦
              let k : u ≡ t = some-injective u t (sym here ∙ ap (text_of rt) same ∙ e) in
              In-append_left a (find_pointers t) (pointers_of rest)
                (subst (λ z. In a (find_pointers z)) k q)
          | inr l ↦
              In-append_right a (find_pointers t) (pointers_of rest)
                (rows-In b a xs rest f l (u, here, q))
        ])

  In-rows :
      (a : Bytes) (bs : List Blob) (ts : List Text)
      → texts_of_rows rt bs ≡ some ts
      → In a (pointers_of ts)
      → (b : Blob) × In b bs × Points b a
  unfolding pointers_of texts_of_rows
  In-rows a [] ts h m = absurd (subst (λ z. In a (pointers_of z)) (sym (some-injective [] ts h)) m)
  In-rows a (x ∷ xs) ts h m =
      let (t, rest, e, f, g) = rows-cons x xs ts h in
      elim (In-split a (find_pointers t) (pointers_of rest)
        (subst (λ z. In a (pointers_of z)) (sym g) m)) [
          | inl here ↦ (x, inl refl, (t, e, here))
          | inr there ↦ let (b, l, p) = In-rows a xs rest f there in (b, inr l, p)
        ]

  batches-cons :
      (blobs : List Blob) (batch : List ℕ) (more : List (List ℕ)) (ts : List Text)
      → texts_of_batches rt blobs (batch ∷ more) ≡ some ts
      → (us rest : List Text) × (texts_of_rows rt (select blobs batch) ≡ some us)
        × (texts_of_batches rt blobs more ≡ some rest)
        × (us ++ rest ≡ ts)
  unfolding texts_of_batches
  batches-cons blobs batch more ts h =
      let (us, e, h1) = >>=-some (texts_of_rows rt (select blobs batch)) _ ts h in
      let (rest, f, h2) = >>=-some (texts_of_batches rt blobs more) _ ts h1 in
      (us, rest, e, f, some-injective (us ++ rest) ts h2)

  -- The texts of the batches are the texts of the blobs whose ids the batches hold.
  pub In-pointers_of :
      (blobs : List Blob) (batches' : List (List ℕ)) (ts : List Text) (b : Blob) (a : Bytes)
      → texts_of_batches rt blobs batches' ≡ some ts
      → In b blobs
      → In b.id (concat batches')
      → Points b a
      → In a (pointers_of ts)
  In-pointers_of blobs [] ts b a e m i h = absurd i
  In-pointers_of blobs (batch ∷ more) ts b a e m i h =
      let (us, rest, f, g, k) = batches-cons blobs batch more ts e in
      subst (λ z. In a (pointers_of z)) k
        (rw (pointers_of-append us rest) (elim (In-split b.id batch (concat more) i) [
          | inl here ↦
              In-append_left a _ _
                (rows-In b a (select blobs batch) us f (In-select b blobs batch m here) h)
          | inr there ↦ In-append_right a _ _ (In-pointers_of blobs more rest b a g m there h)
        ]))

  pub pointers_of-In :
      (blobs : List Blob) (batches' : List (List ℕ)) (ts : List Text) (a : Bytes)
      → texts_of_batches rt blobs batches' ≡ some ts
      → In a (pointers_of ts)
      → (b : Blob) × In b blobs × In b.id (concat batches') × Points b a
  unfolding texts_of_batches pointers_of
  pointers_of-In blobs [] ts a e h =
      absurd (subst (λ z. In a (pointers_of z)) (sym (some-injective [] ts e)) h)
  pointers_of-In blobs (batch ∷ more) ts a e h =
      let (us, rest, f, g, k) = batches-cons blobs batch more ts e in
      elim (In-split a (pointers_of us) (pointers_of rest)
        (subst (In a) (pointers_of-append us rest) (subst (λ z. In a (pointers_of z)) (sym k) h))) [
          | inl here ↦
              let (b, m, p) = In-rows a (select blobs batch) us f here in
              let (q, r) = select-In b blobs batch m in
              (b, q, In-append_left b.id batch (concat more) r, p)
          | inr there ↦
              let (b, m, i, p) = pointers_of-In blobs more rest a g there in
              (b, m, In-append_right b.id batch (concat more) i, p)
        ]

  -- The payload of every blob decompresses.
  abbrev pub AreReadable : List Blob → Type 0
  AreReadable bs = (b : Blob) → In b bs → decode rt.zlib b.codec b.payload ≢ none

  text_of_total :
      (b : Blob) → decode rt.zlib b.codec b.payload ≢ none → (t : Text) × (text_of rt b ≡ some t)
  unfolding text_of
  text_of_total b h = elim (Option-cases (decode rt.zlib b.codec b.payload)) [
    | inl bad ↦ absurd (h bad)
    | inr (payload, e) ↦ (rt.decode_utf8 payload, rw (e, text_of) refl)
  ]

  rows_total :
      (bs : List Blob) → AreReadable bs → (ts : List Text) × (texts_of_rows rt bs ≡ some ts)
  unfolding texts_of_rows
  rows_total [] h = ([], refl)
  rows_total (b ∷ bs) h =
      let (t, e) = text_of_total b (h b (inl refl)) in
      let (ts, f) = rows_total bs (λ d m. h d (inr m)) in (t ∷ ts, rw (e, f, texts_of_rows) refl)

  pub batches_total :
      (blobs : List Blob) (batches' : List (List ℕ))
      → AreReadable blobs
      → (ts : List Text) × (texts_of_batches rt blobs batches' ≡ some ts)
  unfolding texts_of_batches
  batches_total blobs [] h = ([], refl)
  batches_total blobs (batch ∷ more) h =
      let (us, e) = rows_total (select blobs batch) (λ b m. h b (select-In b blobs batch m).0) in
      let (rest, f) = batches_total blobs more h in (us ++ rest, rw (e, f, texts_of_batches) refl)
