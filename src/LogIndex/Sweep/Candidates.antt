-- ===== src/LogIndex/Sweep/Candidates.antt =====
-- The candidates that a sweep starts from: the blobs that no request names, by address.
use claude_agent_wrap.Prelude.{
  ℕ, ◌≡◌, refl, sym, ap, subst, ◌∙◌, ◌⊎◌, inl, inr, true, false, none, List, [], ◌∷◌, arith, In,
  elem, elem-In, Bool-cases, text_eq, text_beq, text_beq_iff, nat_eq, if◌then◌else◌,
}
use claude_agent_wrap.Prelude.Dict.{get, put, get-put}
use claude_agent_wrap.LogIndex.Codec.{Bytes}
use claude_agent_wrap.LogIndex.Sweep.{Blob, Candidates, unreferenced_from, unreferenced_blobs}

In-put :
    (k : Bytes) (v : ℕ) (c : Candidates) (x : Bytes × ℕ) → In x (put k v c) → (x ≡ (k, v)) ⊎ In x c
unfolding put
In-put k v [] x (inl e) = inl e
In-put k v [] x (inr m) = absurd m
In-put k v ((j, w) ∷ c) x m = elim (Bool-cases (text_beq j k)) [
  | inl same ↦ elim (rw same at m) [
    | inl e ↦ let p : j ≡ k = (text_beq_iff j k).0 same in inl (e ∙ λ t. (p t, v))
    | inr r ↦ inr (inr r)
  ]
  | inr other ↦ elim (rw other at m) [
    | inl e ↦ inr (inl e)
    | inr r ↦ elim (In-put k v c x r) [ inl e ↦ inl e | inr q ↦ inr (inr q) ]
  ]
]

module _ (reachable : List ℕ) where
  -- An address that was there keeps an entry, and a blob that no request names gets one.
  from-keeps :
      (found : Candidates) (bs : List Blob) (a : Bytes)
      → get a (unreferenced_from reachable found bs) ≡ none
      → get a found ≡ none
  unfolding unreferenced_from
  from-keeps found [] a h = h
  from-keeps found (b ∷ bs) a h = elim (Bool-cases (elem b.id reachable)) [
    | inl named ↦ from-keeps found bs a (rw (named, unreferenced_from) at h)
    | inr free ↦
        let e = from-keeps (put b.sha256 b.id found) bs a (rw (free, unreferenced_from) at h) in
        ground (arith, get-put b.sha256 a b.id found)
  ]

  from-adds :
      (found : Candidates) (bs : List Blob) (b : Blob)
      → In b bs
      → get b.sha256 (unreferenced_from reachable found bs) ≡ none
      → elem b.id reachable ≡ true
  unfolding unreferenced_from
  from-adds found [] b m h = absurd m
  from-adds found (d ∷ bs) b (inl e) h = elim (Bool-cases (elem d.id reachable)) [
    | inl named ↦ subst (λ (x : Blob). elem x.id reachable ≡ true) (sym e) named
    | inr free ↦
        let g =
          from-keeps (put d.sha256 d.id found) bs b.sha256 (rw (free, unreferenced_from) at h) in
        let s : d.sha256 ≡ b.sha256 = ap (λ (x : Blob). x.sha256) (sym e) in
        ground (arith, get-put d.sha256 b.sha256 d.id found, text_beq_iff d.sha256 b.sha256)
  ]
  from-adds found (d ∷ bs) b (inr m) h =
      from-adds (if elem d.id reachable then found else put d.sha256 d.id found) bs b m h

  -- Every entry is that of a blob which no request names, or was there.
  from-named :
      (found : Candidates) (bs : List Blob) (a : Bytes) (i : ℕ)
      → In (a, i) (unreferenced_from reachable found bs)
      → ((b : Blob) × In b bs × (b.sha256 ≡ a) × (b.id ≡ i) × (elem b.id reachable ≡ false))
        ⊎ In (a, i) found
  unfolding unreferenced_from
  from-named found [] a i h = inr h
  from-named found (d ∷ bs) a i h = elim (Bool-cases (elem d.id reachable)) [
    | inl named ↦ elim (from-named found bs a i (rw (named, unreferenced_from) at h)) [
      | inl (b, m, sha, id, free) ↦ inl (b, inr m, sha, id, free)
      | inr old ↦ inr old
    ]
    | inr free ↦
        elim (from-named (put d.sha256 d.id found) bs a i (rw (free, unreferenced_from) at h)) [
          | inl (b, m, sha, id, other) ↦ inl (b, inr m, sha, id, other)
          | inr entry ↦ elim (In-put d.sha256 d.id found (a, i) entry) [
            | inl e ↦ inl (
              d,
              inl refl,
              ap (λ (x : Bytes × ℕ). x.0) (sym e),
              ap (λ (x : Bytes × ℕ). x.1) (sym e),
              free,
            )
            | inr old ↦ inr old
          ]
        ]
  ]

  -- A blob that is no candidate at first is one that a request names, and the reverse.
  pub unreferenced_blobs-named :
      (bs : List Blob) (a : Bytes) (i : ℕ)
      → In (a, i) (unreferenced_blobs reachable bs)
      → (b : Blob) × In b bs × (b.sha256 ≡ a) × (b.id ≡ i) × (elem b.id reachable ≡ false)
  unfolding unreferenced_blobs
  unreferenced_blobs-named bs a i h = elim (from-named [] bs a i h) [
    | inl found ↦ found
    | inr m ↦ absurd m
  ]

  pub unreferenced_blobs-none :
      (bs : List Blob) (b : Blob)
      → In b bs
      → get b.sha256 (unreferenced_blobs reachable bs) ≡ none
      → In b.id reachable
  unfolding unreferenced_blobs
  unreferenced_blobs-none bs b m h = elem-In b.id reachable (from-adds [] bs b m h)
