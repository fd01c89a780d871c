-- ===== src/LogIndex/Sweep/Loop.antt =====
-- On the closure loop of `_follow_pointers`: its invariant, and its fuel.
use mathlib.Core.Option.{some-injective}
use claude_agent_wrap.Prelude.{
  ℕ, zero, suc, ◌<◌, ◌≡◌, refl, sym, ap, subst, ◌∙◌, ◌⊎◌, inl, inr, none, some, List, [], ◌∷◌,
  arith, length, In, Option-cases, text_eq, Text, >>=-some,
}
use claude_agent_wrap.Prelude.Dict.{get}
use claude_agent_wrap.LogIndex.Codec.{Bytes}
use claude_agent_wrap.LogIndex.Sweep.{
  Blob, Candidates, Runtime, claim, sorted, batched, blob_texts, follow,
}
use claude_agent_wrap.LogIndex.Sweep.Claim.{Claims, Claims-none, claim-Claims, pointers_of, get-In}
use claude_agent_wrap.LogIndex.Sweep.Batches.{In-sorted, sorted-In, batched-concat}
use claude_agent_wrap.LogIndex.Sweep.Texts.{
  In-pointers_of, pointers_of-In, Points, AreReadable, batches_total,
}

get-nil : (a : Bytes) → get {V = ℕ} a [] ≡ none
unfolding get
get-nil a = refl

module _ (rt : Runtime) (blobs : List Blob) where
  pub In-blob_texts :
      (ids : List ℕ) (ts : List Text) (b : Blob) (a : Bytes)
      → blob_texts rt blobs (sorted ids) ≡ some ts
      → In b blobs
      → In b.id ids
      → Points rt b a
      → In a (pointers_of ts)
  In-blob_texts ids ts b a e m i p =
      In-pointers_of rt blobs (batched (sorted ids)) ts b a e m
        (rw batched-concat (In-sorted b.id ids i)) p

  pub blob_texts-In :
      (ids : List ℕ) (ts : List Text) (a : Bytes)
      → blob_texts rt blobs (sorted ids) ≡ some ts
      → In a (pointers_of ts)
      → (b : Blob) × In b blobs × In b.id ids × Points rt b a
  blob_texts-In ids ts a e h =
      let (b, m, i, p) = pointers_of-In rt blobs (batched (sorted ids)) ts a e h in
      (b, m, sorted-In b.id ids (subst (In b.id) (batched-concat (sorted ids)) i), p)

  -- The loop's state: the candidates that are left name blobs, each by its own address; every blob
  -- that is no candidate is reached (by `P`); and its pointers have been followed, unless its id is
  -- in the frontier.
  pub record Progress (P : Blob → Type 0) (frontier : List ℕ) (c : Candidates) : Type 0 where
    pub named :
        (a : Bytes) (i : ℕ) → In (a, i) c → (b : Blob) × In b blobs × (b.sha256 ≡ a) × (b.id ≡ i)
    pub closed :
        (b : Blob)
        → In b blobs
        → get b.sha256 c ≡ none
        → In b.id frontier ⊎ ((a : Bytes) → Points rt b a → get a c ≡ none)
    pub reached : (b : Blob) → In b blobs → get b.sha256 c ≡ none → P b
    pub taken : (b : Blob) → In b blobs → In b.id frontier → get b.sha256 c ≡ none

  module _ {P : Blob → Type 0}
      (unique_id : (b d : Blob) → In b blobs → In d blobs → b.id ≡ d.id → b ≡ d)
      (unique_sha : (b d : Blob) → In b blobs → In d blobs → b.sha256 ≡ d.sha256 → b ≡ d) where
    -- Claiming addresses that hold the frontier's pointers, and no address of a blob that is not
    -- reached, makes the ids that were there the next frontier.
    module _ {f more : List ℕ} {c left : Candidates} {as' : List Bytes}
        (covers : (b : Blob) (a : Bytes) → In b blobs → In b.id f → Points rt b a → In a as')
        (origin : (b : Blob) → In b blobs → In b.sha256 as' → P b) (p : Progress P f c)
        (cl : Claims as' c left more) where
      -- A blob that was a candidate and is none any more was claimed, under its own id.
      claimed :
          (b : Blob) (i : ℕ)
          → In b blobs
          → get b.sha256 c ≡ some i
          → get b.sha256 left ≡ none
          → In b.sha256 as' × In b.id more
      claimed b i m there gone =
          let (d, dm, sha, id) = p.named b.sha256 i (get-In b.sha256 i c there) in
          let e : d ≡ b = unique_sha d b dm m sha in
          elim (cl.split b.sha256 i there) [
            | inl stays ↦ cc
            | inr (x, y) ↦ (x, subst (λ j. In j more) (sym id ∙ ap (λ (z : Blob). z.id) e) y)
          ]

      round-closed :
          (b : Blob)
          → In b blobs
          → get b.sha256 left ≡ none
          → In b.id more ⊎ ((a : Bytes) → Points rt b a → get a left ≡ none)
      round-closed b m h = elim (Option-cases (get b.sha256 c)) [
        | inr (i, there) ↦ inl (claimed b i m there h).1
        | inl absent ↦ elim (p.closed b m absent) [
          | inl i ↦ inr (λ a x. cl.gone a (covers b a m i x))
          | inr all ↦ inr (λ a x. Claims-none cl a (all a x))
        ]
      ]

      round-reached : (b : Blob) → In b blobs → get b.sha256 left ≡ none → P b
      round-reached b m h = elim (Option-cases (get b.sha256 c)) [
        | inl absent ↦ p.reached b m absent
        | inr (i, there) ↦ origin b m (claimed b i m there h).0
      ]

      round-taken : (b : Blob) → In b blobs → In b.id more → get b.sha256 left ≡ none
      round-taken b m i =
          let (a, x, there) = cl.source b.id i in
          let (d, dm, sha, id) = p.named a b.id (get-In a b.id c there) in
          let e : d ≡ b = unique_id d b dm m id in
          cl.gone b.sha256 (subst (λ z. In z as') (sym sha ∙ ap (λ (z : Blob). z.sha256) e) x)

      pub round-Progress : Progress P more left
      round-Progress = record {
        named = λ a i h. p.named a i (cl.sub (a, i) h);
        closed = round-closed;
        reached = round-reached;
        taken = round-taken;
      }

    module _
        (next : (b d : Blob) → In b blobs → In d blobs → P b → Points rt b d.sha256 → P d) where
      pub follow-Progress :
          (fuel : ℕ) (f : List ℕ) (c final : Candidates)
          → Progress P f c
          → follow rt blobs fuel f c ≡ some final
          → Progress P [] final
      unfolding follow
      follow-Progress zero f c final p h = cc
      follow-Progress (suc fuel) [] c final p h = subst (Progress P []) (some-injective c final h) p
      follow-Progress (suc fuel) (i ∷ f) [] final p h =
          subst (Progress P []) (some-injective [] final h) (record {
            named = λ a j m. absurd m;
            closed = λ b m e. inr (λ a x. get-nil a);
            reached = p.reached;
            taken = λ b m x. absurd x;
          })
      follow-Progress (suc fuel) (i ∷ f) (x ∷ c) final p h =
          let (texts, e, h1) = >>=-some (blob_texts rt blobs (sorted (i ∷ f))) _ final h in
          follow-Progress fuel (claim texts (x ∷ c)).1 (claim texts (x ∷ c)).0 final
            (round-Progress (λ b a m j q. In-blob_texts (i ∷ f) texts b a e m j q)
              (λ d m q.
                let (b, bm, j, pts) = blob_texts-In (i ∷ f) texts d.sha256 e q in
                next b d bm m (p.reached b bm (p.taken b bm j)) pts)
              p (claim-Claims texts (x ∷ c)))
            h1

  -- The loop only takes candidates out.
  pub follow-none :
      (fuel : ℕ) (f : List ℕ) (c final : Candidates) (a : Bytes)
      → follow rt blobs fuel f c ≡ some final
      → get a c ≡ none
      → get a final ≡ none
  unfolding follow
  follow-none zero f c final a h e = cc
  follow-none (suc fuel) [] c final a h e = subst (λ z. get a z ≡ none) (some-injective c final h) e
  follow-none (suc fuel) (i ∷ f) [] final a h e =
      subst (λ z. get a z ≡ none) (some-injective [] final h) e
  follow-none (suc fuel) (i ∷ f) (x ∷ c) final a h e =
      let (texts, _, h1) = >>=-some (blob_texts rt blobs (sorted (i ∷ f))) _ final h in
      follow-none fuel (claim texts (x ∷ c)).1 (claim texts (x ∷ c)).0 final a h1
        (Claims-none (claim-Claims texts (x ∷ c)) a e)

  -- More fuel than there are candidates is enough: every round that reaches something takes a
  -- candidate out.
  follow_ends :
      AreReadable rt blobs
      → (fuel : ℕ) (f : List ℕ) (c : Candidates) → 0 < fuel
      → (0 < length f → length c < fuel)
      → (final : Candidates) × (follow rt blobs fuel f c ≡ some final)
  unfolding follow
  follow_ends r zero f c pos h = elim pos [ ]
  follow_ends r (suc fuel) [] c pos h = (c, refl)
  follow_ends r (suc fuel) (i ∷ f) [] pos h = ([], refl)
  follow_ends r (suc fuel) (i ∷ f) (x ∷ c) pos h =
      let (texts, e) = batches_total rt blobs (batched (sorted (i ∷ f))) r in
      let cl = claim-Claims texts (x ∷ c) in
      let room : suc (length c) < suc fuel = h (omega arith) in
      rw (e, follow)
        (follow_ends r fuel (claim texts (x ∷ c)).1 (claim texts (x ∷ c)).0 (omega arith)
          (λ p. omega (arith, cl.shrinks)))

  pub follow_total :
      AreReadable rt blobs
      → (f : List ℕ) (c : Candidates)
      → (final : Candidates) × (follow rt blobs (suc (length c)) f c ≡ some final)
  follow_total r f c = follow_ends r (suc (length c)) f c (omega arith) (λ p. omega arith)
