-- ===== src/Reader/Ready.antt =====
-- On `read_ingest_chunks`: what holds of every chunk that it yields, an exception later or not.
use mathlib.Core.Option.{some-injective}
use claude_agent_wrap.Prelude.{
  ℕ, suc, ◌+◌, ◌≡◌, refl, sym, ap, subst, ◌∙◌, ◌⊎◌, inl, inr, Bool, true, false, some, >>=-some,
  List, [], ◌∷◌, ◌++◌, map, In, In-append_left, In-append_right, In-split, Option-cases, length,
  length-append, codes, arith,
}
use claude_agent_wrap.LogIndex.Codec.{Bytes}
use claude_agent_wrap.LogIndex.Ingest.{
  ContentBlob, RequestRecord, SessionSummary, IngestChunk, record_addresses, requests_addresses,
}
use claude_agent_wrap.LogIndex.Ingest.Apply.{are_digests, split_fits}
use claude_agent_wrap.LogIndex.Ingest.Returns.{Consecutive, last, next}
use claude_agent_wrap.Reader.Json.{Fields, Runtime, find, fields_or, to_micros}
use claude_agent_wrap.Reader.Records.{extract_alias, extract_title}
use claude_agent_wrap.Reader.Parser.{parse}
use claude_agent_wrap.Reader.Chunks.{
  Pass, advanced, chunk_of, emptied, snapshot, observe, record_of, take_record, take_line,
}
use claude_agent_wrap.Reader.Carried.{shas, parse-Parsed}

-- What a chunk has to be for the index to take it, when the addresses `known` are stored and the
-- session has `n` requests.
pub record IsReady (known : List Bytes) (n : ℕ) (chunk : IngestChunk) : Type 0 where
  pub closed :
      (a : Bytes)
      → In a (requests_addresses chunk.requests)
      → In a (map (λ (b : ContentBlob). b.sha256) chunk.blobs) ⊎ In a known
  pub digests : are_digests chunk.blobs ≡ true
  pub fits : (r : RequestRecord) → In r chunk.requests → split_fits r.columns ≡ true
  pub consecutive : Consecutive n chunk.requests
  pub counted : chunk.summary.record_count ≡ n + length chunk.requests

-- Chunk after chunk: each knows what those before it carry.
pub data AreReady : List Bytes → ℕ → List IngestChunk → Type 0 where
  nothing : (known : List Bytes) (n : ℕ) → AreReady known n []
  one_more :
      (known : List Bytes) (n : ℕ) (chunk : IngestChunk) (chunks : List IngestChunk)
      → IsReady known n chunk
      → AreReady
          (known ++ map (λ (b : ContentBlob). b.sha256) chunk.blobs)
          (n + length chunk.requests)
          chunks
      → AreReady known n (chunk ∷ chunks)

-- What holds of the pass between two lines, when the chunks so far carried `known`.
pub record IsSteady (known : List Bytes) (first : ℕ) (p : Pass) : Type 0 where
  pub carried : (a : Bytes) → In a p.blobs.seen → In a (shas p.blobs.pending) ⊎ In a known
  pub named : (a : Bytes) → In a (requests_addresses p.records) → In a p.blobs.seen
  pub digests : are_digests p.blobs.pending ≡ true
  pub fits : (r : RequestRecord) → In r p.records → split_fits r.columns ≡ true
  pub consecutive : Consecutive first p.records
  pub ordinal : p.ordinal ≡ first + length p.records
  pub counted : p.summary.record_count ≡ p.ordinal

pub chunk_of-IsReady :
    (known : List Bytes) (first so : ℕ) (p : Pass)
    → IsSteady known first p
    → IsReady known first (chunk_of p so)
unfolding snapshot
chunk_of-IsReady known first so p s = record {
  closed = λ a m. s.carried a (s.named a m);
  digests = s.digests;
  fits = s.fits;
  consecutive = s.consecutive;
  counted = s.counted ∙ s.ordinal;
}

pub emptied-IsSteady :
    (known : List Bytes) (first : ℕ) (p : Pass)
    → IsSteady known first p
    → IsSteady (known ++ shas p.blobs.pending) p.ordinal (emptied p)
unfolding requests_addresses are_digests
emptied-IsSteady known first p s = record {
  carried = λ a m. elim (s.carried a m) [
    | inl new ↦ inr (In-append_right a known _ new)
    | inr old ↦ inr (In-append_left a known _ old)
  ];
  named = λ a m. absurd m;
  digests = refl;
  fits = λ r m. absurd m;
  consecutive = last p.ordinal;
  ordinal = omega arith;
  counted = s.counted;
}

Consecutive-snoc :
    (n : ℕ) (rs : List RequestRecord) (r : RequestRecord)
    → Consecutive n rs
    → r.ordinal ≡ n + length rs
    → Consecutive n (rs ++ (r ∷ []))
Consecutive-snoc n [] r c e =
    subst (λ k. Consecutive k (r ∷ [])) (omega arith) (next r [] (last (suc r.ordinal)))
Consecutive-snoc n (t ∷ rs) r (next _ _ c) e =
    next t (rs ++ (r ∷ [])) (Consecutive-snoc (suc t.ordinal) rs r c (omega arith))

requests_addresses-snoc :
    (rs : List RequestRecord) (r : RequestRecord) (a : Bytes)
    → In a (requests_addresses (rs ++ (r ∷ [])))
    → In a (requests_addresses rs) ⊎ In a (record_addresses r)
unfolding requests_addresses
requests_addresses-snoc [] r a m = elim (In-split a (record_addresses r) [] m) [
  | inl l ↦ inr l
  | inr l ↦ absurd l
]
requests_addresses-snoc (t ∷ rs) r a m =
    elim (In-split a (record_addresses t) (requests_addresses (rs ++ (r ∷ []))) m) [
      | inl l ↦ inl (In-append_left a (record_addresses t) _ l)
      | inr l ↦ elim (requests_addresses-snoc rs r a l) [
        | inl x ↦ inl (In-append_right a (record_addresses t) _ x)
        | inr x ↦ inr x
      ]
    ]

module _ (rt : Runtime) where
  pub observe-counted :
      (rec : Fields) (s s' : SessionSummary)
      → observe rt rec s ≡ some s'
      → s'.record_count ≡ suc s.record_count
  unfolding observe
  observe-counted rec s s' h =
      let (timing, _, h1) = >>=-some (fields_or rt (find (codes "timing") rec)) _ s' h in
      let (ended, _, h2) = >>=-some (to_micros rt (find (codes "end") timing)) _ s' h1 in
      let (alias, _, h3) = >>=-some (extract_alias rt rec) _ s' h2 in
      let (title, _, h4) = >>=-some (extract_title rt rec) _ s' h3 in
      ap (λ (x : SessionSummary). x.record_count) (sym (some-injective _ s' h4))

module _ (rt : Runtime) (whole : (b : Bytes) → length (rt.sha256 b) ≡ 32) where
  take_record-IsSteady :
      (known : List Bytes) (first : ℕ) (rec : Fields) (p : Pass) (out : Pass × Bool)
      → IsSteady known first p
      → take_record rt rec p ≡ some out
      → IsSteady known first out.0
  unfolding take_record
  take_record-IsSteady known first rec p out s h =
      let (summary, e, h1) = >>=-some (observe rt rec p.summary) _ out h in
      let (parsed, f, h2) = >>=-some (parse rt rec p.ordinal p.blobs) _ out h1 in
      let good = parse-Parsed rt whole rec p.ordinal p.blobs parsed f in
      let grows = good.grows in
      subst (λ (x : Pass × Bool). IsSteady known first x.0) (some-injective _ out h2)
        (record {
          carried = λ a m. elim (grows.carried a m) [
            | inr new ↦ inl new
            | inl old ↦ elim (s.carried a old) [
              | inl new ↦ inl (grows.pending_kept a new)
              | inr l ↦ inr l
            ]
          ];
          named = λ a m. elim (requests_addresses-snoc p.records parsed.0 a m) [
            | inl old ↦ grows.seen_kept a (s.named a old)
            | inr new ↦ good.named a new
          ];
          digests = grows.digests s.digests;
          fits = λ r m. elim (In-split r p.records (parsed.0 ∷ []) m) [
            | inl old ↦ s.fits r old
            | inr (inl new) ↦
                subst (λ (x : RequestRecord). split_fits x.columns ≡ true) (sym new) good.fits
            | inr (inr l) ↦ absurd l
          ];
          consecutive =
              Consecutive-snoc first p.records parsed.0 s.consecutive (good.at ∙ s.ordinal);
          ordinal = let o = s.ordinal in omega (arith, length-append p.records (parsed.0 ∷ []));
          counted = observe-counted rt rec p.summary summary e ∙ ap suc s.counted;
        })

  pub take_line-IsSteady :
      (known : List Bytes) (first : ℕ) (line : Bytes) (p : Pass) (out : Pass × Bool)
      → IsSteady known first p
      → take_line rt line p ≡ some out
      → IsSteady known first out.0
  unfolding take_line
  take_line-IsSteady known first line p out s h =
      let s' : IsSteady known first (advanced line p) = record {
        carried = s.carried;
        named = s.named;
        digests = s.digests;
        fits = s.fits;
        consecutive = s.consecutive;
        ordinal = s.ordinal;
        counted = s.counted;
      } in
      elim (Option-cases (record_of rt line)) [
        | inl blank ↦
            subst (λ (x : Pass × Bool). IsSteady known first x.0)
              (some-injective (advanced line p, false) out (rw (blank, take_line) at h)) s'
        | inr (rec, e) ↦
            take_record-IsSteady known first rec (advanced line p) out s' (rw (e, take_line) at h)
      ]
