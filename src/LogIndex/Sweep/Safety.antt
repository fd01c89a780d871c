-- ===== src/LogIndex/Sweep/Safety.antt =====
-- On the candidates that `_follow_pointers` leaves, and the blobs that a request reaches.
use claude_agent_wrap.Prelude.{
  ℕ, suc, ◌≡◌, refl, sym, ap, subst, ◌∙◌, inl, inr, none, some, List, [], ◌∷◌, ◌++◌, length, In,
  In-split, In-append_left, In-append_right, Option-cases, >>=-some, In-elem, nat_eq, Text, text_eq,
}
use claude_agent_wrap.Prelude.Dict.{get}
use claude_agent_wrap.LogIndex.Codec.{Bytes}
use claude_agent_wrap.LogIndex.Pointers.{find_pointers}
use claude_agent_wrap.LogIndex.Sweep.{
  Blob, RequestRow, Database, Candidates, Runtime, referenced_blob_ids, unreferenced_blobs, claim,
  sorted, to_list, error_texts, blob_texts, follow, follow_pointers,
}
use claude_agent_wrap.LogIndex.Sweep.Claim.{
  Claims, Claims-none, Claims-append, claim-Claims, pointers_of, get-In,
}
use claude_agent_wrap.LogIndex.Sweep.Texts.{pointers_of-append, Points}
use claude_agent_wrap.LogIndex.Sweep.Loop.{
  Progress, In-blob_texts, blob_texts-In, round-Progress, follow-Progress, follow-none,
}
use claude_agent_wrap.LogIndex.Sweep.Candidates.{unreferenced_blobs-named, unreferenced_blobs-none}
pub use claude_agent_wrap.LogIndex.Sweep.References.{
  Names, Reachable, by_request, by_error, by_text,
}
use claude_agent_wrap.LogIndex.Sweep.References.{Names-referenced, referenced-Names}

In-error_texts :
    (rs : List RequestRow) (r : RequestRow) (t : Text) (a : Bytes)
    → In r rs
    → r.error ≡ some t
    → In a (find_pointers t)
    → In a (pointers_of (error_texts rs))
unfolding error_texts pointers_of
In-error_texts [] r t a m e h = absurd m
In-error_texts (q ∷ rs) r t a (inl p) e h =
    let f : q.error ≡ some t = ap (λ (x : RequestRow). x.error) (sym p) ∙ e in
    rw f (In-append_left a (find_pointers t) (pointers_of (error_texts rs)) h)
In-error_texts (q ∷ rs) r t a (inr m) e h =
    subst (In a) (sym (pointers_of-append (to_list q.error) (error_texts rs))) (
      In-append_right a (pointers_of (to_list q.error)) (pointers_of (error_texts rs))
        (In-error_texts rs r t a m e h))

error_texts-In :
    (rs : List RequestRow) (a : Bytes)
    → In a (pointers_of (error_texts rs))
    → (r : RequestRow) × (t : Text) × In r rs × (r.error ≡ some t) × In a (find_pointers t)
unfolding error_texts pointers_of
error_texts-In [] a h = absurd h
error_texts-In (q ∷ rs) a h = elim (Option-cases q.error) [
  | inl e ↦ let (r, t, m, f, p) = error_texts-In rs a (rw e at h) in (r, t, inr m, f, p)
  | inr (t, e) ↦ elim (In-split a (find_pointers t) (pointers_of (error_texts rs)) (rw e at h)) [
    | inl here ↦ (q, t, inl refl, e, here)
    | inr there ↦ let (r, u, m, f, p) = error_texts-In rs a there in (r, u, inr m, f, p)
  ]
]

-- The schema's two keys of `blobs`: the primary key, and `UNIQUE (sha256)`.
pub record IsKeyed (db : Database) : Type 0 where
  pub unique_id : (b d : Blob) → In b db.blobs → In d db.blobs → b.id ≡ d.id → b ≡ d
  pub unique_sha : (b d : Blob) → In b db.blobs → In d db.blobs → b.sha256 ≡ d.sha256 → b ≡ d

module _ (rt : Runtime) (db : Database) (keyed : IsKeyed db) (refs : List ℕ)
    (known : referenced_blob_ids db.requests ≡ some refs) where
  abbrev pub Reached : Blob → Type 0
  Reached = Reachable rt db

  -- A blob that a request names is no candidate.
  referenced-none :
      (b : Blob)
      → In b db.blobs
      → In b.id refs
      → get b.sha256 (unreferenced_blobs refs db.blobs) ≡ none
  referenced-none b m i = elim (Option-cases (get b.sha256 (unreferenced_blobs refs db.blobs))) [
    | inl e ↦ e
    | inr (j, e) ↦
        let (d, dm, sha, id, free) =
          unreferenced_blobs-named refs db.blobs b.sha256 j
            (get-In b.sha256 j (unreferenced_blobs refs db.blobs) e) in
        let same : d ≡ b = keyed.unique_sha d b dm m sha in
        cc (free, In-elem d.id refs (subst (λ (x : Blob). In x.id refs) (sym same) i))
  ]

  by_refs : (b : Blob) → In b.id refs → Reached b
  by_refs b i =
      let (r, here, n) = referenced-Names db.requests refs b.id known i in by_request b r here n

  start-Progress : Progress rt db.blobs Reached refs (unreferenced_blobs refs db.blobs)
  start-Progress = record {
    named = λ a i m.
        let (b, here, sha, id, free) = unreferenced_blobs-named refs db.blobs a i m in
        (b, here, sha, id);
    closed = λ b m h. inl (unreferenced_blobs-none refs db.blobs b m h);
    reached = λ b m h. by_refs b (unreferenced_blobs-none refs db.blobs b m h);
    taken = referenced-none;
  }

  next-Reached :
      (b d : Blob) → In b db.blobs → In d db.blobs → Reached b → Points rt b d.sha256 → Reached d
  next-Reached b d m dm r (t, e, p) = by_text b d t m r e p

  module _ (final : Candidates)
      (found : follow_pointers rt db refs (unreferenced_blobs refs db.blobs) ≡ some final) where
    abbrev pub start : Candidates
    start = unreferenced_blobs refs db.blobs

    abbrev first : Candidates × List ℕ
    first = claim (error_texts db.requests) start

    read :
        (ts : List Text) × (blob_texts rt db.blobs (sorted refs) ≡ some ts)
        × (follow rt db.blobs
              (suc (length (claim ts first.0).0))
              (first.1 ++ (claim ts first.0).1)
              (claim ts first.0).0
            ≡ some final)
    unfolding follow_pointers
    read = >>=-some (blob_texts rt db.blobs (sorted refs)) _ final found

    abbrev texts : List Text
    texts = read.0

    abbrev second : Candidates × List ℕ
    second = claim texts first.0

    ran : follow rt db.blobs (suc (length second.0)) (first.1 ++ second.1) second.0 ≡ some final
    ran = read.2

    claimed :
        Claims
          (pointers_of (error_texts db.requests) ++ pointers_of texts)
          start
          second.0
          (first.1 ++ second.1)
    claimed =
        Claims-append (claim-Claims (error_texts db.requests) start) (claim-Claims texts first.0)

    origin :
        (b : Blob)
        → In b db.blobs
        → In b.sha256 (pointers_of (error_texts db.requests) ++ pointers_of texts)
        → Reached b
    origin b m h =
        elim (In-split b.sha256 (pointers_of (error_texts db.requests)) (pointers_of texts) h) [
          | inl e ↦
              let (r, t, here, f, p) = error_texts-In db.requests b.sha256 e in
              by_error b r t here f p
          | inr e ↦
              let (d, dm, i, p) = blob_texts-In rt db.blobs refs texts b.sha256 read.1 e in
              let (t, text, q) = p in by_text d b t dm (by_refs d i) text q
        ]

    second-Progress : Progress rt db.blobs Reached (first.1 ++ second.1) second.0
    second-Progress =
        round-Progress rt db.blobs keyed.unique_id keyed.unique_sha
          (λ b a m i p.
            In-append_right a (pointers_of (error_texts db.requests)) (pointers_of texts)
              (In-blob_texts rt db.blobs refs texts b a read.1 m i p))
          origin start-Progress claimed

    pub final-Progress : Progress rt db.blobs Reached [] final
    final-Progress =
        follow-Progress rt db.blobs keyed.unique_id keyed.unique_sha next-Reached
          (suc (length second.0)) (first.1 ++ second.1) second.0 final second-Progress ran

    final-none : (a : Bytes) → get a second.0 ≡ none → get a final ≡ none
    final-none a h =
        follow-none rt db.blobs (suc (length second.0)) (first.1 ++ second.1) second.0 final a ran h

    -- What is reached is no candidate at the end.
    pub Reached-none : (b : Blob) → In b db.blobs → Reached b → get b.sha256 final ≡ none
    Reached-none b m (by_request e r here n) = final-none b.sha256 (
        Claims-none claimed b.sha256
          (referenced-none b m (Names-referenced db.requests refs r b.id known here n)))
    Reached-none b m (by_error d r t here e p) = final-none b.sha256 (
        claimed.gone b.sha256 (
          In-append_left b.sha256 (pointers_of (error_texts db.requests)) (pointers_of texts)
            (In-error_texts db.requests r t b.sha256 here e p)))
    Reached-none d m (by_text b e t bm r text p) =
        elim (final-Progress.closed b bm (Reached-none b bm r)) [
          | inl i ↦ absurd i
          | inr all ↦ all d.sha256 (t, text, p)
        ]
