-- ===== src/LogIndex/Sweep/Exact.antt =====
-- On a whole run of `LogIngestRepository.sweep_blobs`: its end, what it keeps and what it counts.
use mathlib.Core.Option.{some-injective}
use claude_agent_wrap.Prelude.{
  ℕ, ◌+◌, ◌≡◌, ◌≢◌, refl, sym, ap, subst, ◌∙◌, ◌↔◌, inl, inr, none, some, List, [], ◌∷◌, ◌++◌,
  length, sum_by, In, In-map, Option-cases, text_eq,
}
use claude_agent_wrap.Prelude.Dict.{get, values}
use claude_agent_wrap.LogIndex.Codec.{decode, unpack_ids}
use claude_agent_wrap.LogIndex.Sweep.{
  Blob, RequestRow, Database, BlobSweep, Candidates, Runtime, row_refs, referenced_blob_ids,
  unreferenced_blobs, sorted, batched, claim, to_list, error_texts, follow_pointers, delete_doomed,
  sweep_blobs,
}
use claude_agent_wrap.LogIndex.Sweep.Claim.{In-get, get-In}
use claude_agent_wrap.LogIndex.Sweep.Batches.{In-sorted, sorted-In}
use claude_agent_wrap.LogIndex.Sweep.Texts.{AreReadable, batches_total}
use claude_agent_wrap.LogIndex.Sweep.Loop.{follow_total}
use claude_agent_wrap.LogIndex.Sweep.Deletion.{
  In-delete_doomed, delete_doomed-In, delete_doomed-freed, delete_doomed-requests,
}
use claude_agent_wrap.LogIndex.Sweep.References.{Reachable}
use claude_agent_wrap.LogIndex.Sweep.Safety.{IsKeyed, final-Progress, Reached-none}

values-In : (i : ℕ) (c : Candidates) → In i (values c) → (a : _) × In (a, i) c
values-In i [] m = absurd m
values-In i ((a, j) ∷ c) (inl e) = (a, inl (λ t. (a, e t)))
values-In i ((a, j) ∷ c) (inr m) = let (b, h) = values-In i c m in (b, inr h)

-- A sweep that returns has found the references and the candidates that are left.
sweep_blobs-some :
    (rt : Runtime) (db : Database) (out : Database × BlobSweep)
    → sweep_blobs rt db ≡ some out
    → (refs : List ℕ) × (final : Candidates) × (referenced_blob_ids db.requests ≡ some refs)
      × (follow_pointers rt db refs (unreferenced_blobs refs db.blobs) ≡ some final)
      × (delete_doomed db (sorted (values final)) ≡ out)
unfolding sweep_blobs
sweep_blobs-some rt db out h = elim (Option-cases (referenced_blob_ids db.requests)) [
  | inl bad ↦ absurd (cc (rw (bad, sweep_blobs) at h))
  | inr (refs, e) ↦
      elim (Option-cases (follow_pointers rt db refs (unreferenced_blobs refs db.blobs))) [
        | inl bad ↦ absurd (cc (rw (e, bad, sweep_blobs) at h))
        | inr (final, f) ↦ (
          refs,
          final,
          e,
          f,
          some-injective (delete_doomed db (sorted (values final))) out
              (rw (e, f, sweep_blobs) at h),
        )
      ]
]

module _ (rt : Runtime) (db : Database) (keyed : IsKeyed db) (refs : List ℕ)
    (known : referenced_blob_ids db.requests ≡ some refs) (final : Candidates)
    (found : follow_pointers rt db refs (unreferenced_blobs refs db.blobs) ≡ some final) where
  -- A blob is doomed exactly if its address is a candidate at the end.
  doomed-candidate :
      (b : Blob) → In b db.blobs → In b.id (sorted (values final)) → get b.sha256 final ≢ none
  doomed-candidate b m i =
      let (a, entry) = values-In b.id final (sorted-In b.id (values final) i) in
      let (d, dm, sha, id) =
        (final-Progress rt db keyed refs known final found).named a b.id entry in
      let same : d ≡ b = keyed.unique_id d b dm m id in
      In-get b.sha256 b.id final
        (subst (λ x. In (x, b.id) final) (sym sha ∙ ap (λ (x : Blob). x.sha256) same) entry)

  candidate-doomed :
      (b : Blob) (i : ℕ)
      → In b db.blobs
      → get b.sha256 final ≡ some i
      → In b.id (sorted (values final))
  candidate-doomed b i m h =
      let entry = get-In b.sha256 i final h in
      let (d, dm, sha, id) =
        (final-Progress rt db keyed refs known final found).named b.sha256 i entry in
      let same : d ≡ b = keyed.unique_sha d b dm m sha in
      In-sorted b.id (values final) (
        subst (λ x. In x (values final)) (sym id ∙ ap (λ (x : Blob). x.id) same)
          (In-map (λ (e : _ × ℕ). e.1) (b.sha256, i) final entry))

  kept-Reachable :
      (b : Blob) → In b db.blobs → ¬ In b.id (sorted (values final)) → Reachable rt db b
  kept-Reachable b m out = elim (Option-cases (get b.sha256 final)) [
    | inl e ↦ (final-Progress rt db keyed refs known final found).reached b m e
    | inr (i, e) ↦ absurd (out (candidate-doomed b i m e))
  ]

  kept-exactly :
      (b : Blob)
      → In b (delete_doomed db (sorted (values final))).0.blobs
        ↔ (In b db.blobs × Reachable rt db b)
  kept-exactly b = (
    λ m.
        let (there, out) = delete_doomed-In db (sorted (values final)) b m in
        (there, kept-Reachable b there out),
    λ h.
        In-delete_doomed db (sorted (values final)) b h.0 (λ i.
          doomed-candidate b h.0 i (Reached-none rt db keyed refs known final found b h.0 h.1)),
  )

-- In a database whose blobs have distinct ids and distinct addresses, a sweep that returns keeps
-- exactly the blobs that are reached from a request: named by it, pointed at by its error text, or
-- pointed at by the text of a blob that is reached.
pub sweep_blobs_exact :
    (rt : Runtime) (db db' : Database) (report : BlobSweep)
    → IsKeyed db
    → sweep_blobs rt db ≡ some (db', report)
    → (b : Blob) → In b db'.blobs ↔ (In b db.blobs × Reachable rt db b)
sweep_blobs_exact rt db db' report keyed h b =
    let (refs, final, e, f, out) = sweep_blobs-some rt db (db', report) h in
    subst (λ (x : Database × BlobSweep). In b x.0.blobs ↔ (In b db.blobs × Reachable rt db b)) out
      (kept-exactly rt db keyed refs e final f b)

-- A sweep that returns changes no request, and the bytes that it reports as freed and the payload
-- bytes of the blobs it keeps are together the payload bytes that there were.
pub sweep_blobs_freed :
    (rt : Runtime) (db db' : Database) (report : BlobSweep)
    → sweep_blobs rt db ≡ some (db', report)
    → (db'.requests ≡ db.requests)
      × (report.freed_bytes + sum_by (λ b. length b.payload) db'.blobs
          ≡ sum_by (λ b. length b.payload) db.blobs)
sweep_blobs_freed rt db db' report h =
    let (refs, final, e, f, out) = sweep_blobs-some rt db (db', report) h in
    subst
      (λ (x : Database × BlobSweep).
        (x.0.requests ≡ db.requests)
        × (x.1.freed_bytes + sum_by (λ b. length b.payload) x.0.blobs
            ≡ sum_by (λ b. length b.payload) db.blobs))
      out
      (
        delete_doomed-requests db (sorted (values final)),
        delete_doomed-freed db (sorted (values final)),
      )

row_refs_total :
    (r : RequestRow) → unpack_ids r.message_refs ≢ none → (ids : List ℕ) × (row_refs r ≡ some ids)
unfolding row_refs
row_refs_total r h = elim (Option-cases (unpack_ids r.message_refs)) [
  | inl bad ↦ absurd (h bad)
  | inr (ids, f) ↦ (
    ids ++ (to_list r.system_blob ++ (to_list r.tools_blob ++ to_list r.response_blob)),
    rw (f, row_refs) refl,
  )
]

referenced_total :
    (rs : List RequestRow)
    → ((r : RequestRow) → In r rs → unpack_ids r.message_refs ≢ none)
    → (refs : List ℕ) × (referenced_blob_ids rs ≡ some refs)
unfolding referenced_blob_ids
referenced_total [] h = ([], refl)
referenced_total (r ∷ rs) h =
    let (ids, f) = row_refs_total r (h r (inl refl)) in
    let (rest, e) = referenced_total rs (λ q m. h q (inr m)) in
    (ids ++ rest, rw (f, e, referenced_blob_ids) refl)

follow_pointers_total :
    (rt : Runtime) (db : Database) (refs : List ℕ) (c : Candidates)
    → AreReadable rt db.blobs
    → (final : Candidates) × (follow_pointers rt db refs c ≡ some final)
unfolding follow_pointers
follow_pointers_total rt db refs c readable =
    let (texts, e) = batches_total rt db.blobs (batched (sorted refs)) readable in
    let (first, by_error) = claim (error_texts db.requests) c in
    let (left, by_text) = claim texts first in
    let (final, f) = follow_total rt db.blobs readable (by_error ++ by_text) left in
    (final, rw (e, follow_pointers) f)

-- If the reference vector of every request unpacks, and the payload of every blob decompresses, the
-- sweep returns: the loop that follows the pointers ends, cycles among the blobs included.
pub sweep_blobs_total :
    (rt : Runtime) (db : Database)
    → ((r : RequestRow) → In r db.requests → unpack_ids r.message_refs ≢ none)
    → ((b : Blob) → In b db.blobs → decode rt.zlib b.codec b.payload ≢ none)
    → (out : Database × BlobSweep) × (sweep_blobs rt db ≡ some out)
unfolding sweep_blobs
sweep_blobs_total rt db h readable =
    let (refs, e) = referenced_total db.requests h in
    let (final, f) = follow_pointers_total rt db refs (unreferenced_blobs refs db.blobs) readable in
    rw (e, f, sweep_blobs) (delete_doomed db (sorted (values final)), refl)
