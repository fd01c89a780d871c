-- ===== src/Reader/Uncut.antt =====
-- On `read_ingest_chunks`: the chunks against one parse of the lines without any cut.
use mathlib.Core.Option.{some-injective}
use mathlib.Core.List.{append_assoc, append-nil}
use claude_agent_wrap.Prelude.{
  ℕ, suc, ◌≡◌, refl, sym, ap, subst, ◌∙◌, inl, inr, Bool, true, false, Option, none, some, >>=-some,
  List, [], ◌∷◌, ◌++◌, Bool-cases, Option-cases, length, drop, eqb, codes, if◌then◌else◌, ◌&&◌,
  arith,
}
use claude_agent_wrap.LogIndex.Codec.{Bytes}
use claude_agent_wrap.LogIndex.Ingest.{RequestRecord, IngestChunk, SessionState}
use claude_agent_wrap.Reader.Json.{Fields, Runtime, find}
use claude_agent_wrap.Reader.Records.{extract_record_fields}
use claude_agent_wrap.Reader.Parser.{
  Accumulator, empty_accumulator, parse, columns_of, iterated, add_optional, add_values, or_none,
}
use claude_agent_wrap.Reader.Chunks.{
  split_lines, is_complete, Limits, Pass, advanced, cut, observe, record_of, take_record, take_line,
  read_lines, read_strings, strings_past, last_chunk, start, ended, read_ingest_chunks,
}
use claude_agent_wrap.Reader.Passes.{cut-cases}

abbrev pub all_requests : List IngestChunk → List RequestRecord
all_requests [] = []
all_requests (c ∷ cs) = c.requests ++ all_requests cs

-- The requests of the lines up to the first that is torn, numbered from `n`: no accumulator, no
-- chunk, no limit.
unfoldable pub requests_in : Runtime → List Bytes → ℕ → List RequestRecord
unfolding is_complete record_of parse
requests_in rt [] n = []
requests_in rt (line ∷ lines) n =
    let skipped = requests_in rt lines n in
    let more = requests_in rt lines (suc n) in
    if is_complete line
    then elim (record_of rt line) [
      | none ↦ skipped
      | some rec ↦ elim (parse rt rec n empty_accumulator) [ none ↦ [] | some out ↦ out.0 ∷ more ]
    ]
    else []

all_requests-append :
    (cs ds : List IngestChunk) → all_requests (cs ++ ds) ≡ all_requests cs ++ all_requests ds
all_requests-append [] ds = refl
all_requests-append (c ∷ cs) ds =
    ap (λ x. c.requests ++ x) (all_requests-append cs ds)
    ∙ sym (append_assoc c.requests (all_requests cs) (all_requests ds))

length-nil : (rs : List RequestRecord) → length rs ≡ 0 → rs ≡ []
length-nil [] h = refl
length-nil (r ∷ rs) h = absurd (omega arith)

module _ (rt : Runtime) where
  -- What was interned before a record does not change its request.
  parse-request :
      (rec : Fields) (n : ℕ) (blobs other : Accumulator) (out : RequestRecord × Accumulator)
      → parse rt rec n blobs ≡ some out
      → (after : Accumulator) × (parse rt rec n other ≡ some (out.0, after))
  unfolding parse
  parse-request rec n blobs other out h =
      let (c, e, h1) = >>=-some (columns_of rt rec) _ out h in
      let (messages, f, h2) =
        >>=-some (iterated rt (find (codes "messages") (extract_record_fields rec).data')) _ out
          h1 in
      let r = ap (λ (x : RequestRecord × Accumulator). x.0) (some-injective _ out h2) in
      let fields = extract_record_fields rec in
      let after : Accumulator = add_optional rt (find (codes "response") rec) (
        add_optional rt (or_none rt (find (codes "tools") fields.data'))
          (add_optional rt (find (codes "system") fields.data') (add_values rt messages other))) in
      (after, rw (e, f, parse) (ap (λ x. some (x, after)) r))

  -- The requests of a line are appended, and the pass goes on from the next ordinal.
  pub take_line-requests :
      (line : Bytes) (lines : List Bytes) (p : Pass) (out : Pass × Bool)
      → is_complete line ≡ true
      → take_line rt line p ≡ some out
      → out.0.records ++ requests_in rt lines out.0.ordinal
        ≡ p.records ++ requests_in rt (line ∷ lines) p.ordinal
  unfolding take_line take_record requests_in
  take_line-requests line lines p out whole h = elim (Option-cases (record_of rt line)) [
    | inl blank ↦
        rw (whole, blank, requests_in)
          (ap (λ (x : Pass × Bool). x.0.records ++ requests_in rt lines x.0.ordinal)
            (sym (some-injective (advanced line p, false) out (rw (blank, take_line) at h))))
    | inr (rec, e) ↦
        let h0 : take_record rt rec (advanced line p) ≡ some out = rw (e, take_line) at h in
        let (summary, _, h1) = >>=-some (observe rt rec p.summary) _ out h0 in
        let (parsed, f, h2) = >>=-some (parse rt rec p.ordinal p.blobs) _ out h1 in
        let (after, g) = parse-request rec p.ordinal p.blobs empty_accumulator parsed f in
        rw (whole, e, g, requests_in)
          (subst
            (λ (x : Pass × Bool).
              x.0.records ++ requests_in rt lines x.0.ordinal
              ≡ p.records ++ (parsed.0 ∷ requests_in rt lines (suc p.ordinal)))
            (some-injective _ out h2)
            (append_assoc p.records (parsed.0 ∷ []) (requests_in rt lines (suc p.ordinal))))
  ]

  cut-requests :
      (limits : Limits) (so : ℕ) (out : Pass × Bool) (rest : List RequestRecord)
      → all_requests (cut limits so out).0 ++ ((cut limits so out).1.records ++ rest)
        ≡ out.0.records ++ rest
  cut-requests limits so out rest = elim (cut-cases limits so out) [
    | inl room ↦ rw room refl
    | inr full ↦ rw full (ap (λ x. x ++ rest) (append-nil out.0.records))
  ]

  cut-ordinal :
      (limits : Limits) (so : ℕ) (out : Pass × Bool) → (cut limits so out).1.ordinal ≡ out.0.ordinal
  cut-ordinal limits so out = elim (cut-cases limits so out) [
    | inl room ↦ rw room refl
    | inr full ↦ rw full refl
  ]

  read_lines-step :
      (limits : Limits) (so : ℕ) (line : Bytes) (lines : List Bytes) (p : Pass) (out : Pass × Bool)
      → is_complete line ≡ true
      → take_line rt line p ≡ some out
      → (read_lines rt limits so (line ∷ lines) p).0
        ≡ (cut limits so out).0 ++ (read_lines rt limits so lines (cut limits so out).1).0
  unfolding read_lines
  read_lines-step limits so line lines p out whole e = rw (whole, e, read_lines) refl

  read_lines-requests :
      (limits : Limits) (so : ℕ) (lines : List Bytes) (p q : Pass)
      → (read_lines rt limits so lines p).1 ≡ some q
      → all_requests (read_lines rt limits so lines p).0 ++ q.records
        ≡ p.records ++ requests_in rt lines p.ordinal
  unfolding read_lines requests_in
  read_lines-requests limits so [] p q h =
      ap (λ (x : Pass). x.records) (sym (some-injective p q h)) ∙ sym (append-nil p.records)
  read_lines-requests limits so (line ∷ lines) p q h = elim (Bool-cases (is_complete line)) [
    | inr torn ↦
        let same = some-injective p q (rw (torn, read_lines) at h) in
        rw (torn, read_lines, requests_in)
          (ap (λ (x : Pass). x.records) (sym same) ∙ sym (append-nil p.records))
    | inl whole ↦ elim (Option-cases (take_line rt line p)) [
      | inl raised ↦ absurd (cc (rw (whole, raised, read_lines) at h))
      | inr (out, e) ↦
          let later =
            read_lines-requests limits so lines (cut limits so out).1 q
              (rw (whole, e, read_lines) at h) in
          let more = (read_lines rt limits so lines (cut limits so out).1).0 in
          let first = (cut limits so out).0 in
          ap (λ x. all_requests x ++ q.records) (read_lines-step limits so line lines p out whole e)
          ∙ ap (λ x. x ++ q.records) (all_requests-append first more)
          ∙ append_assoc (all_requests first) (all_requests more) q.records
          ∙ ap (λ x. all_requests first ++ x) later
          ∙ cut-requests limits so out (requests_in rt lines (cut limits so out).1.ordinal)
          ∙ ap (λ n. out.0.records ++ requests_in rt lines n) (cut-ordinal limits so out)
          ∙ take_line-requests line lines p out whole e
    ]
  ]

  last_chunk-requests :
      (old : ℕ) (p : Pass) (strings : ℕ × Accumulator)
      → all_requests (last_chunk old p strings) ≡ p.records
  unfolding last_chunk
  last_chunk-requests old p (so, blobs) =
      elim (Bool-cases (eqb (length p.records) 0 && (eqb blobs.pending_bytes 0 && eqb so old))) [
        | inl idle ↦ rw (idle, last_chunk) (sym (length-nil p.records (ground arith)))
        | inr new ↦ rw (new, last_chunk) (append-nil p.records)
      ]

  -- Whatever the limits on a chunk, a reading that ends without an exception yields the requests of
  -- the complete lines past the offset, each line parsed by itself and numbered from the record
  -- count of the state: none is lost, doubled or moved where a chunk is cut, and blank lines and
  -- lines that are no JSON object take no number.
  pub read_ingest_chunks-requests :
      (limits : Limits) (messages : Bytes) (strings : Option Bytes) (state : SessionState)
      → (read_ingest_chunks rt limits (some messages) strings state).1 ≡ true
      → all_requests (read_ingest_chunks rt limits (some messages) strings state).0
        ≡ requests_in rt
            (split_lines (drop state.messages_offset messages))
            state.summary.record_count
  unfolding read_ingest_chunks
  read_ingest_chunks-requests limits messages strings state h =
      let so = state.strings_offset in
      let lines = split_lines (drop state.messages_offset messages) in
      let reading = read_lines rt limits so lines (start state) in
      elim (Option-cases reading.1) [
        | inl raised ↦ cc (rw raised at h)
        | inr (q, e) ↦
            let tail = last_chunk so q (read_strings rt (strings_past strings so) so q.blobs) in
            ap
              (λ x.
                all_requests
                  (ended reading.0 x (λ p.
                    last_chunk so p (read_strings rt (strings_past strings so) so p.blobs))).0)
              e
            ∙ all_requests-append reading.0 tail
            ∙ ap (λ x. all_requests reading.0 ++ x)
                (last_chunk-requests so q (read_strings rt (strings_past strings so) so q.blobs))
            ∙ read_lines-requests limits so lines (start state) q e
      ]
