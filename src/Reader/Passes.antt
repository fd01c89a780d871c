-- ===== src/Reader/Passes.antt =====
-- On the loops of `read_ingest_chunks`: the chunks of a whole pass, in their order.
use mathlib.Core.List.{append_assoc}
use claude_agent_wrap.Prelude.{
  ℕ, ◌+◌, ◌≡◌, refl, sym, subst, ◌⊎◌, inl, inr, Bool, Option, none, some, List, [], ◌∷◌, ◌++◌,
  Bool-cases, Option-cases, length, drop, eqb, codes, ◌&&◌, arith,
}
use claude_agent_wrap.LogIndex.Codec.{Bytes}
use claude_agent_wrap.LogIndex.Ingest.{IngestChunk, SessionState, requests_addresses}
use claude_agent_wrap.LogIndex.Ingest.Apply.{are_digests}
use claude_agent_wrap.LogIndex.Ingest.Returns.{last}
use claude_agent_wrap.Reader.Json.{Fields, Runtime, find, text_of}
use claude_agent_wrap.Reader.Parser.{Accumulator}
use claude_agent_wrap.Reader.Chunks.{
  split_lines, is_complete, Limits, Pass, chunk_of, emptied, is_full, cut, record_of, take_line,
  read_lines, string_entry, string_line, read_strings, strings_past, last_chunk, start, ended,
  read_ingest_chunks,
}
use claude_agent_wrap.Reader.Carried.{
  shas, Grows, Grows-refl, Grows-trans, add_interned_string-Grows,
}
use claude_agent_wrap.Reader.Ready.{
  AreReady, nothing, one_more, IsSteady, chunk_of-IsReady, emptied-IsSteady, take_line-IsSteady,
}

-- The chunks of the lines, and those of what follows if the lines end without an exception.
abbrev pub finish : List IngestChunk → Option Pass → (Pass → List IngestChunk) → List IngestChunk
finish chunks none after = chunks
finish chunks (some p) after = chunks ++ after p

pub ended-finish :
    (cs : List IngestChunk) (end : Option Pass) (after : Pass → List IngestChunk)
    → finish cs end after ≡ (ended cs end after).0
ended-finish cs none after = refl
ended-finish cs (some p) after = refl

pub finish-append :
    (cs ds : List IngestChunk) (end : Option Pass) (after : Pass → List IngestChunk)
    → finish (cs ++ ds) end after ≡ cs ++ finish ds end after
finish-append cs ds none after = refl
finish-append cs ds (some p) after = append_assoc cs ds (after p)

pub cut-cases :
    (limits : Limits) (so : ℕ) (out : Pass × Bool)
    → (cut limits so out ≡ ([], out.0))
      ⊎ (cut limits so out ≡ (chunk_of out.0 so ∷ [], emptied out.0))
unfolding cut
cut-cases limits so (p, grown) = elim (Bool-cases (grown && is_full limits p)) [
  | inl full ↦ inr (rw full refl)
  | inr room ↦ inl (rw room refl)
]

grown-IsSteady :
    (known : List Bytes) (first : ℕ) (p : Pass) (blobs : Accumulator)
    → Grows p.blobs blobs
    → IsSteady known first p
    → IsSteady known first (record p { blobs = blobs })
grown-IsSteady known first p blobs g s = record {
  carried = λ a m. elim (g.carried a m) [
    | inr new ↦ inl new
    | inl old ↦ elim (s.carried a old) [ inl l ↦ inl (g.pending_kept a l) | inr l ↦ inr l ]
  ];
  named = λ a m. g.seen_kept a (s.named a m);
  digests = g.digests s.digests;
  fits = s.fits;
  consecutive = s.consecutive;
  ordinal = s.ordinal;
  counted = s.counted;
}

module _ (rt : Runtime) (whole : (b : Bytes) → length (rt.sha256 b) ≡ 32) where
  string_entry-Grows :
      (entry : Fields) (blobs : Accumulator) → Grows blobs (string_entry rt entry blobs)
  unfolding string_entry
  string_entry-Grows entry blobs = elim (Option-cases (text_of (find (codes "hash") entry))) [
    | inl e ↦ rw (e, string_entry) (Grows-refl blobs)
    | inr (pointer, e) ↦ elim (Option-cases (text_of (find (codes "original") entry))) [
      | inl f ↦ rw (e, f, string_entry) (Grows-refl blobs)
      | inr (original, f) ↦
          rw (e, f, string_entry) (add_interned_string-Grows rt whole pointer original blobs)
    ]
  ]

  string_line-Grows : (line : Bytes) (blobs : Accumulator) → Grows blobs (string_line rt line blobs)
  unfolding string_line
  string_line-Grows line blobs = elim (Option-cases (record_of rt line)) [
    | inl blank ↦ rw (blank, string_line) (Grows-refl blobs)
    | inr (entry, e) ↦ rw (e, string_line) (string_entry-Grows entry blobs)
  ]

  read_strings-Grows :
      (lines : List Bytes) (offset : ℕ) (blobs : Accumulator)
      → Grows blobs (read_strings rt lines offset blobs).1
  unfolding read_strings
  read_strings-Grows [] offset blobs = Grows-refl blobs
  read_strings-Grows (line ∷ lines) offset blobs = elim (Bool-cases (is_complete line)) [
    | inr torn ↦ rw (torn, read_strings) (Grows-refl blobs)
    | inl complete ↦
        rw (complete, read_strings)
          (Grows-trans blobs (string_line rt line blobs) _ (string_line-Grows line blobs)
            (read_strings-Grows lines (offset + length line) (string_line rt line blobs)))
  ]

  module _ (limits : Limits) (so : ℕ) (after : Pass → List IngestChunk)
      (after_ready : (known : List Bytes) (n : ℕ) (p : Pass)
        → IsSteady known n p
        → AreReady known n (after p)) where
    read_lines-AreReady :
        (lines : List Bytes) (known : List Bytes) (first : ℕ) (p : Pass)
        → IsSteady known first p
        → AreReady known first
            (finish (read_lines rt limits so lines p).0 (read_lines rt limits so lines p).1 after)
    unfolding read_lines
    read_lines-AreReady [] known first p s = after_ready known first p s
    read_lines-AreReady (line ∷ lines) known first p s = elim (Bool-cases (is_complete line)) [
      | inr torn ↦ rw (torn, read_lines) (after_ready known first p s)
      | inl complete ↦ elim (Option-cases (take_line rt line p)) [
        | inl raised ↦ rw (complete, raised, read_lines) (nothing known first)
        | inr (out, e) ↦
            let steady = take_line-IsSteady rt whole known first line p out s e in
            rw (complete, e, read_lines)
              (subst (AreReady known first) (sym (finish-append (cut limits so out).0 _ _ after))
                (elim (cut-cases limits so out) [
                  | inl room ↦ rw room (read_lines-AreReady lines known first out.0 steady)
                  | inr full ↦ rw full (
                      one_more known first (chunk_of out.0 so) _
                        (chunk_of-IsReady known first so out.0 steady)
                        (subst
                          (λ n. AreReady (known ++ shas out.0.blobs.pending) n (
                            finish (read_lines rt limits so lines (emptied out.0)).0
                              (read_lines rt limits so lines (emptied out.0)).1 after))
                          steady.ordinal
                          (read_lines-AreReady lines _ out.0.ordinal (emptied out.0)
                            (emptied-IsSteady known first out.0 steady))))
                ]))
      ]
    ]

  last_chunk-AreReady :
      (old : ℕ) (known : List Bytes) (n : ℕ) (p : Pass) (strings : ℕ × Accumulator)
      → Grows p.blobs strings.1
      → IsSteady known n p
      → AreReady known n (last_chunk old p strings)
  unfolding last_chunk
  last_chunk-AreReady old known n p (so, blobs) g s =
      elim (Bool-cases (eqb (length p.records) 0 && (eqb blobs.pending_bytes 0 && eqb so old))) [
        | inl idle ↦ rw (idle, last_chunk) (nothing known n)
        | inr new ↦
            let p' : Pass = record p { blobs = blobs } in
            rw (new, last_chunk)
              (one_more known n (chunk_of p' so) []
                (chunk_of-IsReady known n so p' (grown-IsSteady known n p blobs g s)) (nothing _ _))
      ]

  start-IsSteady : (state : SessionState) → IsSteady [] state.summary.record_count (start state)
  unfolding requests_addresses are_digests
  start-IsSteady state = record {
    carried = λ a m. absurd m;
    named = λ a m. absurd m;
    digests = refl;
    fits = λ r m. absurd m;
    consecutive = last state.summary.record_count;
    ordinal = omega arith;
    counted = refl;
  }

  -- What the index asks of a chunk holds of every chunk that a reading of a session yields, whatever
  -- the two files hold and even if the reading ends with an exception: each address that a request
  -- names is carried by this chunk or by an earlier one, addresses have 32 bytes, no split of the
  -- cache writes is wider than its total, the ordinals go on from the record count of the state one
  -- by one, and the record count of each chunk is the number of the requests up to it. SHA-256 gives
  -- 32 bytes.
  pub read_ingest_chunks-AreReady :
      (limits : Limits) (messages strings : Option Bytes) (state : SessionState)
      → AreReady [] state.summary.record_count
          (read_ingest_chunks rt limits messages strings state).0
  unfolding read_ingest_chunks
  read_ingest_chunks-AreReady limits none strings state = nothing [] state.summary.record_count
  read_ingest_chunks-AreReady limits (some messages) strings state =
      let lines = split_lines (drop state.messages_offset messages) in
      let after : Pass → List IngestChunk = λ p. last_chunk state.strings_offset p (
        read_strings rt (strings_past strings state.strings_offset) state.strings_offset p.blobs) in
      subst (AreReady [] state.summary.record_count)
        (ended-finish (read_lines rt limits state.strings_offset lines (start state)).0
          (read_lines rt limits state.strings_offset lines (start state)).1 after)
        (read_lines-AreReady limits state.strings_offset after
          (λ known n p s.
            last_chunk-AreReady state.strings_offset known n p _
              (read_strings-Grows (strings_past strings state.strings_offset) state.strings_offset
                p.blobs)
              s)
          lines [] state.summary.record_count (start state) (start-IsSteady state))
