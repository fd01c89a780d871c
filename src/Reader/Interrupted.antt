-- ===== src/Reader/Interrupted.antt =====
-- On `read_ingest_chunks`: a pass that stops after any of its chunks, and the next.
use mathlib.Core.List.{append-nil}
use claude_agent_wrap.Prelude.{
  ℕ, refl, sym, ap, subst, ◌∙◌, inl, inr, Option, some, List, [], ◌∷◌, ◌++◌, Bool-cases,
  Option-cases, length, drop, eqb, ◌&&◌,
}
use claude_agent_wrap.LogIndex.Codec.{Bytes}
use claude_agent_wrap.LogIndex.Ingest.{RequestRecord, IngestChunk, SessionState}
use claude_agent_wrap.Reader.Json.{Runtime}
use claude_agent_wrap.Reader.Parser.{Accumulator}
use claude_agent_wrap.Reader.Chunks.{
  split_lines, is_complete, Limits, Pass, emptied, cut, take_line, read_lines, read_strings,
  strings_past, last_chunk, start, read_ingest_chunks,
}
use claude_agent_wrap.Reader.Passes.{cut-cases}
use claude_agent_wrap.Reader.Uncut.{requests_in}
use claude_agent_wrap.Reader.Passes.{finish, ended-finish, finish-append}
use claude_agent_wrap.Reader.Resume.{Resumes, IsAt, chunk_of-Resumes, take_line-IsAt}

module _ (rt : Runtime) (file : Bytes) (whole : List RequestRecord) where
  emptied-IsAt :
      (done : List RequestRecord) (lines : List Bytes) (p : Pass)
      → IsAt rt file whole done lines p
      → IsAt rt file whole (done ++ p.records) lines (emptied p)
  emptied-IsAt done lines p at = record {
    left = at.left;
    counted = at.counted;
    total =
        ap (λ x. x ++ requests_in rt lines p.ordinal) (append-nil (done ++ p.records)) ∙ at.total;
  }

  module _ (limits : Limits) (so : ℕ) (after : Pass → List IngestChunk)
      (after_ok : (done : List RequestRecord) (lines : List Bytes) (p : Pass)
        → IsAt rt file whole done lines p
        → Resumes rt file whole done (after p)) where
    read_lines-Resumes :
        (lines : List Bytes) (done : List RequestRecord) (p : Pass)
        → IsAt rt file whole done lines p
        → Resumes rt file whole done
            (finish (read_lines rt limits so lines p).0 (read_lines rt limits so lines p).1 after)
    unfolding read_lines
    read_lines-Resumes [] done p at = after_ok done [] p at
    read_lines-Resumes (line ∷ lines) done p at = elim (Bool-cases (is_complete line)) [
      | inr torn ↦ rw (torn, read_lines) (after_ok done (line ∷ lines) p at)
      | inl complete ↦ elim (Option-cases (take_line rt line p)) [
        | inl raised ↦ rw (complete, raised, read_lines) tt
        | inr (out, e) ↦
            let at' = take_line-IsAt rt file whole done line lines p out complete at e in
            rw (complete, e, read_lines)
              (subst (Resumes rt file whole done)
                (sym (finish-append (cut limits so out).0 _ _ after))
                (elim (cut-cases limits so out) [
                  | inl room ↦ rw room (read_lines-Resumes lines done out.0 at')
                  | inr full ↦ rw full (
                    chunk_of-Resumes rt file whole done lines so out.0 at',
                    read_lines-Resumes lines (done ++ out.0.records) (emptied out.0)
                        (emptied-IsAt done lines out.0 at'),
                  )
                ]))
      ]
    ]

  last_chunk-Resumes :
      (old : ℕ) (done : List RequestRecord) (lines : List Bytes) (p : Pass)
      (strings : ℕ × Accumulator)
      → IsAt rt file whole done lines p
      → Resumes rt file whole done (last_chunk old p strings)
  unfolding last_chunk
  last_chunk-Resumes old done lines p (so, blobs) at =
      elim (Bool-cases (eqb (length p.records) 0 && (eqb blobs.pending_bytes 0 && eqb so old))) [
        | inl idle ↦ rw (idle, last_chunk) tt
        | inr new ↦ rw (new, last_chunk) (chunk_of-Resumes rt file whole done lines so p at, tt)
      ]

-- A pass may stop after any of its chunks: for each of them, the requests of the chunks up to it and
-- those of the complete lines past its messages offset, numbered from its record count, are
-- together the requests of the complete lines past the offset that the pass began at.
pub read_ingest_chunks-Resumes :
    (rt : Runtime) (limits : Limits) (messages : Bytes) (strings : Option Bytes)
    (state : SessionState)
    → Resumes rt messages
        (requests_in rt
          (split_lines (drop state.messages_offset messages))
          state.summary.record_count)
        []
        (read_ingest_chunks rt limits (some messages) strings state).0
unfolding read_ingest_chunks
read_ingest_chunks-Resumes rt limits messages strings state =
    let so = state.strings_offset in
    let lines = split_lines (drop state.messages_offset messages) in
    let whole = requests_in rt lines state.summary.record_count in
    let after : Pass → List IngestChunk =
      λ p. last_chunk so p (read_strings rt (strings_past strings so) so p.blobs) in
    subst (Resumes rt messages whole [])
      (ended-finish (read_lines rt limits so lines (start state)).0
        (read_lines rt limits so lines (start state)).1 after)
      (read_lines-Resumes rt messages whole limits so after
        (λ done ls p at.
          last_chunk-Resumes rt messages whole so done ls p
            (read_strings rt (strings_past strings so) so p.blobs) at)
        lines [] (start state) (record { left = refl; counted = refl; total = refl }))
