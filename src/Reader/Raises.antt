-- ===== src/Reader/Raises.antt =====
-- On the records that end a reading.
use claude_agent_wrap.Prelude.{
  ℕ, ◌≡◌, refl, sym, ◌∙◌, inl, inr, true, false, Option, none, some, >>=-some, List, [], ◌∷◌,
  Option-cases, drop, codes,
}
use claude_agent_wrap.LogIndex.Codec.{Bytes}
use claude_agent_wrap.LogIndex.Ingest.{SessionSummary, SessionState}
use claude_agent_wrap.Reader.Json.{Fields, Runtime, find, fields_or, to_micros}
use claude_agent_wrap.Reader.Records.{has_key, extract_named, extract_alias}
use claude_agent_wrap.Reader.Chunks.{
  split_lines, is_complete, Limits, Pass, advanced, observe, record_of, take_record, take_line,
  read_lines, start, ended, read_ingest_chunks,
}

module _ (rt : Runtime) where
  extract_alias-none :
      (rec : Fields) → has_key (codes "response") rec ≡ false → extract_alias rt rec ≡ none
  unfolding extract_alias extract_named
  extract_alias-none rec missing = rw missing refl

  observe-none :
      (rec : Fields) (s : SessionSummary)
      → has_key (codes "response") rec ≡ false
      → observe rt rec s ≡ none
  unfolding observe
  observe-none rec s missing = elim (Option-cases (observe rt rec s)) [
    | inl raised ↦ raised
    | inr (s', h) ↦
        let (timing, _, h1) = >>=-some (fields_or rt (find (codes "timing") rec)) _ s' h in
        let (ended, _, h2) = >>=-some (to_micros rt (find (codes "end") timing)) _ s' h1 in
        let (alias, e, h3) = >>=-some (extract_alias rt rec) _ s' h2 in
        absurd (cc (sym e ∙ extract_alias-none rec missing))
  ]

  take_record-none :
      (rec : Fields) (p : Pass)
      → has_key (codes "response") rec ≡ false
      → take_record rt rec p ≡ none
  unfolding take_record
  take_record-none rec p missing = rw (observe-none rec p.summary missing) refl

  take_line-none :
      (line : Bytes) (rec : Fields) (p : Pass)
      → record_of rt line ≡ some rec
      → has_key (codes "response") rec ≡ false
      → take_line rt line p ≡ none
  unfolding take_line
  take_line-none line rec p object missing =
      rw (object, take_line) (take_record-none rec (advanced line p) missing)

  read_lines-none :
      (limits : Limits) (so : ℕ) (line : Bytes) (lines : List Bytes) (p : Pass)
      → is_complete line ≡ true
      → take_line rt line p ≡ none
      → read_lines rt limits so (line ∷ lines) p ≡ ([], none)
  unfolding read_lines
  read_lines-none limits so line lines p whole raised = rw (whole, raised, read_lines) refl

  -- The first line past the offset, when it is a JSON object without a response, ends the reading
  -- with an exception before any chunk.
  pub read_ingest_chunks_raises :
      (limits : Limits) (messages : Bytes) (strings : Option Bytes) (state : SessionState)
      (line : Bytes) (lines : List Bytes) (rec : Fields)
      → split_lines (drop state.messages_offset messages) ≡ line ∷ lines
      → is_complete line ≡ true
      → record_of rt line ≡ some rec
      → has_key (codes "response") rec ≡ false
      → read_ingest_chunks rt limits (some messages) strings state ≡ ([], false)
  unfolding read_ingest_chunks
  read_ingest_chunks_raises limits messages strings state line lines rec split whole object
        missing =
      let raised : read_lines rt limits state.strings_offset (line ∷ lines) (start state)
          ≡ ([], none) =
        read_lines-none limits state.strings_offset line lines (start state) whole
          (take_line-none line rec (start state) object missing) in
      rw (split, raised) refl
