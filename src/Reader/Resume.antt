-- ===== src/Reader/Resume.antt =====
-- On `read_ingest_chunks`: what is left to read after each chunk.
use mathlib.Core.Option.{some-injective}
use mathlib.Core.List.{append_assoc}
use claude_agent_wrap.Prelude.{
  ℕ, zero, suc, ◌+◌, ◌≡◌, refl, sym, ap, subst, ◌∙◌, ◌⊎◌, inl, inr, Bool, true, false, some,
  >>=-some, List, [], ◌∷◌, ◌++◌, Bool-cases, Option-cases, length, drop, eqb, arith,
}
use claude_agent_wrap.LogIndex.Codec.{Bytes}
use claude_agent_wrap.LogIndex.Ingest.{RequestRecord, IngestChunk}
use claude_agent_wrap.Reader.Json.{Runtime}
use claude_agent_wrap.Reader.Parser.{parse}
use claude_agent_wrap.Reader.Chunks.{
  split_lines, onto_line, snapshot, is_complete, Pass, advanced, observe, record_of, take_record,
  take_line,
}
use claude_agent_wrap.Reader.Uncut.{requests_in, take_line-requests}
use claude_agent_wrap.Reader.Ready.{observe-counted}

drop-nil : {A : Type 0} (k : ℕ) → drop {A = A} k [] ≡ []
drop-nil zero = refl
drop-nil (suc k) = refl

drop-drop : {A : Type 0} (m n : ℕ) (xs : List A) → drop n (drop m xs) ≡ drop (m + n) xs
drop-drop zero n xs = ap (λ k. drop k xs) (omega arith)
drop-drop (suc m) n [] = drop-nil n ∙ sym (drop-nil (suc m + n))
drop-drop (suc m) n (x ∷ xs) =
    drop-drop m n xs ∙ ap (λ k. drop k (x ∷ xs)) {x = suc (m + n)} {y = suc m + n} (omega arith)

List-cases : {A : Type 0} (xs : List A) → (xs ≡ []) ⊎ ((y : A) × (ys : List A) × (xs ≡ y ∷ ys))
List-cases [] = inl refl
List-cases (x ∷ xs) = inr (x, xs, refl)

onto_line_ne : (b : ℕ) (xs lines : List Bytes) → ¬ (onto_line b xs ≡ [] ∷ lines)
onto_line_ne b [] lines h = cc
onto_line_ne b (l ∷ ls) lines h = cc

split_lines_ne : (bs : Bytes) (lines : List Bytes) → ¬ (split_lines bs ≡ [] ∷ lines)
unfolding split_lines
split_lines_ne [] lines h = cc
split_lines_ne (b ∷ bs) lines h = elim (Bool-cases (eqb b b'\n')) [
  | inl newline ↦ cc (rw newline at h)
  | inr other ↦ onto_line_ne b (split_lines bs) lines (rw other at h)
]

-- Past a complete line, the lines are those that follow it.
split_lines-drop :
    (bs line : Bytes) (lines : List Bytes)
    → split_lines bs ≡ line ∷ lines
    → is_complete line ≡ true
    → split_lines (drop (length line) bs) ≡ lines
unfolding split_lines is_complete
split_lines-drop [] line lines h whole = cc
split_lines-drop (b ∷ bs) line lines h whole = elim (Bool-cases (eqb b b'\n')) [
  | inl newline ↦
      let first : b ∷ [] ≡ line = cc (rw newline at h) in
      let rest : split_lines bs ≡ lines = cc (rw newline at h) in
      subst (λ l. split_lines (drop (length l) (b ∷ bs)) ≡ lines) first rest
  | inr other ↦ elim (List-cases (split_lines bs)) [
    | inl none_left ↦
        let g : (b ∷ []) ∷ [] ≡ line ∷ lines = rw none_left at (rw other at h) in
        let first : b ∷ [] ≡ line = cc g in
        absurd (cc (sym other ∙ subst (λ l. is_complete l ≡ true) (sym first) whole))
    | inr ([], ls, e) ↦ absurd (split_lines_ne bs ls e)
    | inr (c ∷ l, ls, e) ↦
        let g : (b ∷ c ∷ l) ∷ ls ≡ line ∷ lines = rw e at (rw other at h) in
        let first : b ∷ c ∷ l ≡ line = cc g in
        let rest : ls ≡ lines = cc g in
        subst (λ x. split_lines (drop (length x) (b ∷ bs)) ≡ lines) first
          (split_lines-drop bs (c ∷ l) ls e (subst (λ x. is_complete x ≡ true) (sym first) whole)
            ∙ rest)
  ]
]

-- After each chunk, what the chunks so far have and what is past its offset make up the whole.
abbrev pub Resumes :
    Runtime → Bytes → List RequestRecord → List RequestRecord → List IngestChunk → Type 0
Resumes rt file whole done [] = Unit
Resumes rt file whole done (c ∷ cs) =
    ((done ++ c.requests)
        ++ requests_in rt (split_lines (drop c.messages_offset file)) c.summary.record_count
      ≡ whole)
    × Resumes rt file whole (done ++ c.requests) cs

-- A line moves the offset past it, and what is counted stays the next ordinal.
take_line-moves :
    (rt : Runtime) (line : Bytes) (p : Pass) (out : Pass × Bool)
    → p.summary.record_count ≡ p.ordinal
    → take_line rt line p ≡ some out
    → (out.0.offset ≡ p.offset + length line) × (out.0.summary.record_count ≡ out.0.ordinal)
unfolding take_line take_record
take_line-moves rt line p out counted h = elim (Option-cases (record_of rt line)) [
  | inl blank ↦
      subst
        (λ (x : Pass × Bool).
          (x.0.offset ≡ p.offset + length line) × (x.0.summary.record_count ≡ x.0.ordinal))
        (some-injective (advanced line p, false) out (rw (blank, take_line) at h)) (refl, counted)
  | inr (rec, e) ↦
      let h0 : take_record rt rec (advanced line p) ≡ some out = rw (e, take_line) at h in
      let (summary, f, h1) = >>=-some (observe rt rec p.summary) _ out h0 in
      let (parsed, _, h2) = >>=-some (parse rt rec p.ordinal p.blobs) _ out h1 in
      subst
        (λ (x : Pass × Bool).
          (x.0.offset ≡ p.offset + length line) × (x.0.summary.record_count ≡ x.0.ordinal))
        (some-injective _ out h2)
        (refl, observe-counted rt rec p.summary summary f ∙ ap suc counted)
]

module _ (rt : Runtime) (file : Bytes) (whole : List RequestRecord) where
  -- What holds between two lines.
  pub record IsAt (done : List RequestRecord) (lines : List Bytes) (p : Pass) : Type 0 where
    pub left : split_lines (drop p.offset file) ≡ lines
    pub counted : p.summary.record_count ≡ p.ordinal
    pub total : (done ++ p.records) ++ requests_in rt lines p.ordinal ≡ whole

  pub chunk_of-Resumes :
      (done : List RequestRecord) (lines : List Bytes) (so : ℕ) (p : Pass)
      → IsAt done lines p
      → (done ++ p.records)
          ++ requests_in rt (split_lines (drop p.offset file)) (snapshot p.summary).record_count
        ≡ whole
  unfolding snapshot
  chunk_of-Resumes done lines so p at =
      ap (λ x. (done ++ p.records) ++ requests_in rt x p.summary.record_count) at.left
      ∙ ap (λ n. (done ++ p.records) ++ requests_in rt lines n) at.counted
      ∙ at.total

  pub take_line-IsAt :
      (done : List RequestRecord) (line : Bytes) (lines : List Bytes) (p : Pass) (out : Pass × Bool)
      → is_complete line ≡ true
      → IsAt done (line ∷ lines) p
      → take_line rt line p ≡ some out
      → IsAt done lines out.0
  take_line-IsAt done line lines p out complete at h =
      let (moved, count) = take_line-moves rt line p out at.counted h in
      record {
        left =
            ap (λ k. split_lines (drop k file)) moved
            ∙ ap split_lines (sym (drop-drop p.offset (length line) file))
            ∙ split_lines-drop (drop p.offset file) line lines at.left complete;
        counted = count;
        total =
            append_assoc done out.0.records _
            ∙ ap (λ x. done ++ x) (take_line-requests rt line lines p out complete h)
            ∙ sym (append_assoc done p.records _)
            ∙ at.total;
      }
