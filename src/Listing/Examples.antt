-- ===== src/Listing/Examples.antt =====
-- Two sessions, one of them served by two providers, and a row without records.
use Prim.Native.Nat.{◌*◌, ◌/◌}
use claude_agent_wrap.Prelude.{
  ℕ, ◌+◌, ◌≡◌, none, some, List, [], ◌∷◌, Text, codes, sum_by, keep, text_beq, text_eq, ltb, leb,
}
use claude_agent_wrap.Prelude.Dict.{get, or_else}
use claude_agent_wrap.Prelude.Floats.{Floats}
use claude_agent_wrap.Listing.Sessions.{SessionRow, merge_sessions, rows_by_hash}
use claude_agent_wrap.Listing.Counted.{merge_sessions_records}
use claude_agent_wrap.Listing.Grouped.{rows_by_hash_owned}

abbrev naturals : Floats
naturals = record {
  Num = ℕ;
  zero = 0;
  infinity = 1_000_000;
  of_nat = λ n. n;
  plus = λ a b. a + b;
  times = λ a b. a * b;
  over = λ a b. a / b;
  below = ltb;
  at_most = leb;
}

abbrev row : Text → Text → Text → ℕ → SessionRow
row project provider session records = record {
  key = record { project_hash = project; provider = provider; claude_session_id = session };
  alias = none;
  title = some session;
  last_event_at_us = some 7_000_000;
  last_ingested_ns = 5;
  record_count = records;
  models = codes "opus" ∷ [];
}

abbrev rows : List SessionRow
rows =
    row (codes "p") (codes "litellm") (codes "s1") 3
    ∷ row (codes "p") (codes "bedrock") (codes "s1") 4
    ∷ row (codes "q") (codes "litellm") (codes "s2") 1
    ∷ row (codes "q") (codes "litellm") (codes "s3") 0
    ∷ []

merge_sessions_records_example :
    sum_by (λ meta. meta.count) (merge_sessions naturals rows) ≡ sum_by (λ r. r.record_count) rows
merge_sessions_records_example = merge_sessions_records naturals rows

rows_by_hash_owned_example :
    or_else (get (codes "q") (rows_by_hash rows)) []
    ≡ keep (λ r. text_beq r.key.project_hash (codes "q")) rows
rows_by_hash_owned_example = rows_by_hash_owned rows (codes "q")
