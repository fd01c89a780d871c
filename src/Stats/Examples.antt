-- ===== src/Stats/Examples.antt =====
-- A fold of three cells, two of them in the window.
use Prim.Native.Nat.{◌*◌, ◌/◌}
use claude_agent_wrap.Prelude.{
  ℤ, pos, negsuc, ℕ, ◌+◌, ◌≡◌, Option, none, some, List, [], ◌∷◌, Text, codes, sum_by, keep,
  text_beq, if◌then◌else◌, ltb, leb,
}
use claude_agent_wrap.Prelude.Floats.{Floats}
use claude_agent_wrap.Stats.Days.{Calendar}
use claude_agent_wrap.Stats.Fold.{UsageCell, Pricing, counted, fold_cells, unrecoverable_source}
use claude_agent_wrap.Stats.Conserved.{total_usage, fold_cells_conserved}

abbrev naturals : Floats
naturals = record {
  Num = ℕ;
  zero = 0;
  infinity = 1_000_000;
  of_nat = λ n. n;
  plus = λ a b. a + b;
  times = λ a b. a * b;
  over = λ a b. a / b;
  below = ltb;
  at_most = leb;
}

-- An instant is its second; the date is the number of its day, as one character.
abbrev calendar : Calendar
calendar = record {
  Instant = ℕ;
  from_timestamp = λ s. elim s [ pos n ↦ n | negsuc n ↦ 0 ];
  less_day_start = λ s. s;
  iso_date = λ s. (s / 86400) ∷ [];
  weekday = λ s. s / 86400;
  hour = λ s. s / 3600;
}

abbrev pricing : Pricing ℕ
pricing = record {
  normalize_model = λ t. none;
  compute_cost = λ provider model usage hour weekday. some 7;
}

abbrev cell_at : Option ℤ → Text → UsageCell
cell_at bucket source = record {
  hour_bucket = bucket;
  project_hash = codes "abc";
  provider = codes "litellm";
  session_id = 1;
  model = codes "claude-opus";
  usage_source = source;
  requests = 2;
  last_started_at_us = none;
  input_tokens = 30;
  output_tokens = 4;
  cache_write_tokens = 5;
  cache_write_5m = 5;
  cache_write_1h = 0;
  cache_read = 6;
}

abbrev cells : List UsageCell
cells =
    cell_at (some (pos 25)) (codes "response")
    ∷ cell_at (some (pos 26)) (codes "unrecoverable")
    ∷ cell_at none (codes "response")
    ∷ []

abbrev from_day : Option Text
from_day = some (1 ∷ [])

fold_cells_conserved_example :
    let usages = fold_cells naturals calendar pricing from_day none cells in
    let inside = keep (counted calendar from_day none) cells in
    (total_usage naturals (λ b. b.msgs) usages ≡ sum_by (λ cell. cell.requests) inside)
    × (total_usage naturals (λ b. b.in_) usages ≡ sum_by (λ cell. cell.input_tokens) inside)
    × (total_usage naturals (λ b. b.out) usages ≡ sum_by (λ cell. cell.output_tokens) inside)
    × (total_usage naturals (λ b. b.cr) usages ≡ sum_by (λ cell. cell.cache_read) inside)
    × (total_usage naturals (λ b. b.unrecorded) usages
        ≡ sum_by
            (λ cell. if text_beq cell.usage_source unrecoverable_source then cell.requests else 0)
            inside)
fold_cells_conserved_example = fold_cells_conserved naturals calendar pricing from_day none cells
