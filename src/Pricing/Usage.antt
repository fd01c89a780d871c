-- ===== src/Pricing/Usage.antt =====
-- agent_wrap/domain/pricing/models.py and the bucket methods of service.py: a request's token
-- counts, and the buckets that they are totalled in.
use claude_agent_wrap.Prelude.{
  ℕ, ◌+◌, String, Bool, true, false, ◌||◌, Option, none, some, List, [], ◌∷◌, ltb, string_eq,
  if◌then◌else◌,
}
use claude_agent_wrap.Prelude.Dict.{Dict, get, or_else}
use claude_agent_wrap.Prelude.Floats.{Floats}

pub record TokenUsage : Type 0 where
  pub input_tokens : ℕ
  pub output_tokens : ℕ
  pub cache_creation_input_tokens : ℕ
  pub cache_read_input_tokens : ℕ
  pub cache_creation : Dict String ℕ

abbrev pub ephemeral_5m : String
ephemeral_5m = "ephemeral_5m_input_tokens"

abbrev pub ephemeral_1h : String
ephemeral_1h = "ephemeral_1h_input_tokens"

-- `d.get(k, 0)`
abbrev pub count_of : String → Dict String ℕ → ℕ
count_of k d = or_else (get k d) 0

-- The `(5m, 1h)` tiers charged for.
unfoldable pub cache_write_split : TokenUsage → ℕ × ℕ
cache_write_split usage =
    let cw_5m = count_of ephemeral_5m usage.cache_creation in
    let cw_1h = count_of ephemeral_1h usage.cache_creation in
    if ltb 0 cw_5m || ltb 0 cw_1h then (cw_5m, cw_1h) else (usage.cache_creation_input_tokens, 0)

pub record Bucket (Num : Type 0) : Type 0 where
  pub msgs : ℕ
  pub in_ : ℕ
  pub out : ℕ
  pub cw_5m : ℕ
  pub cw_1h : ℕ
  pub cr : ℕ
  pub cost : Num
  pub cost_unknown : Bool
  pub unrecorded : ℕ

module _ (fl : Floats) where
  open fl use {Num, zero, plus}

  -- `Bucket()`
  unfoldable pub new_bucket : Bucket Num
  new_bucket = record {
    msgs = 0;
    in_ = 0;
    out = 0;
    cw_5m = 0;
    cw_1h = 0;
    cr = 0;
    cost = zero;
    cost_unknown = false;
    unrecorded = 0;
  }

  -- The two statements at the end of `add`: a cost of `None` marks the bucket.
  abbrev pub add_cost : Option Num → Bucket Num → Bucket Num
  add_cost none b = record b { cost_unknown = true }
  add_cost (some c) b = record b { cost = plus b.cost c }

  unfoldable pub add : Bucket Num → TokenUsage → Option Num → Bool → Bucket Num
  add b usage request_cost unrecorded =
      let (cw_5m, cw_1h) = cache_write_split usage in
      add_cost request_cost (record b {
        msgs = b.msgs + 1;
        in_ = b.in_ + usage.input_tokens;
        out = b.out + usage.output_tokens;
        cw_5m = b.cw_5m + cw_5m;
        cw_1h = b.cw_1h + cw_1h;
        cr = b.cr + usage.cache_read_input_tokens;
        unrecorded = if unrecorded then b.unrecorded + 1 else b.unrecorded;
      })

  unfoldable pub merge : Bucket Num → Bucket Num → Bucket Num
  merge b other = record {
    msgs = b.msgs + other.msgs;
    in_ = b.in_ + other.in_;
    out = b.out + other.out;
    cw_5m = b.cw_5m + other.cw_5m;
    cw_1h = b.cw_1h + other.cw_1h;
    cr = b.cr + other.cr;
    cost = plus b.cost other.cost;
    cost_unknown = b.cost_unknown || other.cost_unknown;
    unrecorded = b.unrecorded + other.unrecorded;
  }

  -- The loop of `merged`.
  unfoldable pub merge_all : Bucket Num → List (Bucket Num) → Bucket Num
  merge_all total [] = total
  merge_all total (b ∷ bs) = merge_all (merge total b) bs

  unfoldable pub merged : List (Bucket Num) → Bucket Num
  unfolding new_bucket merge_all
  merged bs = merge_all new_bucket bs

  -- The property `cw`.
  abbrev pub cw : Bucket Num → ℕ
  cw b = b.cw_5m + b.cw_1h

  -- `bucket_from_usage`: `add` counts one message, and the counters are then set.
  unfoldable pub bucket_from_usage : TokenUsage → ℕ → ℕ → Bucket Num
  unfolding new_bucket add
  bucket_from_usage usage msgs unrecorded = record (add new_bucket usage (some zero) false) {
    msgs = msgs;
    unrecorded = unrecorded;
  }

  unfoldable pub usage_from_bucket : Bucket Num → TokenUsage
  usage_from_bucket b = record {
    input_tokens = b.in_;
    output_tokens = b.out;
    cache_creation_input_tokens = cw b;
    cache_read_input_tokens = b.cr;
    cache_creation = (ephemeral_5m, b.cw_5m) ∷ (ephemeral_1h, b.cw_1h) ∷ [];
  }

unfoldable pub usage_from_counts : ℕ → ℕ → ℕ → ℕ → TokenUsage
usage_from_counts input_tokens output_tokens cache_write_tokens cache_read_tokens = record {
  input_tokens = input_tokens;
  output_tokens = output_tokens;
  cache_creation_input_tokens = cache_write_tokens;
  cache_read_input_tokens = cache_read_tokens;
  cache_creation = [];
}
