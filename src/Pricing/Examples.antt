-- ===== src/Pricing/Examples.antt =====
-- Prices on small inputs, with the natural numbers for floats.
use Prim.Native.Nat.{◌/◌, ◌*◌}
use claude_agent_wrap.Prelude.{
  ℕ, ◌+◌, ◌≤◌, ◌≡◌, ◌≢◌, refl, inl, inr, false, none, some, List, [], ◌∷◌, length, sum_by, any, All,
  codes, Text, text_eq, text_beq, arith, ltb, leb, starts_with,
}
use claude_agent_wrap.Prelude.Dict.{Dict, get, keys}
use claude_agent_wrap.Prelude.Floats.{Floats, IsOrdered}
use claude_agent_wrap.Pricing.Usage.{
  TokenUsage, Bucket, cache_write_split, cw, merged, bucket_from_usage, usage_from_bucket,
  usage_from_counts, ephemeral_5m,
}
use claude_agent_wrap.Pricing.Totals.{merged_totals, usage_from_bucket-bucket_from_usage}
use claude_agent_wrap.Pricing.Cost.{Tier, price_at, cost_for_tiers, worst_case_cost}
use claude_agent_wrap.Pricing.CostBounds.{worst_case_cost-bounds}
use claude_agent_wrap.Pricing.Matching.{matches, outranks, best_prefix_key}
use claude_agent_wrap.Pricing.Matching.Best.{
  IsBest, best_prefix_key_found, best_prefix_key_missing, best_prefix_key_exact,
}
use claude_agent_wrap.Pricing.Compute.{Provider, charge, compute_cost}
use claude_agent_wrap.Pricing.Compute.Laws.{
  compute_costs, compute_cost_exact, compute_costs_warn_once,
}
use claude_agent_wrap.Pricing.Usage.{ephemeral_1h}
use claude_agent_wrap.Pricing.Extract.{
  Fields, field, end, num, ttl_1h, usage_of, usage_with, response_cache_split,
}
use claude_agent_wrap.Pricing.Extract.Tier.{usage_of_tier}

abbrev naturals : Floats
naturals = record {
  Num = ℕ;
  zero = 0;
  infinity = 1_000_000_000;
  of_nat = λ n. n;
  plus = λ a b. a + b;
  times = λ a b. a * b;
  over = λ a b. a / b;
  below = ltb;
  at_most = leb;
}

naturals-IsOrdered : IsOrdered naturals
naturals-IsOrdered = record {
  below_irrefl = λ x. ground arith;
  not_below_trans = λ x y z p q. ground arith;
  below_asym = λ x y p. ground arith;
}

abbrev cheap : Tier ℕ
cheap = record {
  in_ = 3_000_000;
  out = 15_000_000;
  cw_5m = 4_000_000;
  cw_1h = 6_000_000;
  cr = 1_000_000;
  max_in = 200_000;
}

abbrev dear : Tier ℕ
dear = record {
  in_ = 6_000_000;
  out = 30_000_000;
  cw_5m = 8_000_000;
  cw_1h = 12_000_000;
  cr = 2_000_000;
  max_in = 1_000_000_000;
}

abbrev table : Dict Text (List (Tier ℕ))
table = (codes "claude", cheap ∷ dear ∷ []) ∷ (codes "claude-opus", dear ∷ []) ∷ []

-- Ten tokens in, of which the cache takes four, and two out.
abbrev usage : TokenUsage
usage = record {
  input_tokens = 10;
  output_tokens = 2;
  cache_creation_input_tokens = 3;
  cache_read_input_tokens = 1;
  cache_creation = (ephemeral_5m, 3) ∷ [];
}

cost_run : cost_for_tiers naturals (cheap ∷ dear ∷ []) usage ≡ some (61, false)
unfolding cost_for_tiers cache_write_split get price_at
cost_run = refl

worst_case_cost-bounds_example : ltb (worst_case_cost naturals table usage) 61 ≡ false
worst_case_cost-bounds_example =
    worst_case_cost-bounds naturals table usage (cheap ∷ dear ∷ []) 61 false naturals-IsOrdered
      (inl refl) cost_run

match_run : best_prefix_key (codes "claude-opus-4") (keys table) ≡ some (codes "claude-opus")
unfolding best_prefix_key matches starts_with outranks
match_run = refl

best_prefix_key_found_example : IsBest (codes "claude-opus-4") (keys table) (codes "claude-opus")
best_prefix_key_found_example =
    best_prefix_key_found (codes "claude-opus-4") (keys table) (codes "claude-opus") match_run

missing_run : best_prefix_key (codes "gpt") (keys table) ≡ none
unfolding best_prefix_key matches starts_with
missing_run = refl

best_prefix_key_missing_example : All (λ j. matches (codes "gpt") j ≡ false) (keys table)
best_prefix_key_missing_example = best_prefix_key_missing (codes "gpt") (keys table) missing_run

best_prefix_key_exact_example :
    best_prefix_key (codes "claude-opus") (keys table) ≡ some (codes "claude-opus")
best_prefix_key_exact_example =
    best_prefix_key_exact (codes "claude-opus") (keys table) (inr (inl refl))

abbrev provider : Provider
provider = record { usage_convention_warned = false; shown = [] }

opus_tiers : get (codes "claude-opus") table ≡ some (dear ∷ [])
unfolding get text_beq
opus_tiers = refl

not_empty : codes "claude-opus" ≢ []
not_empty e = cc

compute_cost_exact_example :
    compute_cost naturals table provider (codes "claude-opus") usage
    ≡ charge naturals provider usage (cost_for_tiers naturals (dear ∷ []) usage)
compute_cost_exact_example =
    compute_cost_exact naturals table provider (codes "claude-opus") usage (dear ∷ []) not_empty
      opus_tiers

abbrev calls : List (Text × TokenUsage)
calls =
    (codes "claude", usage_from_counts 1 1 5 5) ∷ (codes "claude", usage_from_counts 2 1 5 5) ∷ []

compute_costs_warn_once_example :
    length
      (compute_costs naturals table
        (record { usage_convention_warned = false; shown = [] })
        calls).shown
    ≤ 1
compute_costs_warn_once_example = compute_costs_warn_once naturals table calls

abbrev stored : Bucket ℕ
stored = bucket_from_usage naturals usage 4 1

merged_totals_example :
    let bs = stored ∷ stored ∷ [] in
    ((merged naturals bs).msgs ≡ sum_by (λ b. b.msgs) bs)
    × ((merged naturals bs).in_ ≡ sum_by (λ b. b.in_) bs)
    × ((merged naturals bs).out ≡ sum_by (λ b. b.out) bs)
    × (cw naturals (merged naturals bs) ≡ sum_by (cw naturals) bs)
    × ((merged naturals bs).cr ≡ sum_by (λ b. b.cr) bs)
    × ((merged naturals bs).unrecorded ≡ sum_by (λ b. b.unrecorded) bs)
    × ((merged naturals bs).cost_unknown ≡ any (λ b. b.cost_unknown) bs)
merged_totals_example = merged_totals naturals (stored ∷ stored ∷ [])

usage_from_bucket-bucket_from_usage_example :
    let v = usage_from_bucket naturals (bucket_from_usage naturals usage 4 1) in
    (v.input_tokens ≡ usage.input_tokens)
    × (v.output_tokens ≡ usage.output_tokens)
    × (v.cache_read_input_tokens ≡ usage.cache_read_input_tokens)
    × (cache_write_split v ≡ cache_write_split usage)
usage_from_bucket-bucket_from_usage_example = usage_from_bucket-bucket_from_usage naturals usage 4 1

abbrev flat_usage : Fields
flat_usage = field "input_tokens" (num 9) (field "cache_creation_input_tokens" (num 5) end)

flat_run :
    usage_of flat_usage (some ttl_1h) ≡ some (usage_with 9 0 5 0 ((ephemeral_1h, 5) ∷ []), false)
unfolding usage_of
flat_run = refl

no_split : response_cache_split flat_usage ≡ []
unfolding response_cache_split
no_split = refl

usage_of_tier_example : cache_write_split (usage_with 9 0 5 0 ((ephemeral_1h, 5) ∷ [])) ≡ (0, 5)
usage_of_tier_example =
    usage_of_tier flat_usage (some ttl_1h) (usage_with 9 0 5 0 ((ephemeral_1h, 5) ∷ [])) false
      no_split flat_run
