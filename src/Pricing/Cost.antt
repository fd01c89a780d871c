-- ===== src/Pricing/Cost.antt =====
-- agent_wrap/domain/providers/pricing.py and base.py: the price of a request.
use mathlib.Core.Option
use claude_agent_wrap.Prelude.{
  ℕ, ◌+◌, ◌-◌, Bool, false, not, ◌||◌, Option, none, some, List, [], ◌∷◌, ◌++◌, ltb, if◌then◌else◌,
}
use claude_agent_wrap.Prelude.Dict.{Dict}
use claude_agent_wrap.Prelude.Floats.{Floats}
use claude_agent_wrap.Pricing.Usage.{TokenUsage, cache_write_split}

pub record Tier (Num : Type 0) : Type 0 where
  pub in_ : Num
  pub out : Num
  pub cw_5m : Num
  pub cw_1h : Num
  pub cr : Num
  pub max_in : Num

-- `tiers[-1]`, which raises on an empty list.
unfoldable pub last {ℓ} : {A : Type ℓ} → List A → Option A
last [] = none
last (x ∷ []) = some x
last (x ∷ y ∷ xs) = last (y ∷ xs)

abbrev pub is_empty_usage : TokenUsage → Bool
is_empty_usage usage =
    let (cw_5m, cw_1h) = cache_write_split usage in
    not (
      ltb 0 usage.input_tokens
      || ltb 0 usage.output_tokens
      || ltb 0 cw_5m
      || ltb 0 cw_1h
      || ltb 0 usage.cache_read_input_tokens)

module _ (fl : Floats) where
  open fl use {Num, zero, of_nat, plus, times, over, below, at_most}

  -- `next((t for t in tiers if in_tokens <= t["max_in"]), fallback)`
  unfoldable pub first_fit : ℕ → List (Tier Num) → Option (Tier Num) → Option (Tier Num)
  first_fit in_tokens [] fallback = fallback
  first_fit in_tokens (t ∷ tiers) fallback =
      if at_most in_tokens t.max_in then some t else first_fit in_tokens tiers fallback

  abbrev pub per_million : ℕ → Num → Num
  per_million tokens rate = over (times (of_nat tokens) rate) (of_nat 1_000_000)

  -- The cost of the five kinds of tokens at one tier.
  unfoldable pub tier_cost : Tier Num → ℕ → ℕ → ℕ → ℕ → ℕ → Num
  tier_cost t fresh out_tokens cw_5m cw_1h cr_tokens =
      plus
        (plus
          (plus (plus (per_million fresh t.in_) (per_million out_tokens t.out))
            (per_million cw_5m t.cw_5m))
          (per_million cw_1h t.cw_1h))
        (per_million cr_tokens t.cr)

  -- The price of a usage at its tier, and whether its tokens break the convention that the input
  -- count includes the cache; what the cache takes beyond the input is not subtracted.
  unfoldable pub price_at : TokenUsage → Tier Num → Num × Bool
  unfolding tier_cost
  price_at usage t =
      let (cw_5m, cw_1h) = cache_write_split usage in
      let cached = cw_5m + cw_1h + usage.cache_read_input_tokens in
      (
        tier_cost t (usage.input_tokens - cached) usage.output_tokens cw_5m cw_1h
            usage.cache_read_input_tokens,
        ltb usage.input_tokens cached,
      )

  -- `none` is the `IndexError` of `tiers[-1]` on an empty list.
  unfoldable pub cost_for_tiers : List (Tier Num) → TokenUsage → Option (Num × Bool)
  unfolding first_fit last
  cost_for_tiers tiers usage =
      if is_empty_usage usage
      then some (zero, false)
      else Option.map (price_at usage) (first_fit usage.input_tokens tiers (last tiers))

  abbrev pub keep_cost : Option (Num × Bool) → List Num → List Num
  keep_cost none rest = rest
  keep_cost (some (c, _)) rest = c ∷ rest

  -- The generator of `worst_case_cost`: every tier of the table by itself.
  unfoldable pub tier_costs : List (Tier Num) → TokenUsage → List Num
  tier_costs [] usage = []
  tier_costs (t ∷ tiers) usage = keep_cost (cost_for_tiers (t ∷ []) usage) (tier_costs tiers usage)

  unfoldable pub table_costs : {K : Type 0} → Dict K (List (Tier Num)) → TokenUsage → List Num
  table_costs [] usage = []
  table_costs ((_, tiers) ∷ table) usage = tier_costs tiers usage ++ table_costs table usage

  -- `max`, which keeps the first of equals.
  unfoldable pub max_of : Num → List Num → Num
  max_of best [] = best
  max_of best (x ∷ xs) = max_of (if below best x then x else best) xs

  -- `max(costs, default=…)`
  abbrev pub max_or : Num → List Num → Num
  max_or default [] = default
  max_or default (c ∷ cs) = max_of c cs

  unfoldable pub worst_case_cost : {K : Type 0} → Dict K (List (Tier Num)) → TokenUsage → Num
  unfolding table_costs tier_costs max_of
  worst_case_cost table usage = max_or zero (table_costs table usage)
