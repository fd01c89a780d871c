-- ===== src/Pricing/Compute.antt =====
-- `Provider.compute_cost` of agent_wrap/domain/providers/base.py, with the warning that it gives
-- once, and the pricing table it is computed from.
pub mod Laws
use claude_agent_wrap.Prelude.{
  ℕ, ◌≡◌, Bool, true, false, ◌&&◌, ◌||◌, not, Option, none, some, List, [], ◌∷◌, eqb, any, map,
  if◌then◌else◌, Text, codes, text_eq, text_beq,
}
use claude_agent_wrap.Prelude.Dict.{Dict, get, keys}
use claude_agent_wrap.Prelude.Floats.{Floats}
use claude_agent_wrap.Pricing.Usage.{TokenUsage}
use claude_agent_wrap.Pricing.Cost.{Tier, cost_for_tiers, worst_case_cost}
use claude_agent_wrap.Pricing.Matching.{best_prefix_key}

-- `MODEL_CONTEXT_SUFFIX_RE`, `\[(?:1m|128k|32k|8k)\]$` without regard to case: the characters that
-- match `m` and `k` (U+212A is a Kelvin sign, whose lower case is `k`).
abbrev is_m : ℕ → Bool
is_m c = eqb c b'm' || eqb c b'M'

abbrev is_k : ℕ → Bool
is_k c = eqb c b'k' || eqb c b'K' || eqb c 0x212A

-- Whether a text begins with characters that pass the tests in turn, and what follows them.
unfoldable pub match_seq : List (ℕ → Bool) → Text → Option Text
match_seq [] s = some s
match_seq (p ∷ ps) [] = none
match_seq (p ∷ ps) (c ∷ s) = let rest = match_seq ps s in if p c then rest else none

abbrev suffixes : List (List (ℕ → Bool))
suffixes =
    (eqb b'[' ∷ eqb b'1' ∷ is_m ∷ eqb b']' ∷ [])
    ∷ (eqb b'[' ∷ eqb b'1' ∷ eqb b'2' ∷ eqb b'8' ∷ is_k ∷ eqb b']' ∷ [])
    ∷ (eqb b'[' ∷ eqb b'3' ∷ eqb b'2' ∷ is_k ∷ eqb b']' ∷ [])
    ∷ (eqb b'[' ∷ eqb b'8' ∷ is_k ∷ eqb b']' ∷ [])
    ∷ []

-- `$` matches at the end, and before a line feed that ends the text.
abbrev at_end : Option Text → Option Text
at_end none = none
at_end (some []) = some []
at_end (some (c ∷ [])) = if eqb c 10 then some (c ∷ []) else none
at_end (some (c ∷ d ∷ s)) = none

unfoldable pub suffix_at : List (List (ℕ → Bool)) → Text → Option Text
unfolding match_seq
suffix_at [] s = none
suffix_at (p ∷ ps) s = elim (at_end (match_seq p s)) [
  | some rest ↦ some rest
  | none ↦ suffix_at ps s
]

-- `MODEL_CONTEXT_SUFFIX_RE.sub("", model)`
unfoldable pub strip_suffix : Text → Text
unfolding suffix_at
strip_suffix [] = []
strip_suffix (c ∷ s) = elim (suffix_at suffixes (c ∷ s)) [
  | some rest ↦ rest
  | none ↦ c ∷ strip_suffix s
]

-- The loop that collects the candidates: no empty name, and none twice.
unfoldable pub unique_from : List Text → List Text → List Text
unique_from seen [] = []
unique_from seen (c ∷ cs) =
    let rest = unique_from seen cs in
    let more = c ∷ unique_from (c ∷ seen) cs in
    if text_beq c [] || any (text_beq c) seen then rest else more

unfoldable pub candidates : Text → List Text
unfolding unique_from strip_suffix
candidates model = unique_from [] (model ∷ strip_suffix model ∷ [])

-- The rates of a flat price table, in its order.
pub record Rates (Num : Type 0) : Type 0 where
  pub in_ : Num
  pub out : Num
  pub cw_5m : Num
  pub cw_1h : Num
  pub cr : Num

-- How a call of `compute_cost` ends: with an exception, with `None`, or with a cost.
pub data Outcome (Num : Type 0) : Type 0 where
  raised : Outcome Num
  unknown : Outcome Num
  known : Num → Outcome Num

-- A provider's `_usage_convention_warned`, and the warnings that it has shown: for each the input,
-- cache-write and cache-read counts of the message.
pub record Provider : Type 0 where
  pub usage_convention_warned : Bool
  pub shown : List TokenUsage

module _ (fl : Floats) where
  open fl use {Num, zero, infinity, of_nat, over, below}

  abbrev pub PriceTable : Type 0
  PriceTable = Dict Text (List (Tier Num))

  abbrev infinite_tier : Rates Num → Tier Num
  infinite_tier r = record {
    in_ = r.in_;
    out = r.out;
    cw_5m = r.cw_5m;
    cw_1h = r.cw_1h;
    cr = r.cr;
    max_in = infinity;
  }

  -- `_build_pricing_table`: `none` stands for a method that raises `NotImplementedError`.
  unfoldable pub build_pricing_table :
      Option PriceTable → Option (Dict Text (Rates Num)) → PriceTable
  build_pricing_table (some tiered) flat = tiered
  build_pricing_table none none = []
  build_pricing_table none (some flat) = map (λ e. (e.0, infinite_tier e.1 ∷ [])) flat

  -- The loop over the candidates: the tiers of the first that has a key.
  unfoldable pub tiers_for : PriceTable → List Text → Option (List (Tier Num))
  tiers_for table [] = none
  tiers_for table (c ∷ cs) = elim (best_prefix_key c (keys table)) [
    | some match ↦ get match table
    | none ↦ tiers_for table cs
  ]

  -- `_cost_for_tiers`
  unfoldable pub charge : Provider → TokenUsage → Option (Num × Bool) → Provider × Outcome Num
  charge p usage none = (p, raised)
  charge p usage (some (cost, convention_warn)) = (
    if convention_warn && not p.usage_convention_warned
        then record p { usage_convention_warned = true; shown = usage ∷ p.shown }
        else p,
    known cost,
  )

  abbrev pub threshold : Num
  threshold = over (of_nat 1) (of_nat 100)

  unfoldable pub compute_cost : PriceTable → Provider → Text → TokenUsage → Provider × Outcome Num
  unfolding tiers_for charge candidates
  compute_cost [] p model usage = (p, unknown)
  compute_cost (entry ∷ rest) p model usage =
      let table = entry ∷ rest in
      elim (tiers_for table (candidates model)) [
        | some tiers ↦ charge p usage (cost_for_tiers fl tiers usage)
        | none ↦
            (p, if below (worst_case_cost fl table usage) threshold then known zero else unknown)
      ]
