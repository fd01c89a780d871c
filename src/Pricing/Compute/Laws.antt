-- ===== src/Pricing/Compute/Laws.antt =====
-- On `Provider.compute_cost`: the tiers that price a model, and the warnings of a provider.
use claude_agent_wrap.Prelude.{
  ◌≤◌, ◌≡◌, ◌≢◌, refl, sym, inl, inr, Bool, false, Option, none, some, List, [], ◌∷◌, arith, length,
  Bool-cases, In, Option-cases, Text, text_eq, text_beq, text_beq_iff,
}
use claude_agent_wrap.Prelude.Dict.{Dict, get, keys}
use claude_agent_wrap.Prelude.Floats.{Floats}
use claude_agent_wrap.Pricing.Usage.{TokenUsage}
use claude_agent_wrap.Pricing.Cost.{Tier, cost_for_tiers}
use claude_agent_wrap.Pricing.Matching.Best.{best_prefix_key_exact}
use claude_agent_wrap.Pricing.Compute.{
  Provider, PriceTable, unique_from, candidates, strip_suffix, tiers_for, charge, compute_cost,
}

get-In : {V : Type 0} (k : Text) (m : Dict Text V) (v : V) → get k m ≡ some v → In k (keys m)
unfolding get
get-In k [] v h = cc
get-In k ((j, w) ∷ m) v h = elim (Bool-cases (text_beq j k)) [
  | inl same ↦ inl (sym ((text_beq_iff j k).0 same))
  | inr other ↦ inr (get-In k m v (ground arith))
]

unique_from-head :
    (c : Text) (cs : List Text) → c ≢ [] → unique_from [] (c ∷ cs) ≡ c ∷ unique_from (c ∷ []) cs
unfolding unique_from
unique_from-head c cs h = elim (Bool-cases (text_beq c [])) [
  | inl empty ↦ absurd (h ((text_beq_iff c []).0 empty))
  | inr full ↦ rw full
]

candidates-head : (model : Text) → model ≢ [] → (r : List Text) × (candidates model ≡ model ∷ r)
unfolding candidates
candidates-head model h = (
  unique_from (model ∷ []) (strip_suffix model ∷ []),
  unique_from-head model (strip_suffix model ∷ []) h,
)

module _ (fl : Floats) where
  open fl use {Num}

  tiers_for-exact :
      (table : PriceTable fl) (model : Text) (cs : List Text) (tiers : List (Tier Num))
      → get model table ≡ some tiers
      → tiers_for fl table (model ∷ cs) ≡ some tiers
  unfolding tiers_for
  tiers_for-exact table model cs tiers h =
      rw (best_prefix_key_exact model (keys table) (get-In model table tiers h), tiers_for) h

  -- A model that is a key of the price table is priced by that key's own tiers, whatever other keys
  -- begin as it does.
  pub compute_cost_exact :
      (table : PriceTable fl) (p : Provider) (model : Text) (usage : TokenUsage)
      (tiers : List (Tier Num))
      → model ≢ []
      → get model table ≡ some tiers
      → compute_cost fl table p model usage ≡ charge fl p usage (cost_for_tiers fl tiers usage)
  unfolding compute_cost get
  compute_cost_exact [] p model usage tiers m h = cc
  compute_cost_exact (e ∷ table) p model usage tiers m h =
      let (r, start) = candidates-head model m in
      rw (start, tiers_for-exact (e ∷ table) model r tiers h, compute_cost)

  -- Warned at most once, and only where the flag says so.
  pub record HasWarned (p : Provider) : Type 0 where
    pub once : length p.shown ≤ 1
    pub flagged : p.usage_convention_warned ≡ false → length p.shown ≡ 0

  charge-HasWarned :
      (p : Provider) (u : TokenUsage) (r : Option (Num × Bool))
      → HasWarned p
      → HasWarned (charge fl p u r).0
  unfolding charge
  charge-HasWarned p u none h = h
  charge-HasWarned p u (some (c, w)) h = ground (arith, h.flagged)

  compute_cost-HasWarned :
      (table : PriceTable fl) (p : Provider) (model : Text) (u : TokenUsage)
      → HasWarned p
      → HasWarned (compute_cost fl table p model u).0
  unfolding compute_cost
  compute_cost-HasWarned [] p model u h = h
  compute_cost-HasWarned (e ∷ table) p model u h =
      elim (Option-cases (tiers_for fl (e ∷ table) (candidates model))) [
        | inl none_fit ↦ rw (none_fit, compute_cost) h
        | inr (tiers, found) ↦
            rw (found, compute_cost) (charge-HasWarned p u (cost_for_tiers fl tiers u) h)
      ]

  -- A provider that prices one request after another.
  unfoldable pub compute_costs : PriceTable fl → Provider → List (Text × TokenUsage) → Provider
  compute_costs table p [] = p
  compute_costs table p ((model, u) ∷ calls) =
      compute_costs table (compute_cost fl table p model u).0 calls

  compute_costs-HasWarned :
      (table : PriceTable fl) (p : Provider) (calls : List (Text × TokenUsage))
      → HasWarned p
      → HasWarned (compute_costs table p calls)
  unfolding compute_costs
  compute_costs-HasWarned table p [] h = h
  compute_costs-HasWarned table p ((model, u) ∷ calls) h =
      compute_costs-HasWarned table (compute_cost fl table p model u).0 calls
        (compute_cost-HasWarned table p model u h)

  -- However many requests a new provider prices, it shows at most one warning.
  pub compute_costs_warn_once :
      (table : PriceTable fl) (calls : List (Text × TokenUsage))
      → length
          (compute_costs table (record { usage_convention_warned = false; shown = [] }) calls).shown
        ≤ 1
  compute_costs_warn_once table calls =
      (compute_costs-HasWarned table (record { usage_convention_warned = false; shown = [] }) calls
        (record { once = omega arith; flagged = λ e. refl })).once
