-- ===== src/Pricing/Extract/Tier.antt =====
-- On `PricingService.extract_usage`: the tier of the cache writes of a response.
use mathlib.Core.Option.{some-injective}
use claude_agent_wrap.Prelude.{
  >>=-some, ℕ, zero, suc, ◌≡◌, refl, ap, subst, Bool, Option, none, some, [], ◌∷◌, arith, String,
  string_eq,
}
use claude_agent_wrap.Prelude.Dict.{Dict, get}
use claude_agent_wrap.Pricing.Usage.{TokenUsage, cache_write_split}
use claude_agent_wrap.Pricing.Extract.{
  Json, Fields, find, Ttl, ttl_5m, ttl_1h, mixed, attribute, counts, count_or, response_cache_split,
  usage_of, usage_with, read_count,
}

-- The 5-minute and 1-hour writes of a flat total, by what the request asked for.
abbrev pub flat_split : Option Ttl → ℕ → ℕ × ℕ
flat_split (some ttl_1h) n = (0, n)
flat_split (some ttl_5m) n = (n, 0)
flat_split (some mixed) n = (n, 0)
flat_split none n = (n, 0)

attribute-flat :
    (i o w r : ℕ) (ttl : Option Ttl)
    → cache_write_split (usage_with i o w r (attribute [] w ttl).0) ≡ flat_split ttl w
unfolding attribute cache_write_split get
attribute-flat i o zero r none = refl
attribute-flat i o zero r (some ttl_5m) = refl
attribute-flat i o zero r (some ttl_1h) = refl
attribute-flat i o zero r (some mixed) = refl
attribute-flat i o (suc w) r none = refl
attribute-flat i o (suc w) r (some ttl_5m) = ground arith
attribute-flat i o (suc w) r (some ttl_1h) = ground arith
attribute-flat i o (suc w) r (some mixed) = refl

counts-flat :
    (c : Dict String Json) (split : Dict String ℕ) → c ≡ [] → counts c ≡ some split → [] ≡ split
unfolding counts
counts-flat [] split e h = some-injective [] split h
counts-flat (x ∷ c) split e h = cc

-- Where a response gives no split of its cache writes, the usage that is read charges all of them
-- at the tier that the request asked for: at the 1-hour tier if it asked for that alone, and at the
-- 5-minute tier otherwise.
pub usage_of_tier :
    (usage : Fields) (ttl : Option Ttl) (u : TokenUsage) (warn : Bool)
    → response_cache_split usage ≡ []
    → usage_of usage ttl ≡ some (u, warn)
    → cache_write_split u ≡ flat_split ttl u.cache_creation_input_tokens
unfolding usage_of
usage_of_tier usage ttl u warn flat h =
    let (i, _, h1) =
      >>=-some (count_or (find "input_tokens" usage) (read_count usage "prompt_tokens")) _ (u, warn)
        h in
    let (o, _, h2) =
      >>=-some (count_or (find "output_tokens" usage) (read_count usage "completion_tokens")) _
        (u, warn) h1 in
    let (w, _, h3) = >>=-some (read_count usage "cache_creation_input_tokens") _ (u, warn) h2 in
    let (r, _, h4) = >>=-some (read_count usage "cache_read_input_tokens") _ (u, warn) h3 in
    let (split, e, h5) = >>=-some (counts (response_cache_split usage)) _ (u, warn) h4 in
    let empty : [] ≡ split = counts-flat (response_cache_split usage) split flat e in
    let same : (usage_with i o w r (attribute split w ttl).0) ≡ u =
      ap (λ (x : TokenUsage × Bool). x.0) (some-injective _ (u, warn) h5) in
    subst (λ v. cache_write_split v ≡ flat_split ttl v.cache_creation_input_tokens) same
      (subst (λ s. cache_write_split (usage_with i o w r (attribute s w ttl).0) ≡ flat_split ttl w)
        empty (attribute-flat i o w r ttl))
