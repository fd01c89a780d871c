-- ===== src/Pricing/Totals.antt =====
-- On the sums of buckets of agent_wrap/domain/pricing/models.py.
use claude_agent_wrap.Prelude.{ℕ, ◌+◌, ◌≡◌, refl, ◌||◌, List, [], ◌∷◌, arith, any, sum_by}
use claude_agent_wrap.Prelude.Dict.{get}
use claude_agent_wrap.Prelude.Floats.{Floats}
use claude_agent_wrap.Pricing.Usage.{
  TokenUsage, Bucket, cache_write_split, new_bucket, merge, merge_all, merged, cw,
  bucket_from_usage, usage_from_bucket,
}

-- A count of a bucket that starts at 0 and that `merge` adds: every number it holds but the cost.
pub record IsCount (fl : Floats) (f : Bucket fl.Num → ℕ) : Type 0 where
  pub at_new : f (new_bucket fl) ≡ 0
  pub at_merge : (a b : Bucket fl.Num) → f (merge fl a b) ≡ f a + f b

module _ (fl : Floats) where
  msgs-IsCount : IsCount fl (λ b. b.msgs)
  unfolding new_bucket merge
  msgs-IsCount = record { at_new = refl; at_merge = λ a b. refl }

  merge_all-count :
      (f : Bucket fl.Num → ℕ)
      → IsCount fl f
      → (t : Bucket fl.Num) (bs : List (Bucket fl.Num)) → f (merge_all fl t bs) ≡ f t + sum_by f bs
  unfolding merge_all
  merge_all-count f c t [] = omega arith
  merge_all-count f c t (b ∷ bs) =
      omega (arith, c.at_merge t b, merge_all-count f c (merge fl t b) bs)

  pub merged-count :
      (f : Bucket fl.Num → ℕ) (bs : List (Bucket fl.Num))
      → IsCount fl f
      → f (merged fl bs) ≡ sum_by f bs
  unfolding merged
  merged-count f bs c = omega (arith, c.at_new, merge_all-count f c (new_bucket fl) bs)

  merge_all-cost_unknown :
      (t : Bucket fl.Num) (bs : List (Bucket fl.Num))
      → (merge_all fl t bs).cost_unknown ≡ (t.cost_unknown || any (λ b. b.cost_unknown) bs)
  unfolding merge_all merge
  merge_all-cost_unknown t [] = ground arith
  merge_all-cost_unknown t (b ∷ bs) = ground (arith, merge_all-cost_unknown (merge fl t b) bs)

  -- A total holds, in every count, the sum over the buckets, and its cost is unknown exactly when
  -- the cost of one of them is.
  pub merged_totals :
      (bs : List (Bucket fl.Num))
      → ((merged fl bs).msgs ≡ sum_by (λ b. b.msgs) bs)
        × ((merged fl bs).in_ ≡ sum_by (λ b. b.in_) bs)
        × ((merged fl bs).out ≡ sum_by (λ b. b.out) bs)
        × (cw fl (merged fl bs) ≡ sum_by (cw fl) bs)
        × ((merged fl bs).cr ≡ sum_by (λ b. b.cr) bs)
        × ((merged fl bs).unrecorded ≡ sum_by (λ b. b.unrecorded) bs)
        × ((merged fl bs).cost_unknown ≡ any (λ b. b.cost_unknown) bs)
  unfolding new_bucket merge merged
  merged_totals bs = (
    merged-count (λ b. b.msgs) bs (record { at_new = refl; at_merge = λ a b. refl }),
    merged-count (λ b. b.in_) bs (record { at_new = refl; at_merge = λ a b. refl }),
    merged-count (λ b. b.out) bs (record { at_new = refl; at_merge = λ a b. refl }),
    merged-count (cw fl) bs (record { at_new = refl; at_merge = λ a b. omega arith }),
    merged-count (λ b. b.cr) bs (record { at_new = refl; at_merge = λ a b. refl }),
    merged-count (λ b. b.unrecorded) bs (record { at_new = refl; at_merge = λ a b. refl }),
    merge_all-cost_unknown (new_bucket fl) bs,
  )

  -- The usage read back from the bucket that a usage was put in charges the same tokens: the same
  -- input, output and cache reads, and the same split of the cache writes into tiers.
  pub usage_from_bucket-bucket_from_usage :
      (u : TokenUsage) (msgs unrecorded : ℕ)
      → let v = usage_from_bucket fl (bucket_from_usage fl u msgs unrecorded) in
        (v.input_tokens ≡ u.input_tokens)
        × (v.output_tokens ≡ u.output_tokens)
        × (v.cache_read_input_tokens ≡ u.cache_read_input_tokens)
        × (cache_write_split v ≡ cache_write_split u)
  unfolding usage_from_bucket bucket_from_usage cache_write_split get
  usage_from_bucket-bucket_from_usage u msgs unrecorded =
      (omega arith, omega arith, omega arith, ground arith)
