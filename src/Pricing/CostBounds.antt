-- ===== src/Pricing/CostBounds.antt =====
-- On `CostComputer`: the tier that is charged, and the worst case over a price table.
use claude_agent_wrap.Prelude.{
  ℕ, ◌≡◌, refl, subst, Bool, true, false, Option, none, some, List, [], ◌∷◌, ◌⊎◌, inl, inr, arith,
  if◌then◌else◌, Bool-cases, Option-cases, In, In-append_left, In-append_right, In-split,
}
use claude_agent_wrap.Prelude.Dict.{Dict, values}
use claude_agent_wrap.Prelude.Floats.{Floats, IsOrdered}
use claude_agent_wrap.Pricing.Usage.{TokenUsage}
use claude_agent_wrap.Pricing.Cost.{
  Tier, last, first_fit, is_empty_usage, cost_for_tiers, tier_costs, table_costs, max_of,
  worst_case_cost, keep_cost, max_or,
}

module _ (fl : Floats) where
  open fl use {Num, zero, below, at_most}

  last-In :
      (t : Tier Num) (ts : List (Tier Num)) (l : Tier Num) → last (t ∷ ts) ≡ some l → In l (t ∷ ts)
  unfolding last
  last-In t [] l h = inl (cc)
  last-In t (u ∷ ts) l h = inr (last-In u ts l h)

  first_fit-In :
      (n : ℕ) (ts : List (Tier Num)) (l : Option (Tier Num)) (t : Tier Num)
      → first_fit fl n ts l ≡ some t
      → In t ts ⊎ (l ≡ some t)
  unfolding first_fit
  first_fit-In n [] l t h = inr h
  first_fit-In n (u ∷ ts) l t h = elim (Bool-cases (at_most n u.max_in)) [
    | inl fits ↦ inl (inl (ground arith))
    | inr over ↦ elim (first_fit-In n ts l t (ground arith)) [ inl m ↦ inl (inr m) | inr e ↦ inr e ]
  ]

  -- The tier that is charged is one of the list.
  chosen-In :
      (n : ℕ) (ts : List (Tier Num)) (t : Tier Num) → first_fit fl n ts (last ts) ≡ some t → In t ts
  unfolding first_fit last
  chosen-In n [] t h = cc
  chosen-In n (u ∷ ts) t h = elim (first_fit-In n (u ∷ ts) (last (u ∷ ts)) t h) [
    | inl m ↦ m
    | inr e ↦ last-In u ts t e
  ]

  module _ (o : IsOrdered fl) where
    max_of_start : (b : Num) (xs : List Num) → below (max_of fl b xs) b ≡ false
    unfolding max_of
    max_of_start b [] = o.below_irrefl b
    max_of_start b (y ∷ ys) = elim (Bool-cases (below b y)) [
      | inl up ↦ rw up (o.not_below_trans b y _ (o.below_asym b y up) (max_of_start y ys))
      | inr down ↦ rw down (max_of_start b ys)
    ]

    max_of-ge : (b x : Num) (xs : List Num) → In x (b ∷ xs) → below (max_of fl b xs) x ≡ false
    unfolding max_of
    max_of-ge b x xs (inl e) = rw e (max_of_start b xs)
    max_of-ge b x [] (inr h) = absurd h
    max_of-ge b x (y ∷ ys) (inr (inl e)) = elim (Bool-cases (below b y)) [
      | inl up ↦ rw (e, up) (max_of_start y ys)
      | inr down ↦ rw (e, down) (o.not_below_trans y b _ down (max_of_start b ys))
    ]
    max_of-ge b x (y ∷ ys) (inr (inr h)) = max_of-ge (if below b y then y else b) x ys (inr h)

  -- A price is the price of one of the tiers by itself.
  cost_for_tiers-single :
      (tiers : List (Tier Num)) (u : TokenUsage) (r : Num × Bool)
      → is_empty_usage u ≡ false
      → cost_for_tiers fl tiers u ≡ some r
      → (t : Tier Num) × In t tiers × (cost_for_tiers fl (t ∷ []) u ≡ some r)
  unfolding cost_for_tiers
  cost_for_tiers-single tiers u r e h =
      elim (Option-cases (first_fit fl u.input_tokens tiers (last tiers))) [
        | inl gone ↦ absurd (ground arith)
        | inr (t, found) ↦ (t, chosen-In u.input_tokens tiers t found, ground arith)
      ]

  In-keep_cost :
      (o : Option (Num × Bool)) (c : Num) (rest : List Num) → In c rest → In c (keep_cost fl o rest)
  In-keep_cost none c rest m = m
  In-keep_cost (some r) c rest m = inr m

  tier_costs-In :
      (tiers : List (Tier Num)) (u : TokenUsage) (t : Tier Num) (r : Num × Bool)
      → In t tiers
      → cost_for_tiers fl (t ∷ []) u ≡ some r
      → In r.0 (tier_costs fl tiers u)
  unfolding tier_costs
  tier_costs-In [] u t r m h = absurd m
  tier_costs-In (s ∷ ts) u t r (inl e) h =
      let h' : cost_for_tiers fl (s ∷ []) u ≡ some r =
        subst (λ x. cost_for_tiers fl (x ∷ []) u ≡ some r) e h in
      rw h' (inl refl)
  tier_costs-In (s ∷ ts) u t r (inr m) h =
      In-keep_cost (cost_for_tiers fl (s ∷ []) u) r.0 (tier_costs fl ts u)
        (tier_costs-In ts u t r m h)

  table_costs-In :
      {K : Type 0} (table : Dict K (List (Tier Num))) (u : TokenUsage) (tiers : List (Tier Num))
      (c : Num)
      → In tiers (values table)
      → In c (tier_costs fl tiers u)
      → In c (table_costs fl table u)
  unfolding table_costs
  table_costs-In [] u tiers c m h = absurd m
  table_costs-In ((k, ts) ∷ table) u tiers c (inl e) h =
      In-append_left c (tier_costs fl ts u) (table_costs fl table u)
        (subst (λ l. In c (tier_costs fl l u)) e h)
  table_costs-In ((k, ts) ∷ table) u tiers c (inr m) h =
      In-append_right c (tier_costs fl ts u) (table_costs fl table u)
        (table_costs-In table u tiers c m h)

  In-max_or :
      (o : IsOrdered fl) (cs : List Num) (c : Num) → In c cs → below (max_or fl zero cs) c ≡ false
  In-max_or o [] c m = absurd m
  In-max_or o (x ∷ xs) c m = max_of-ge o x c xs m

  In-worst_case_cost :
      {K : Type 0} (o : IsOrdered fl) (table : Dict K (List (Tier Num))) (u : TokenUsage) (c : Num)
      → In c (table_costs fl table u)
      → below (worst_case_cost fl table u) c ≡ false
  unfolding worst_case_cost
  In-worst_case_cost o table u c m = In-max_or o (table_costs fl table u) c m

  -- A usage of no tokens costs nothing at any tier.
  module _ (u : TokenUsage) (empty : is_empty_usage u ≡ true) where
    empty-cost : (tiers : List (Tier Num)) → cost_for_tiers fl tiers u ≡ some (zero, false)
    unfolding cost_for_tiers
    empty-cost tiers = rw empty

    empty-tier_costs : (tiers : List (Tier Num)) (c : Num) → In c (tier_costs fl tiers u) → c ≡ zero
    unfolding tier_costs
    empty-tier_costs [] c m = absurd m
    empty-tier_costs (t ∷ ts) c m =
        elim (subst (λ o. In c (keep_cost fl o (tier_costs fl ts u))) (empty-cost (t ∷ [])) m) [
          | inl e ↦ e
          | inr rest ↦ empty-tier_costs ts c rest
        ]

    empty-table_costs :
        {K : Type 0} (table : Dict K (List (Tier Num))) (c : Num)
        → In c (table_costs fl table u)
        → c ≡ zero
    unfolding table_costs
    empty-table_costs [] c m = absurd m
    empty-table_costs ((k, ts) ∷ table) c m =
        elim (In-split c (tier_costs fl ts u) (table_costs fl table u) m) [
          | inl here ↦ empty-tier_costs ts c here
          | inr rest ↦ empty-table_costs table c rest
        ]

  max_or-zero :
      (o : IsOrdered fl) (cs : List Num)
      → ((c : Num) → In c cs → c ≡ zero)
      → below (max_or fl zero cs) zero ≡ false
  max_or-zero o [] all = o.below_irrefl zero
  max_or-zero o (x ∷ xs) all =
      subst (λ z. below (max_of fl x xs) z ≡ false) (all x (inl refl)) (max_of_start o x xs)

  empty-worst_case_cost :
      {K : Type 0} (o : IsOrdered fl) (table : Dict K (List (Tier Num))) (u : TokenUsage)
      → is_empty_usage u ≡ true
      → below (worst_case_cost fl table u) zero ≡ false
  unfolding worst_case_cost
  empty-worst_case_cost o table u e =
      max_or-zero o (table_costs fl table u) (empty-table_costs u e table)

  -- No model of the table is charged more than the worst case: whatever tier list of the table a
  -- usage is priced by, the worst-case cost is not below that price.
  pub worst_case_cost-bounds :
      {K : Type 0} (table : Dict K (List (Tier Num))) (u : TokenUsage) (tiers : List (Tier Num))
      (c : Num) (warn : Bool)
      → IsOrdered fl
      → In tiers (values table)
      → cost_for_tiers fl tiers u ≡ some (c, warn)
      → below (worst_case_cost fl table u) c ≡ false
  worst_case_cost-bounds table u tiers c warn o m h = elim (Bool-cases (is_empty_usage u)) [
    | inl empty ↦
        let e : c ≡ zero = ground (arith, empty-cost u empty tiers) in
        rw e (empty-worst_case_cost o table u empty)
    | inr charged ↦
        let (t, here, single) = cost_for_tiers-single tiers u (c, warn) charged h in
        In-worst_case_cost o table u c
          (table_costs-In table u tiers c m (tier_costs-In tiers u t (c, warn) here single))
  ]
