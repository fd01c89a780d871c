-- ===== src/Stats/Conserved.antt =====
-- On `fold_cells` of agent_wrap/domain/stats/fold.py: the counts of the cells and of the buckets.
use claude_agent_wrap.Prelude.{
  ℕ, ◌+◌, ◌≡◌, refl, ap, ◌∙◌, true, Option, List, [], ◌∷◌, arith, sum_by, keep, map, if◌then◌else◌,
  Text, text_beq, Bool-cases, Option-cases, inl, inr, HasEq, text_eq,
}
use claude_agent_wrap.Prelude.Dict.{Dict, values, update, sum_by-update}
use claude_agent_wrap.Prelude.Floats.{Floats}
use claude_agent_wrap.Pricing.Usage.{
  Bucket, new_bucket, merge, add, bucket_from_usage, usage_from_counts, usage_from_bucket,
}
use claude_agent_wrap.Pricing.Totals.{IsCount}
use claude_agent_wrap.Stats.Days.{Calendar}
use claude_agent_wrap.Stats.Fold.{
  UsageCell, HourKey, day_key, hour_key, display_model, hour_eq, Pricing, HourBuckets, DayBuckets,
  HashUsage, bucket_from_cell, usage_from_cell, accumulate, Folding, fold_cell, counted, fold_all,
  price_bucket, price_models, price_hours, price_days, price_buckets, hash_usage, fold_cells,
  unrecoverable_source, partition, weekday_of, hour_of,
}

-- A measure of the values of a dict of dicts.
abbrev pub total_by {ℓ κ μ} :
    {K : Type ℓ} {J : Type κ} {V : Type μ} → (V → ℕ) → Dict K (Dict J V) → ℕ
total_by f m = sum_by (λ d. sum_by f (values d)) (values m)

module _ (fl : Floats) where
  open fl use {Num}

  -- A count that a price does not touch, and what a cell adds to it.
  pub record IsConserved (f : Bucket Num → ℕ) (n : UsageCell → ℕ) : Type 0 where
    pub counts : IsCount fl f
    pub at_cost : (b : Bucket Num) (x : Num) → f (record b { cost = x }) ≡ f b
    pub at_unknown : (b : Bucket Num) → f (record b { cost_unknown = true }) ≡ f b
    pub at_cell : (cell : UsageCell) → f (bucket_from_cell fl cell) ≡ n cell

  -- A count summed over all that the fold returns.
  abbrev pub total_usage : (Bucket Num → ℕ) → Dict Text (HashUsage fl) → ℕ
  total_usage f usages = sum_by (λ u. total_by f u.by_day) (values usages)

module _ (fl : Floats) (c : Calendar) (pricing : Pricing fl.Num) where
  open fl use {Num, plus}

  module _ (f : Bucket Num → ℕ) (n : UsageCell → ℕ) (k : IsConserved fl f n) where
    abbrev total_hours : HourBuckets fl → ℕ
    total_hours buckets = sum_by (λ by_hour. total_by f by_hour) (values buckets)

    merge-total :
        {K : Type 0} ⦃e : HasEq K⦄ (key : K) (b : Bucket Num) (m : Dict K (Bucket Num))
        → sum_by f (values (update key (new_bucket fl) (λ t. merge fl t b) m))
          ≡ sum_by f (values m) + f b
    merge-total key b m =
        sum_by-update f key (new_bucket fl) (λ t. merge fl t b) (f b) m (λ t. k.counts.at_merge t b)
          k.counts.at_new

    accumulate-total :
        (outer : Text) (hour : HourKey) (model : Text) (b : Bucket Num) (buckets : HourBuckets fl)
        → total_hours (accumulate fl outer hour model b buckets) ≡ total_hours buckets + f b
    unfolding accumulate
    accumulate-total outer hour model b buckets =
        sum_by-update (λ by_hour. total_by f by_hour) outer [] _ (f b) buckets
          (λ by_hour.
            sum_by-update (λ d. sum_by f (values d)) hour [] _ (f b) by_hour
              (λ by_model. merge-total model b by_model) refl)
          refl

    fold_cell-total :
        (cell : UsageCell) (st : Folding fl)
        → sum_by total_hours (values (fold_cell fl c pricing cell st).by_hash_day)
          ≡ sum_by total_hours (values st.by_hash_day) + n cell
    unfolding fold_cell
    fold_cell-total cell st =
        sum_by-update total_hours cell.project_hash [] _ (n cell) st.by_hash_day
          (λ buckets.
            accumulate-total (day_key c cell.hour_bucket) (hour_key c cell.hour_bucket)
              (display_model fl pricing cell) (bucket_from_cell fl cell) buckets
            ∙ ap (λ x. total_hours buckets + x) (k.at_cell cell))
          refl

    fold_all-total :
        (from_iso until_iso : Option Text) (cells : List UsageCell) (st : Folding fl)
        → sum_by total_hours
            (values (fold_all fl c pricing from_iso until_iso cells st).by_hash_day)
          ≡ sum_by total_hours (values st.by_hash_day)
            + sum_by n (keep (counted c from_iso until_iso) cells)
    unfolding fold_all
    fold_all-total from_iso until_iso [] st = omega arith
    fold_all-total from_iso until_iso (cell ∷ cells) st =
        elim (Bool-cases (counted c from_iso until_iso cell)) [
          | inl inside ↦
              rw (inside, fold_all)
                (omega (
                  arith,
                  fold_all-total from_iso until_iso cells (fold_cell fl c pricing cell st),
                  fold_cell-total cell st,
                ))
          | inr outside ↦ rw (outside, fold_all) (fold_all-total from_iso until_iso cells st)
        ]

    price_bucket-count :
        (hour : HourKey) (key : Text) (b : Bucket Num)
        → f (price_bucket fl pricing hour key b) ≡ f b
    unfolding price_bucket
    price_bucket-count hour key b =
        elim (Option-cases (
          pricing.compute_cost (partition key).0 (partition key).1 (usage_from_bucket fl b)
            (hour_of hour) (weekday_of hour))) [
              | inl e ↦ rw (e, price_bucket) (k.at_unknown b)
              | inr (x, e) ↦ rw (e, price_bucket) (k.at_cost b (plus b.cost x))
            ]

    price_models-total :
        (outer : Text) (hour : HourKey) (by_model : Dict Text (Bucket Num)) (d : DayBuckets fl)
        → total_by f (price_models fl pricing outer hour by_model d)
          ≡ total_by f d + sum_by f (values by_model)
    unfolding price_models
    price_models-total outer hour [] d = omega arith
    price_models-total outer hour ((key, b) ∷ by_model) d =
        let step =
          sum_by-update (λ m. sum_by f (values m)) outer []
            (update key (new_bucket fl) (λ t. merge fl t (price_bucket fl pricing hour key b)))
            (f (price_bucket fl pricing hour key b)) d
            (λ m. merge-total key (price_bucket fl pricing hour key b) m) refl in
        omega (
          arith,
          price_models-total outer hour by_model (
              update outer []
                (update key (new_bucket fl) (λ t. merge fl t (price_bucket fl pricing hour key b)))
                d),
          step,
          price_bucket-count hour key b,
        )

    price_hours-total :
        (outer : Text) (by_hour : Dict HourKey (Dict Text (Bucket Num))) (d : DayBuckets fl)
        → total_by f (price_hours fl pricing outer by_hour d) ≡ total_by f d + total_by f by_hour
    unfolding price_hours
    price_hours-total outer [] d = omega arith
    price_hours-total outer ((hour, by_model) ∷ by_hour) d = omega (
      arith,
      price_hours-total outer by_hour (price_models fl pricing outer hour by_model d),
      price_models-total outer hour by_model d,
    )

    price_days-total :
        (buckets : HourBuckets fl) (d : DayBuckets fl)
        → total_by f (price_days fl pricing buckets d) ≡ total_by f d + total_hours buckets
    unfolding price_days
    price_days-total [] d = omega arith
    price_days-total ((outer, by_hour) ∷ buckets) d = omega (
      arith,
      price_days-total buckets (price_hours fl pricing outer by_hour d),
      price_hours-total outer by_hour d,
    )

    usages-total :
        (st : Folding fl) (m : Dict Text (HourBuckets fl))
        → total_usage fl f (map (hash_usage fl pricing st) m) ≡ sum_by total_hours (values m)
    unfolding hash_usage price_buckets
    usages-total st [] = omega arith
    usages-total st ((hash, buckets) ∷ m) =
        omega (arith, price_days-total buckets [], usages-total st m)

    fold_cells-total :
        (from_iso until_iso : Option Text) (cells : List UsageCell)
        → total_usage fl f (fold_cells fl c pricing from_iso until_iso cells)
          ≡ sum_by n (keep (counted c from_iso until_iso) cells)
    unfolding fold_cells
    fold_cells-total from_iso until_iso cells =
        let st =
          fold_all fl c pricing from_iso until_iso cells
            (record { by_hash_day = []; sessions = []; last_us = [] }) in
        omega (
          arith,
          usages-total st st.by_hash_day,
          fold_all-total from_iso until_iso cells
              (record { by_hash_day = []; sessions = []; last_us = [] }),
        )

  -- Whatever the prices are, the buckets that the fold returns for a window hold together as many
  -- messages, input, output and cache-read tokens as the cells whose day is in the window, and as
  -- many unrecorded messages as those of these cells whose source is unrecoverable.
  pub fold_cells_conserved :
      (from_iso until_iso : Option Text) (cells : List UsageCell)
      → let usages = fold_cells fl c pricing from_iso until_iso cells in
        let inside = keep (counted c from_iso until_iso) cells in
        (total_usage fl (λ b. b.msgs) usages ≡ sum_by (λ cell. cell.requests) inside)
        × (total_usage fl (λ b. b.in_) usages ≡ sum_by (λ cell. cell.input_tokens) inside)
        × (total_usage fl (λ b. b.out) usages ≡ sum_by (λ cell. cell.output_tokens) inside)
        × (total_usage fl (λ b. b.cr) usages ≡ sum_by (λ cell. cell.cache_read) inside)
        × (total_usage fl (λ b. b.unrecorded) usages
            ≡ sum_by
                (λ cell.
                  if text_beq cell.usage_source unrecoverable_source then cell.requests else 0)
                inside)
  unfolding bucket_from_cell usage_from_cell bucket_from_usage usage_from_counts new_bucket merge
      add
  fold_cells_conserved from_iso until_iso cells = (
    fold_cells-total (λ b. b.msgs) (λ cell. cell.requests)
        (record {
          counts = record { at_new = refl; at_merge = λ a b. refl };
          at_cost = λ b x. refl;
          at_unknown = λ b. refl;
          at_cell = λ cell. omega arith;
        })
        from_iso until_iso cells,
    fold_cells-total (λ b. b.in_) (λ cell. cell.input_tokens)
        (record {
          counts = record { at_new = refl; at_merge = λ a b. refl };
          at_cost = λ b x. refl;
          at_unknown = λ b. refl;
          at_cell = λ cell. omega arith;
        })
        from_iso until_iso cells,
    fold_cells-total (λ b. b.out) (λ cell. cell.output_tokens)
        (record {
          counts = record { at_new = refl; at_merge = λ a b. refl };
          at_cost = λ b x. refl;
          at_unknown = λ b. refl;
          at_cell = λ cell. omega arith;
        })
        from_iso until_iso cells,
    fold_cells-total (λ b. b.cr) (λ cell. cell.cache_read)
        (record {
          counts = record { at_new = refl; at_merge = λ a b. refl };
          at_cost = λ b x. refl;
          at_unknown = λ b. refl;
          at_cell = λ cell. omega arith;
        })
        from_iso until_iso cells,
    fold_cells-total (λ b. b.unrecorded) _
        (record {
          counts = record { at_new = refl; at_merge = λ a b. refl };
          at_cost = λ b x. refl;
          at_unknown = λ b. refl;
          at_cell = λ cell. omega arith;
        })
        from_iso until_iso cells,
  )
