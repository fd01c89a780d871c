-- ===== src/Stats/Fold.antt =====
-- agent_wrap/domain/stats/fold.py: usage cells are folded into buckets by project, day, hour and
-- model, and these are priced and collapsed over the hours.
use claude_agent_wrap.Prelude.{
  ℤ, ltz, ℕ, ◌≡◌, refl, ◌↔◌, Bool, true, false, ◌&&◌, Option, none, some, List, [], ◌∷◌, ◌++◌, eqb,
  length, map, elem, any, if◌then◌else◌, Text, codes, text_beq, text_eq, nat_eq, HasEq, arith,
}
use claude_agent_wrap.Prelude.Dict.{Dict, get, or_else, put, update}
use claude_agent_wrap.Prelude.Floats.{Floats}
use claude_agent_wrap.Pricing.Usage.{
  TokenUsage, Bucket, new_bucket, merge, bucket_from_usage, usage_from_bucket, usage_from_counts,
}
use claude_agent_wrap.Stats.Days.{Calendar, unknown_time_key, day_in_range, hour_bucket_dt, get_day}

pub record UsageCell : Type 0 where
  pub hour_bucket : Option ℤ
  pub project_hash : Text
  pub provider : Text
  pub session_id : ℕ
  pub model : Text
  pub usage_source : Text
  pub requests : ℕ
  pub last_started_at_us : Option ℤ
  pub input_tokens : ℕ
  pub output_tokens : ℕ
  pub cache_write_tokens : ℕ
  pub cache_write_5m : ℕ
  pub cache_write_1h : ℕ
  pub cache_read : ℕ

-- `HourKey`: weekday and hour, both `None` or neither.
pub data HourKey : Type 0 where
  untimed : HourKey
  timed : ℕ → ℕ → HourKey

abbrev same_hour : HourKey → HourKey → Bool
same_hour untimed untimed = true
same_hour (timed d h) (timed d' h') = eqb d d' && eqb h h'
same_hour _ _ = false

pub same_hour_iff : (a b : HourKey) → (same_hour a b ≡ true) ↔ (a ≡ b)
same_hour_iff untimed untimed = (λ _. refl, λ _. refl)
same_hour_iff untimed (timed d h) = ((λ e. cc), λ e. cc)
same_hour_iff (timed d h) untimed = ((λ e. cc), λ e. cc)
same_hour_iff (timed d h) (timed d' h') = ground arith

instance abbrev pub hour_eq : HasEq HourKey
hour_eq = record { equals = same_hour; equals_iff = same_hour_iff }

abbrev pub weekday_of : HourKey → Option ℕ
weekday_of untimed = none
weekday_of (timed d h) = some d

abbrev pub hour_of : HourKey → Option ℕ
hour_of untimed = none
hour_of (timed d h) = some h

abbrev pub unrecoverable_source : Text
unrecoverable_source = codes "unrecoverable"

-- `text.rsplit("/", 1)[-1]`: what follows the last slash.
unfoldable pub after_last_slash : Text → Text
after_last_slash [] = []
after_last_slash (c ∷ s) =
    let rest = after_last_slash s in
    if any (eqb b'/') s then rest else if eqb c b'/' then s else c ∷ s

-- `text.partition("/")`, the first part and the last.
unfoldable pub partition : Text → Text × Text
partition [] = ([], [])
partition (c ∷ s) =
    let (head, tail) = partition s in if eqb c b'/' then ([], s) else (c ∷ head, tail)

-- What the fold calls of `PricingService` besides the buckets: `normalize_model`, where an empty
-- name reads as none, and `compute_cost` for a provider, a model, a usage, an hour and a weekday.
pub record Pricing (Num : Type 0) : Type 0 where
  pub normalize_model : Text → Option Text
  pub compute_cost : Text → Text → TokenUsage → Option ℕ → Option ℕ → Option Num

unfoldable pub usage_from_cell : UsageCell → TokenUsage
usage_from_cell cell =
    usage_from_counts cell.input_tokens cell.output_tokens cell.cache_write_tokens cell.cache_read

abbrev add_session : ℕ → List ℕ → List ℕ
add_session i ids = if elem i ids then ids else i ∷ ids

-- The `if` on the newest start that a project has had.
unfoldable pub newer : Text → Option ℤ → Dict Text ℤ → Dict Text ℤ
newer hash none last = last
newer hash (some us) last = elim (get hash last) [
  | none ↦ put hash us last
  | some prior ↦ if ltz prior us then put hash us last else last
]

module _ (fl : Floats) where
  open fl use {Num}

  abbrev pub HourBuckets : Type 0
  HourBuckets = Dict Text (Dict HourKey (Dict Text (Bucket Num)))

  abbrev pub DayBuckets : Type 0
  DayBuckets = Dict Text (Dict Text (Bucket Num))

  pub record HashUsage : Type 0 where
    pub sessions : ℕ
    pub last_us : Option ℤ
    pub by_day : DayBuckets

  unfoldable pub bucket_from_cell : UsageCell → Bucket Num
  unfolding bucket_from_usage usage_from_cell
  bucket_from_cell cell =
      bucket_from_usage fl (usage_from_cell cell) cell.requests
        (if text_beq cell.usage_source unrecoverable_source then cell.requests else 0)

  -- `_accumulate`
  unfoldable pub accumulate : Text → HourKey → Text → Bucket Num → HourBuckets → HourBuckets
  unfolding update merge new_bucket
  accumulate outer hour model bucket =
      update outer []
        (update hour [] (update model (new_bucket fl) (λ existing. merge fl existing bucket)))

  -- The three dicts that the loop of `fold_cells` fills.
  pub record Folding : Type 0 where
    pub by_hash_day : Dict Text HourBuckets
    pub sessions : Dict Text (List ℕ)
    pub last_us : Dict Text ℤ

module _ (c : Calendar) where
  -- The day and the hour that a cell belongs to.
  unfoldable pub day_key : Option ℤ → Text
  day_key none = unknown_time_key
  day_key (some bucket) = get_day c (hour_bucket_dt c bucket)

  unfoldable pub hour_key : Option ℤ → HourKey
  hour_key none = untimed
  hour_key (some bucket) = let dt = hour_bucket_dt c bucket in timed (c.weekday dt) (c.hour dt)

  abbrev pub counted : Option Text → Option Text → UsageCell → Bool
  counted from_iso until_iso cell = day_in_range (day_key cell.hour_bucket) from_iso until_iso

module _ (fl : Floats) (pricing : Pricing fl.Num) where
  open fl use {Num, plus}

  unfoldable pub display_model : UsageCell → Text
  unfolding after_last_slash
  display_model cell =
      let clean = after_last_slash cell.model in
      cell.provider ++ (codes "/" ++ or_else (pricing.normalize_model clean) clean)

  -- A bucket with its price, or with the mark that it has none.
  abbrev charged : Option Num → Bucket Num → Bucket Num
  charged none b = record b { cost_unknown = true }
  charged (some cost) b = record b { cost = plus b.cost cost }

  unfoldable pub price_bucket : HourKey → Text → Bucket Num → Bucket Num
  unfolding partition usage_from_bucket
  price_bucket hour key b =
      let (provider, model) = partition key in
      charged
        (pricing.compute_cost provider model (usage_from_bucket fl b) (hour_of hour)
          (weekday_of hour))
        b

  -- The three loops of `price_buckets`, from the inner one out.
  unfoldable pub price_models :
      Text → HourKey → Dict Text (Bucket Num) → DayBuckets fl → DayBuckets fl
  unfolding price_bucket update merge new_bucket
  price_models outer hour [] collapsed = collapsed
  price_models outer hour ((key, b) ∷ by_model) collapsed = price_models outer hour by_model (
      update outer []
        (update key (new_bucket fl) (λ total. merge fl total (price_bucket hour key b))) collapsed)

  unfoldable pub price_hours :
      Text → Dict HourKey (Dict Text (Bucket Num)) → DayBuckets fl → DayBuckets fl
  unfolding price_models
  price_hours outer [] collapsed = collapsed
  price_hours outer ((hour, by_model) ∷ by_hour) collapsed =
      price_hours outer by_hour (price_models outer hour by_model collapsed)

  unfoldable pub price_days : HourBuckets fl → DayBuckets fl → DayBuckets fl
  unfolding price_hours
  price_days [] collapsed = collapsed
  price_days ((outer, by_hour) ∷ buckets) collapsed =
      price_days buckets (price_hours outer by_hour collapsed)

  unfoldable pub price_buckets : HourBuckets fl → DayBuckets fl
  unfolding price_days
  price_buckets buckets = price_days buckets []

  unfoldable pub hash_usage : Folding fl → Text × HourBuckets fl → Text × HashUsage fl
  unfolding price_buckets
  hash_usage st (hash, buckets) = (
    hash,
    record {
      sessions = length (or_else (get hash st.sessions) []);
      last_us = get hash st.last_us;
      by_day = price_buckets buckets;
    },
  )

module _ (fl : Floats) (c : Calendar) (pricing : Pricing fl.Num) where
  unfoldable pub fold_cell : UsageCell → Folding fl → Folding fl
  unfolding accumulate newer
  fold_cell cell st = record {
    by_hash_day =
        update cell.project_hash []
          (accumulate fl (day_key c cell.hour_bucket) (hour_key c cell.hour_bucket)
            (display_model fl pricing cell) (bucket_from_cell fl cell))
          st.by_hash_day;
    sessions = update cell.project_hash [] (add_session cell.session_id) st.sessions;
    last_us = newer cell.project_hash cell.last_started_at_us st.last_us;
  }

  -- The loop of `fold_cells`.
  unfoldable pub fold_all : Option Text → Option Text → List UsageCell → Folding fl → Folding fl
  unfolding fold_cell
  fold_all from_iso until_iso [] st = st
  fold_all from_iso until_iso (cell ∷ cells) st =
      fold_all from_iso until_iso cells
        (if counted c from_iso until_iso cell then fold_cell cell st else st)

  unfoldable pub fold_cells : Option Text → Option Text → List UsageCell → Dict Text (HashUsage fl)
  unfolding fold_all hash_usage
  fold_cells from_iso until_iso cells =
      let st =
        fold_all from_iso until_iso cells
          (record { by_hash_day = []; sessions = []; last_us = [] }) in
      map (hash_usage fl pricing st) st.by_hash_day
