-- ===== src/Stats/Days.antt =====
-- agent_wrap/domain/stats/format_utils.py and agent_wrap/lib/daytime.py: the days of a window.
use claude_agent_wrap.Prelude.{
  ℤ, pos, negsuc, ◌+◌, ℕ, ◌*◌, Bool, true, false, not, ◌&&◌, Option, none, some, if◌then◌else◌,
  Text, codes, text_beq, text_lt,
}

-- What the code uses of `datetime`: the instant of a timestamp, `timedelta(hours=DAY_START_HOURS)`
-- taken off one, its date in ISO form, its weekday and its hour.
pub record Calendar : Type 1 where
  pub Instant : Type 0
  pub from_timestamp : ℤ → Instant
  pub less_day_start : Instant → Instant
  pub iso_date : Instant → Text
  pub weekday : Instant → ℕ
  pub hour : Instant → ℕ

abbrev pub unknown_time_key : Text
unknown_time_key = codes "?"

abbrev pub is_none {ℓ} : {A : Type ℓ} → Option A → Bool
is_none none = true
is_none (some a) = false

-- `bound is not None and day_key < bound`
abbrev before : Text → Option Text → Bool
before day_key none = false
before day_key (some bound) = text_lt day_key bound

abbrev after : Text → Option Text → Bool
after day_key none = false
after day_key (some bound) = text_lt bound day_key

unfoldable pub day_in_range : Text → Option Text → Option Text → Bool
day_in_range day_key from_iso until_iso =
    if text_beq day_key unknown_time_key
    then is_none from_iso && is_none until_iso
    else if before day_key from_iso
    then false
    else not (after day_key until_iso)

-- `hour_bucket * 3600`; an hour before the epoch is negative.
abbrev pub in_seconds : ℤ → ℤ
in_seconds (pos n) = pos (n * 3600)
in_seconds (negsuc n) = negsuc (n * 3600 + 3599)

module _ (c : Calendar) where
  -- `hour_bucket_dt`
  abbrev pub hour_bucket_dt : ℤ → c.Instant
  hour_bucket_dt bucket = c.from_timestamp (in_seconds bucket)

  -- `get_day(dt, DAY_START_HOURS).isoformat()`
  abbrev pub get_day : c.Instant → Text
  get_day dt = c.iso_date (c.less_day_start dt)
