-- ===== src/Pricing/Extract.antt =====
-- How `PricingService` reads the token counts of a response, and the cache tier of a request.
pub mod Tier
use claude_agent_wrap.Prelude.{
  ◌>>=◌, ℕ, zero, suc, ◌≡◌, ◌≢◌, refl, String, Bool, true, false, not, ◌&&◌, ◌||◌, Option, none,
  some, List, [], ◌∷◌, ltb, eqb, if◌then◌else◌, string_eq, ◌==◌, arith, Bool-cases, inl, inr,
}
use claude_agent_wrap.Prelude.Dict.{Dict, get, put}
use claude_agent_wrap.Pricing.Usage.{TokenUsage, cache_write_split, ephemeral_5m, ephemeral_1h}

-- JSON as it is read; the numbers are counts.
mutual
  pub data Json : Type 0 where
    null : Json
    bool : Bool → Json
    num : ℕ → Json
    str : String → Json
    arr : Items → Json
    obj : Fields → Json

  pub data Items : Type 0 where
    nil : Items
    cons : Json → Items → Items

  pub data Fields : Type 0 where
    end : Fields
    field : String → Json → Fields → Fields

-- `source.get(key)`, where a missing key is told from `null`.
unfoldable pub find : String → Fields → Option Json
find key end = none
find key (field k v fs) = if k == key then some v else find key fs

-- A cache tier, and what a request asks for: one tier, or several.
pub data Ttl : Type 0 where
  ttl_5m ttl_1h mixed : Ttl

-- The set of the tiers that were met: whether each of them is in it.
abbrev pub TtlSet : Type 0
TtlSet = Bool × Bool

abbrev is_1h : Option Json → Bool
is_1h (some (str s)) = s == "1h"
is_1h _ = false

-- `out.add(…)`, for the `cache_control` of a node, if it is an object.
unfoldable pub add_ttl : Option Json → TtlSet → TtlSet
unfolding find
add_ttl (some (obj control)) (five, hour) =
    if is_1h (find "ttl" control) then (five, true) else (true, hour)
add_ttl _ out = out

unfoldable mutual
  unfolding add_ttl find

  pub collect_cache_ttls : Json → TtlSet → TtlSet
  collect_cache_ttls (obj fs) out = collect_fields fs (add_ttl (find "cache_control" fs) out)
  collect_cache_ttls (arr xs) out = collect_items xs out
  collect_cache_ttls null out = out
  collect_cache_ttls (bool b) out = out
  collect_cache_ttls (num n) out = out
  collect_cache_ttls (str s) out = out

  pub collect_fields : Fields → TtlSet → TtlSet
  collect_fields end out = out
  collect_fields (field k v fs) out =
      collect_fields fs (if k == "cache_control" then out else collect_cache_ttls v out)

  pub collect_items : Items → TtlSet → TtlSet
  collect_items nil out = out
  collect_items (cons x xs) out = collect_items xs (collect_cache_ttls x out)

abbrev only_ttl : TtlSet → Option Ttl
only_ttl (false, false) = none
only_ttl (true, false) = some ttl_5m
only_ttl (false, true) = some ttl_1h
only_ttl (true, true) = some mixed

-- `body.data`, if both are objects.
unfoldable pub body_data : Option Json → Option Fields
unfolding find
body_data (some (obj body)) = elim (find "data" body) [ some (obj data') ↦ some data' | _ ↦ none ]
body_data _ = none

unfoldable pub request_cache_ttl : Option Json → Option Ttl
unfolding collect_cache_ttls body_data find
request_cache_ttl (some (obj request)) = elim (body_data (find "body" request)) [
  | none ↦ none
  | some data' ↦ only_ttl (collect_cache_ttls (obj data') (false, false))
]
request_cache_ttl _ = none

-- `if key in source: split[key] = source[key]`
unfoldable pub copy_key : String → Fields → Dict String Json → Dict String Json
unfolding find put
copy_key key source split = elim (find key source) [ none ↦ split | some v ↦ put key v split ]

unfoldable pub copy_split : Option Json → Dict String Json → Dict String Json
unfolding copy_key
copy_split (some (obj source)) split =
    copy_key ephemeral_1h source (copy_key ephemeral_5m source split)
copy_split _ split = split

unfoldable pub response_cache_split : Fields → Dict String Json
unfolding copy_split find
response_cache_split usage =
    copy_split (some (obj usage)) (copy_split (find "cache_creation" usage) [])

-- `usage.get(key) or other`, of counts: `none` is a value that is no count.
unfoldable pub count_or : Option Json → Option ℕ → Option ℕ
count_or none other = other
count_or (some null) other = other
count_or (some (bool b)) other = if b then some 1 else other
count_or (some (num n)) other = if eqb n 0 then other else some n
count_or (some (str s)) other = if s == "" then other else none
count_or (some (arr nil)) other = other
count_or (some (arr (cons x xs))) other = none
count_or (some (obj end)) other = other
count_or (some (obj (field k v fs))) other = none

-- The counts of a split, which are kept as they are.
unfoldable pub counts : Dict String Json → Option (Dict String ℕ)
counts [] = some []
counts ((k, num n) ∷ split) = elim (counts split) [ none ↦ none | some rest ↦ some ((k, n) ∷ rest) ]
counts ((k, bool b) ∷ split) = elim (counts split) [
  | none ↦ none
  | some rest ↦ some ((k, (if b then 1 else 0)) ∷ rest)
]
counts _ = none

-- The tier that a flat cache-write total is put under, and whether the warning of mixed tiers is due.
unfoldable pub attribute : Dict String ℕ → ℕ → Option Ttl → Dict String ℕ × Bool
attribute (e ∷ split) cw_tokens ttl = (e ∷ split, false)
attribute [] zero ttl = ([], false)
attribute [] (suc n) none = ([], false)
attribute [] (suc n) (some mixed) = ([], true)
attribute [] (suc n) (some ttl_1h) = ((ephemeral_1h, suc n) ∷ [], false)
attribute [] (suc n) (some ttl_5m) = ((ephemeral_5m, suc n) ∷ [], false)

abbrev zero_usage : TokenUsage
zero_usage = record {
  input_tokens = 0;
  output_tokens = 0;
  cache_creation_input_tokens = 0;
  cache_read_input_tokens = 0;
  cache_creation = [];
}

-- `usage.get(key) or 0`
abbrev pub read_count : Fields → String → Option ℕ
read_count usage key = count_or (find key usage) (some 0)

abbrev pub usage_with : ℕ → ℕ → ℕ → ℕ → Dict String ℕ → TokenUsage
usage_with in_tokens out_tokens cw_tokens cr_tokens cache_creation = record {
  input_tokens = in_tokens;
  output_tokens = out_tokens;
  cache_creation_input_tokens = cw_tokens;
  cache_read_input_tokens = cr_tokens;
  cache_creation = cache_creation;
}

-- `none` stands for a count that is no number, which the code keeps until it is added up. Beside
-- the usage stands whether the warning of mixed tiers is due.
unfoldable pub usage_of : Fields → Option Ttl → Option (TokenUsage × Bool)
unfolding find count_or counts attribute response_cache_split
usage_of usage ttl = do
  in_tokens ← count_or (find "input_tokens" usage) (read_count usage "prompt_tokens")
  out_tokens ← count_or (find "output_tokens" usage) (read_count usage "completion_tokens")
  cw_tokens ← read_count usage "cache_creation_input_tokens"
  cr_tokens ← read_count usage "cache_read_input_tokens"
  split ← counts (response_cache_split usage)
  some (
    usage_with in_tokens out_tokens cw_tokens cr_tokens (attribute split cw_tokens ttl).0,
    (attribute split cw_tokens ttl).1,
  )

abbrev response_usage : Option Json → Option Fields
response_usage (some (obj response)) = elim (find "usage" response) [
  | some (obj (field k v fs)) ↦ some (field k v fs)
  | _ ↦ none
]
response_usage _ = none

unfoldable pub extract_usage : Option Json → Option Ttl → Option (TokenUsage × Bool)
unfolding usage_of find
extract_usage response ttl = elim (response_usage response) [
  | none ↦ some (zero_usage, false)
  | some usage ↦ usage_of usage ttl
]
