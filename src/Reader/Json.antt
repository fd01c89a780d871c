-- ===== src/Reader/Json.antt =====
-- The values that `json.loads` gives, and what the reader asks of them.
use claude_agent_wrap.Prelude.{
  ℤ, pos, negsuc, ℕ, zero, ◌+◌, ◌*◌, Bool, true, false, not, Option, none, some, [], ◌∷◌,
  if◌then◌else◌, Text, text_beq,
}
use claude_agent_wrap.LogIndex.Codec.{Bytes, Zlib}

-- A float is kept as the text of its literal.
mutual
  pub data Json : Type 0 where
    null : Json
    bool : Bool → Json
    int : ℤ → Json
    float : Text → Json
    str : Text → Json
    arr : Items → Json
    obj : Fields → Json

  pub data Items : Type 0 where
    nil : Items
    cons : Json → Items → Items

  pub data Fields : Type 0 where
    end : Fields
    field : Text → Json → Fields → Fields

-- What Python's libraries implement: `json`, `hashlib`, `zlib`, `str` and `bytes`, the rounding of
-- a float times a million (`none` for an exception), and the two regular expressions of
-- agent_wrap/domain/logs/constants.py.
pub record Runtime : Type 0 where
  pub loads : Bytes → Option Json
  pub loads_text : Text → Option Json
  pub dumps : Json → Text
  pub encode_utf8 : Text → Bytes
  pub sha256 : Bytes → Bytes
  pub zlib : Zlib
  pub strip : Text → Text
  pub strip_bytes : Bytes → Bytes
  pub is_zero : Text → Bool
  pub round_micros : Text → Option ℤ
  pub search_name : Text → Option Text
  pub search_title : Text → Option Text

-- `d.get(key)`, where a missing key and `null` are the same.
unfoldable pub find : Text → Fields → Json
find key end = null
find key (field k v fs) = let rest = find key fs in if text_beq k key then v else rest

-- `value if isinstance(value, dict) else {}`
abbrev pub fields_or_empty : Json → Fields
fields_or_empty (obj fs) = fs
fields_or_empty _ = end

-- `value if isinstance(value, str) else None`
abbrev pub text_of : Json → Option Text
text_of (str t) = some t
text_of _ = none

abbrev pub int_of : Json → Option ℤ
int_of (int i) = some i
int_of _ = none

-- `_non_negative_int`
abbrev pub non_negative_int : Json → ℕ
non_negative_int (int (pos n)) = n
non_negative_int _ = 0

module _ (rt : Runtime) where
  -- `bool(value)`
  unfoldable pub truthy : Json → Bool
  truthy null = false
  truthy (bool b) = b
  truthy (int (pos zero)) = false
  truthy (int i) = true
  truthy (float t) = not (rt.is_zero t)
  truthy (str []) = false
  truthy (str (c ∷ t)) = true
  truthy (arr nil) = false
  truthy (arr (cons x xs)) = true
  truthy (obj end) = false
  truthy (obj (field k v fs)) = true

  -- `to_micros`: `none` is an exception, `some none` no timing.
  unfoldable pub to_micros : Json → Option (Option ℤ)
  to_micros (int (pos n)) = some (some (pos (n * 1000000)))
  to_micros (int (negsuc n)) = some (some (negsuc (n * 1000000 + 999999)))
  to_micros (float t) = elim (rt.round_micros t) [ none ↦ none | some i ↦ some (some i) ]
  to_micros _ = some none

  -- `canonical_bytes`
  unfoldable pub canonical_bytes : Json → Bytes
  canonical_bytes value = rt.encode_utf8 (rt.dumps value)

  -- `a or b`
  unfoldable pub or_else : Json → Json → Json
  unfolding truthy
  or_else a b = if truthy a then a else b

  -- `rec.get("timing") or {}`, of which `get` is called: `none` is an `AttributeError`.
  unfoldable pub fields_or : Json → Option Fields
  unfolding truthy
  fields_or (obj fs) = some fs
  fields_or value = if truthy value then none else some end
