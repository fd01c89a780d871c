-- ===== src/LogIndex/Pointers.antt =====
-- `HASH_POINTER_RE.findall` of agent_wrap/constants.py and `bytes.fromhex`: the addresses that the
-- `hash:` pointers in a text name.
use claude_agent_wrap.Prelude.{
  ℕ, zero, suc, ◌+◌, ◌-◌, ◌*◌, ◌&&◌, Option, none, some, List, [], ◌∷◌, leb, eqb, if◌then◌else◌,
  Text, codes,
}
use claude_agent_wrap.LogIndex.Codec.{Bytes}

-- The value of a digit of `[0-9a-f]`.
unfoldable pub hex_value : ℕ → Option ℕ
hex_value c =
    if leb b'0' c && leb c b'9'
    then some (c - 48)
    else if leb b'a' c && leb c b'f'
    then some (c - 87)
    else none

-- `n` bytes written as two digits each, at the start of a text.
unfoldable pub hex_bytes : ℕ → Text → Option Bytes
unfolding hex_value
hex_bytes zero s = some []
hex_bytes (suc n) (h ∷ l ∷ s) = elim (hex_value h) [
  | none ↦ none
  | some a ↦ elim (hex_value l) [
    | none ↦ none
    | some b ↦ elim (hex_bytes n s) [ none ↦ none | some rest ↦ some ((a * 16 + b) ∷ rest) ]
  ]
]
hex_bytes (suc n) _ = none

unfoldable pub after_prefix : Text → Text → Option Text
after_prefix [] s = some s
after_prefix (p ∷ ps) [] = none
after_prefix (p ∷ ps) (c ∷ s) = let rest = after_prefix ps s in if eqb p c then rest else none

-- The address of the pointer that a text begins with.
unfoldable pub pointer_at : Text → Option Bytes
unfolding after_prefix hex_bytes
pointer_at s = elim (after_prefix (codes "hash:") s) [
  | none ↦ none
  | some digits ↦ hex_bytes 32 digits
]

-- Matches do not overlap: after one, the 68 characters that follow its first are passed over.
unfoldable pub pointers_from : ℕ → Text → List Bytes
unfolding pointer_at
pointers_from skip [] = []
pointers_from (suc skip) (c ∷ s) = pointers_from skip s
pointers_from zero (c ∷ s) = elim (pointer_at (c ∷ s)) [
  | some address ↦ address ∷ pointers_from 68 s
  | none ↦ pointers_from zero s
]

unfoldable pub find_pointers : Text → List Bytes
unfolding pointers_from
find_pointers s = pointers_from 0 s
