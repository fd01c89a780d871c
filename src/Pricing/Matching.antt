-- ===== src/Pricing/Matching.antt =====
-- `ModelKeyMatcher.best_prefix_key` of agent_wrap/domain/providers/pricing.py: the price table's
-- key for a model name.
pub mod Best
use Prim.Native.Nat.{min}
use claude_agent_wrap.Prelude.{
  ℕ, ◌≡◌, Bool, true, false, ◌&&◌, ◌||◌, Option, none, some, List, [], ◌∷◌, ltb, eqb, if◌then◌else◌,
  length, Text, text_lt, starts_with,
}

-- One of the two is a prefix of the other.
unfoldable pub matches : Text → Text → Bool
matches query k = starts_with k query || starts_with query k

-- `rank > best_rank`, for the ranks `(min(len(k), len(query)), -len(k), k)` of two keys.
unfoldable pub outranks : Text → Text → Text → Bool
outranks query k best =
    let shared = min (length k) (length query) in
    let best_shared = min (length best) (length query) in
    ltb best_shared shared
    || (eqb best_shared shared
        && (ltb (length k) (length best) || (eqb (length k) (length best) && text_lt best k)))

unfoldable pub best_from : Text → Option Text → List Text → Option Text
best_from query best [] = best
best_from query none (k ∷ ks) = best_from query (if matches query k then some k else none) ks
best_from query (some b) (k ∷ ks) =
    best_from query (some (if matches query k && outranks query k b then k else b)) ks

unfoldable pub best_prefix_key : Text → List Text → Option Text
unfolding best_from
best_prefix_key query keys = best_from query none keys
