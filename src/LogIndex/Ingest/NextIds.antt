-- ===== src/LogIndex/Ingest/NextIds.antt =====
-- Concrete ids for the runs on small inputs.
use claude_agent_wrap.Prelude.{
  ℕ, suc, ◌≤◌, refl, inl, inr, List, [], ◌∷◌, leb, if◌then◌else◌, In, arith,
}
use claude_agent_wrap.LogIndex.Ingest.{Ids, IsFresh}

-- Ids as SQLite gives them: one more than the greatest.
unfoldable pub greatest : List ℕ → ℕ
greatest [] = 0
greatest (n ∷ ns) = let rest = greatest ns in if leb n rest then rest else n

pub In-greatest : (i : ℕ) (ns : List ℕ) → In i ns → i ≤ greatest ns
unfolding greatest
In-greatest i [] m = absurd m
In-greatest i (n ∷ ns) (inl e) = ground arith
In-greatest i (n ∷ ns) (inr m) = let low = In-greatest i ns m in ground (arith, low)

abbrev pub next_ids : Ids
next_ids = record { fresh = λ used. suc (greatest used) }

pub next_ids-IsFresh : IsFresh next_ids
next_ids-IsFresh = record {
  fresh-new = λ used m. absurd (omega (arith, In-greatest (suc (greatest used)) used m));
}

greatest-below : (m : ℕ) (ns : List ℕ) → ((i : ℕ) → In i ns → i ≤ m) → greatest ns ≤ m
unfolding greatest
greatest-below m [] h = omega arith
greatest-below m (n ∷ ns) h =
    let low = greatest-below m ns (λ i l. h i (inr l)) in
    let first = h n (inl refl) in ground (arith, low, first)

pub next_ids-below :
    (used : List ℕ) (m : ℕ) → ((i : ℕ) → In i used → i ≤ m) → next_ids.fresh used ≤ suc m
next_ids-below used m h = let low = greatest-below m used h in omega arith
