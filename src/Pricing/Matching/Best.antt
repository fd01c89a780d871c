-- ===== src/Pricing/Matching/Best.antt =====
-- On `ModelKeyMatcher.best_prefix_key`: the rank of the key that is chosen.
use claude_agent_wrap.Prelude.{
  ◌≡◌, refl, sym, ap, ◌∙◌, subst, Option-cases, ◌⊎◌, inl, inr, true, false, ◌&&◌, none, some, List,
  [], ◌∷◌, Text, starts_with, arith, All, Bool-cases, In, All-at, text_lt_irrefl, text_lt_asym,
  text_not_lt_trans, starts_with_self, length-starts_with, starts_with-eq,
}
use claude_agent_wrap.Pricing.Matching.{matches, outranks, best_from, best_prefix_key}

-- One of the keys, which matches, and which no key that matches outranks.
abbrev pub IsBest : Text → List Text → Text → Type 0
IsBest q ks k =
    In k ks × (matches q k ≡ true) × All (λ j. matches q j ≡ true → outranks q j k ≡ false) ks

widen : (k b j : Text) (ks : List Text) → (k ≡ b) ⊎ In k ks → (k ≡ b) ⊎ In k (j ∷ ks)
widen k b j ks (inl e) = inl e
widen k b j ks (inr h) = inr (inr h)

module _ (q : Text) where
  -- No key outranks itself, and to outrank is to outrank all that the other does not lose to.
  outranks_irrefl : (a : Text) → outranks q a a ≡ false
  unfolding outranks
  outranks_irrefl a = ground (arith, text_lt_irrefl a)

  not_outranks_trans :
      (a b c : Text) → outranks q a b ≡ false → outranks q b c ≡ false → outranks q a c ≡ false
  unfolding outranks
  not_outranks_trans a b c p r = ground (arith, text_not_lt_trans c b a)

  outranks_asym : (a b : Text) → outranks q a b ≡ true → outranks q b a ≡ false
  unfolding outranks
  outranks_asym a b h = ground (arith, text_lt_asym b a)

  -- What the loop returns matches, was there, and is outranked by no key that matches.
  best_from_lem :
      (b : Text) (ks : List Text)
      → matches q b ≡ true
      → (k : Text) × (best_from q (some b) ks ≡ some k)
        × (matches q k ≡ true)
        × ((k ≡ b) ⊎ In k ks)
        × (outranks q b k ≡ false)
        × All (λ j. matches q j ≡ true → outranks q j k ≡ false) ks
  unfolding best_from
  best_from_lem b [] m = (b, refl, m, inl refl, outranks_irrefl b, tt)
  best_from_lem b (j ∷ ks) m = elim (Bool-cases (matches q j && outranks q j b)) [
    | inl up ↦
        let (x, found, fits, from, low, rest) = best_from_lem j ks (ground arith) in
        let above : outranks q b j ≡ false = outranks_asym j b (ground arith) in
        (x, rw up found, fits, inr from, not_outranks_trans b j x above low, ((λ _. low), rest))
    | inr down ↦
        let (x, found, fits, from, low, rest) = best_from_lem b ks m in
        (
          x,
          rw down found,
          fits,
          widen x b j ks from,
          low,
          ((λ h. not_outranks_trans j b x (ground arith) low), rest),
        )
  ]

  -- A key that is found is one of the keys, it matches the query, and no key that matches has a
  -- greater rank.
  pub best_prefix_key_found :
      (ks : List Text) (k : Text) → best_prefix_key q ks ≡ some k → IsBest q ks k
  unfolding best_from best_prefix_key
  best_prefix_key_found [] k h = absurd (ground arith)
  best_prefix_key_found (j ∷ ks) k h = elim (Bool-cases (matches q j)) [
    | inl fits ↦
        let (x, found, m, from, low, rest) = best_from_lem j ks fits in
        let e : x ≡ k = ground arith in subst (IsBest q (j ∷ ks)) e (from, m, ((λ _. low), rest))
    | inr other ↦
        let (here, m, rest) = best_prefix_key_found ks k (ground arith) in
        (inr here, m, ((λ e. absurd (cc other)), rest))
  ]

  -- A search that finds none has met no key that matches.
  pub best_prefix_key_missing :
      (ks : List Text) → best_prefix_key q ks ≡ none → All (λ j. matches q j ≡ false) ks
  unfolding best_from best_prefix_key
  best_prefix_key_missing [] h = tt
  best_prefix_key_missing (j ∷ ks) h = elim (Bool-cases (matches q j)) [
    | inl fits ↦
        let (x, found, m, from, low, rest) = best_from_lem j ks fits in absurd (ground arith)
    | inr other ↦ (other, best_prefix_key_missing ks (ground arith))
  ]

  -- The query itself outranks every other key that matches.
  outranks_exact : (k : Text) → matches q k ≡ true → outranks q q k ≡ false → k ≡ q
  unfolding matches outranks
  outranks_exact k m o = elim (Bool-cases (starts_with k q)) [
    | inl longer ↦ starts_with-eq k q longer (ground (arith, length-starts_with k q))
    | inr other ↦ sym (starts_with-eq q k (ground arith) (ground (arith, length-starts_with q k)))
  ]

  matches_self : matches q q ≡ true
  unfolding matches
  matches_self = ground (arith, starts_with_self q)

  -- A key that is the model's name itself is the one that is chosen.
  pub best_prefix_key_exact : (ks : List Text) → In q ks → best_prefix_key q ks ≡ some q
  best_prefix_key_exact ks here = elim (Option-cases (best_prefix_key q ks)) [
    | inl missing ↦ absurd (
        cc (
          All-at (λ j. matches q j ≡ false) q ks (best_prefix_key_missing ks missing) here,
          matches_self,
        ))
    | inr (k, found) ↦
        let (_, m, best) = best_prefix_key_found ks k found in
        let beaten = All-at (λ j. matches q j ≡ true → outranks q j k ≡ false) q ks best here in
        found ∙ ap some (outranks_exact k m (beaten matches_self))
  ]
