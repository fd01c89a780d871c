-- ===== src/LogIndex/Sweep/Distinct.antt =====
-- A test for the keys of the table `blobs`: that no two rows share a value.
use claude_agent_wrap.Prelude.{
  ◌≡◌, sym, ap, subst, ◌∙◌, inl, inr, Bool, true, not, ◌&&◌, List, [], ◌∷◌, map, arith, In, In-map,
  In-elem, elem, HasEq,
}

module _ {A B : Type 0} ⦃q : HasEq B⦄ (f : A → B) where
  unfoldable pub is_distinct : List A → Bool
  is_distinct [] = true
  is_distinct (x ∷ xs) = not (elem (f x) (map f xs)) && is_distinct xs

  fresh : (x y : A) (xs : List A) → is_distinct (x ∷ xs) ≡ true → In y xs → f x ≡ f y → ⊥
  unfolding is_distinct
  fresh x y xs h m e =
      let there =
        In-elem (f x) (map f xs) (subst (λ z. In z (map f xs)) (sym e) (In-map f y xs m)) in
      ground (arith, there)

  pub is_distinct_unique :
      (xs : List A) → is_distinct xs ≡ true → (a b : A) → In a xs → In b xs → f a ≡ f b → a ≡ b
  unfolding is_distinct
  is_distinct_unique [] h a b m n e = absurd m
  is_distinct_unique (x ∷ xs) h a b (inl p) (inl r) e = p ∙ sym r
  is_distinct_unique (x ∷ xs) h a b (inl p) (inr n) e = absurd (fresh x b xs h n (ap f (sym p) ∙ e))
  is_distinct_unique (x ∷ xs) h a b (inr m) (inl r) e =
      absurd (fresh x a xs h m (ap f (sym r) ∙ sym e))
  is_distinct_unique (x ∷ xs) h a b (inr m) (inr n) e =
      is_distinct_unique xs (ground arith) a b m n e
