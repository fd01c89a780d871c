-- ===== src/Prelude/Members.antt =====
-- Membership in a list, by recursion, and the test for it.
use mathlib.Core.Path.{◌≡◌, sym, subst, ap}
use mathlib.Core.Logic.{◌⊎◌, inl, inr}
use mathlib.Core.Bool.{Bool, true, false, ◌||◌}
use mathlib.Core.List.{List, [], ◌∷◌, ◌++◌, map}
use native.Mathlib.Omega.{arith}
use claude_agent_wrap.Prelude.Tests.{Bool-cases}
use claude_agent_wrap.Prelude.Keys.{HasEq, ◌==◌}
use claude_agent_wrap.Prelude.Lists.{All}

abbrev pub In : {A : Type 0} → A → List A → Type 0
In a [] = ⊥
In a (x ∷ xs) = (a ≡ x) ⊎ In a xs

module _ {A : Type 0} where
  pub In-append_left : (a : A) (xs ys : List A) → In a xs → In a (xs ++ ys)
  In-append_left a [] ys h = absurd h
  In-append_left a (x ∷ xs) ys (inl e) = inl e
  In-append_left a (x ∷ xs) ys (inr h) = inr (In-append_left a xs ys h)

  pub In-append_right : (a : A) (xs ys : List A) → In a ys → In a (xs ++ ys)
  In-append_right a [] ys h = h
  In-append_right a (x ∷ xs) ys h = inr (In-append_right a xs ys h)

  pub In-split : (a : A) (xs ys : List A) → In a (xs ++ ys) → In a xs ⊎ In a ys
  In-split a [] ys h = inr h
  In-split a (x ∷ xs) ys (inl e) = inl (inl e)
  In-split a (x ∷ xs) ys (inr h) = elim (In-split a xs ys h) [ inl l ↦ inl (inr l) | inr r ↦ inr r ]

  pub All-at : (P : A → Type 0) (a : A) (xs : List A) → All P xs → In a xs → P a
  All-at P a [] h m = absurd m
  All-at P a (x ∷ xs) h (inl e) = subst P (sym e) h.0
  All-at P a (x ∷ xs) h (inr m) = All-at P a xs h.1 m

  pub In-map : {B : Type 0} (f : A → B) (a : A) (xs : List A) → In a xs → In (f a) (map f xs)
  In-map f a [] m = absurd m
  In-map f a (x ∷ xs) (inl e) = inl (ap f e)
  In-map f a (x ∷ xs) (inr m) = inr (In-map f a xs m)

-- `a in xs`
unfoldable pub elem : {A : Type 0} ⦃e : HasEq A⦄ → A → List A → Bool
elem a [] = false
elem a (x ∷ xs) = a == x || elem a xs

module _ {A : Type 0} ⦃e : HasEq A⦄ where
  pub elem-In : (a : A) (xs : List A) → elem a xs ≡ true → In a xs
  unfolding elem
  elem-In a [] h = cc
  elem-In a (x ∷ xs) h = elim (Bool-cases (a == x)) [
    | inl same ↦ inl ((e.equals_iff a x).0 same)
    | inr other ↦ inr (elem-In a xs (ground arith))
  ]

  pub In-elem : (a : A) (xs : List A) → In a xs → elem a xs ≡ true
  unfolding elem
  In-elem a [] m = absurd m
  In-elem a (x ∷ xs) (inl p) = rw ((e.equals_iff a x).1 p)
  In-elem a (x ∷ xs) (inr m) = ground (arith, In-elem a xs m)

  pub not_elem-In : (a : A) (xs : List A) → elem a xs ≡ false → ¬ In a xs
  not_elem-In a xs h m = cc (In-elem a xs m)
