-- ===== src/Prelude/Texts.antt =====
-- Text as the list of its code points, where the code looks into it. Order is that of Python's
-- `str`, code point by code point.
use Prim.Native.Nat.{ℕ, ◌≤◌}
use Prim.Native.String.{String}
use Prim.Native.Char.{code}
use mathlib.Core.Path.{◌≡◌, refl, ap₂}
use mathlib.Core.Logic.{◌↔◌, inl, inr}
use mathlib.Core.Bool.{Bool, true, false, ◌&&◌, ◌||◌}
use mathlib.Core.List.{List, [], ◌∷◌}
use native.Mathlib.Omega.{arith}
use claude_agent_wrap.Prelude.Tests.{ltb, eqb, Bool-cases}
use claude_agent_wrap.Prelude.Lists.{length}
use claude_agent_wrap.Prelude.Keys.{HasEq}

abbrev pub Text : Type 0
Text = List ℕ

-- The code points of a literal.
abbrev pub codes : String → Text
codes String.[] = []
codes (String.◌∷◌ first rest) = code first ∷ codes rest

unfoldable pub text_beq : Text → Text → Bool
text_beq [] [] = true
text_beq (x ∷ xs) (y ∷ ys) = eqb x y && text_beq xs ys
text_beq _ _ = false

text_beq-eq : (a b : Text) → text_beq a b ≡ true → a ≡ b
unfolding text_beq
text_beq-eq [] [] h = refl
text_beq-eq [] (y ∷ ys) h = cc
text_beq-eq (x ∷ xs) [] h = cc
text_beq-eq (x ∷ xs) (y ∷ ys) h = ap₂ ◌∷◌ (ground arith) (text_beq-eq xs ys (ground arith))

text_beq_self : (a : Text) → text_beq a a ≡ true
unfolding text_beq
text_beq_self [] = refl
text_beq_self (x ∷ xs) = ground (arith, text_beq_self xs)

pub text_beq_iff : (a b : Text) → (text_beq a b ≡ true) ↔ (a ≡ b)
text_beq_iff a b = (text_beq-eq a b, λ e. rw e (text_beq_self b))

instance abbrev pub text_eq : HasEq Text
text_eq = record { equals = text_beq; equals_iff = text_beq_iff }

-- `a < b`
unfoldable pub text_lt : Text → Text → Bool
text_lt [] [] = false
text_lt [] (y ∷ ys) = true
text_lt (x ∷ xs) [] = false
text_lt (x ∷ xs) (y ∷ ys) = ltb x y || (eqb x y && text_lt xs ys)

pub text_lt_irrefl : (a : Text) → text_lt a a ≡ false
unfolding text_lt
text_lt_irrefl [] = refl
text_lt_irrefl (x ∷ xs) = ground (arith, text_lt_irrefl xs)

pub text_lt_trans : (a b c : Text) → text_lt a b ≡ true → text_lt b c ≡ true → text_lt a c ≡ true
unfolding text_lt
text_lt_trans [] [] c p q = cc
text_lt_trans [] (y ∷ ys) [] p q = cc
text_lt_trans [] (y ∷ ys) (z ∷ zs) p q = refl
text_lt_trans (x ∷ xs) [] c p q = cc
text_lt_trans (x ∷ xs) (y ∷ ys) [] p q = cc
text_lt_trans (x ∷ xs) (y ∷ ys) (z ∷ zs) p q = ground (arith, text_lt_trans xs ys zs)

-- Of two texts, one is less or they are the same.
pub text_lt_total : (a b : Text) → text_lt a b ≡ false → text_lt b a ≡ false → a ≡ b
unfolding text_lt
text_lt_total [] [] p q = refl
text_lt_total [] (y ∷ ys) p q = cc
text_lt_total (x ∷ xs) [] p q = cc
text_lt_total (x ∷ xs) (y ∷ ys) p q =
    ap₂ ◌∷◌ (ground arith) (text_lt_total xs ys (ground arith) (ground arith))

-- `s.startswith(p)`
unfoldable pub starts_with : Text → Text → Bool
starts_with s [] = true
starts_with [] (y ∷ ys) = false
starts_with (x ∷ xs) (y ∷ ys) = eqb x y && starts_with xs ys

pub starts_with_self : (s : Text) → starts_with s s ≡ true
unfolding starts_with
starts_with_self [] = refl
starts_with_self (x ∷ xs) = ground (arith, starts_with_self xs)

pub length-starts_with : (s p : Text) → starts_with s p ≡ true → length p ≤ length s
unfolding starts_with
length-starts_with s [] h = omega arith
length-starts_with [] (y ∷ ys) h = cc
length-starts_with (x ∷ xs) (y ∷ ys) h = ground (arith, length-starts_with xs ys)

-- A prefix as long as the text is the text.
pub starts_with-eq : (s p : Text) → starts_with s p ≡ true → length s ≤ length p → s ≡ p
unfolding starts_with
starts_with-eq [] [] h l = refl
starts_with-eq (x ∷ xs) [] h l = absurd (omega arith)
starts_with-eq [] (y ∷ ys) h l = cc
starts_with-eq (x ∷ xs) (y ∷ ys) h l =
    ap₂ ◌∷◌ (ground arith) (starts_with-eq xs ys (ground arith) (omega arith))

pub text_lt_asym : (a b : Text) → text_lt a b ≡ true → text_lt b a ≡ false
text_lt_asym a b h = elim (Bool-cases (text_lt b a)) [
  | inl back ↦ cc (text_lt_trans a b a h back, text_lt_irrefl a)
  | inr clear ↦ clear
]

pub text_not_lt_trans :
    (a b c : Text) → text_lt a b ≡ false → text_lt b c ≡ false → text_lt a c ≡ false
text_not_lt_trans a b c p q = elim (Bool-cases (text_lt a c)) [
  | inr clear ↦ clear
  | inl less ↦ elim (Bool-cases (text_lt b a)) [
    | inl ba ↦ cc (text_lt_trans b a c ba less)
    | inr none_less ↦ cc (text_lt_total a b p none_less)
  ]
]
