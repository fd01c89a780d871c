-- ===== src/LogIndex/Sweep/Claim.antt =====
-- What `_claim` takes out of the candidates, and what it returns.
use claude_agent_wrap.Prelude.{
  ℕ, ◌+◌, ◌≤◌, ◌<◌, ◌≡◌, ◌≢◌, refl, sym, ap, ◌∙◌, ◌⊎◌, inl, inr, false, Option, none, some, List,
  [], ◌∷◌, ◌++◌, arith, length, length-append, In, In-split, In-append_left, In-append_right,
  Bool-cases, Option-cases, Text, text_eq, text_beq, text_beq_iff,
}
use claude_agent_wrap.Prelude.Dict.{get}
use claude_agent_wrap.LogIndex.Codec.{Bytes}
use claude_agent_wrap.LogIndex.Pointers.{find_pointers}
use claude_agent_wrap.LogIndex.Sweep.{Candidates, to_list, without, claim_pointers, claim}

pub get-without_self : (a : Bytes) (c : Candidates) → get a (without a c) ≡ none
unfolding get without
get-without_self a [] = refl
get-without_self a ((k, i) ∷ c) = ground (arith, get-without_self a c)

pub get-without_ne :
    (a b : Bytes) (c : Candidates) → text_beq a b ≡ false → get b (without a c) ≡ get b c
unfolding get without
get-without_ne a b [] h = refl
get-without_ne a b ((k, i) ∷ c) h =
    ground (arith, get-without_ne a b c h, text_beq_iff k a, text_beq_iff k b, text_beq_iff a b)

-- An address that is taken out was there.
get-without-some :
    (a b : Bytes) (i : ℕ) (c : Candidates) → get b (without a c) ≡ some i → get b c ≡ some i
get-without-some a b i c h = elim (Bool-cases (text_beq a b)) [
  | inl same ↦ let e : a ≡ b = (text_beq_iff a b).0 same in cc (get-without_self a c)
  | inr other ↦ sym (get-without_ne a b c other) ∙ h
]

length-without-le : (a : Bytes) (c : Candidates) → length (without a c) ≤ length c
unfolding without
length-without-le a [] = omega arith
length-without-le a ((k, i) ∷ c) = ground (arith, length-without-le a c)

length-without :
    (a : Bytes) (i : ℕ) (c : Candidates) → get a c ≡ some i → length (without a c) < length c
unfolding get without
length-without a i [] h = cc
length-without a i ((k, j) ∷ c) h = ground (arith, length-without-le a c, length-without a i c)

-- An entry that is found is there, and of a key that is there one is found.
pub get-In : (a : Bytes) (i : ℕ) (c : Candidates) → get a c ≡ some i → In (a, i) c
unfolding get
get-In a i [] h = cc
get-In a i ((k, j) ∷ c) h = elim (Bool-cases (text_beq k a)) [
  | inl same ↦
      let e : a ≡ k = sym ((text_beq_iff k a).0 same) in
      let v : i ≡ j = ground arith in inl (λ t. (e t, v t))
  | inr other ↦ inr (get-In a i c (ground arith))
]

pub In-get : (a : Bytes) (i : ℕ) (c : Candidates) → In (a, i) c → get a c ≢ none
unfolding get
In-get a i [] m h = m
In-get a i ((k, j) ∷ c) (inl e) h =
    let p : a ≡ k = ap (λ (x : Bytes × ℕ). x.0) e in ground (arith, text_beq_iff k a)
In-get a i ((k, j) ∷ c) (inr m) h = In-get a i c m (ground arith)

without-sub : (a : Bytes) (c : Candidates) (x : Bytes × ℕ) → In x (without a c) → In x c
unfolding without
without-sub a [] x m = m
without-sub a ((k, j) ∷ c) x m = elim (Bool-cases (text_beq k a)) [
  | inl same ↦ inr (without-sub a c x (rw same at m))
  | inr other ↦ elim (rw other at m) [ inl e ↦ inl e | inr r ↦ inr (without-sub a c x r) ]
]

-- `left` is `c` without the addresses of `as`, and `reached` has the ids of those that were there.
pub record Claims (as' : List Bytes) (c left : Candidates) (reached : List ℕ) : Type 0 where
  pub sub : (x : Bytes × ℕ) → In x left → In x c
  pub gone : (a : Bytes) → In a as' → get a left ≡ none
  pub kept : (b : Bytes) (i : ℕ) → get b left ≡ some i → get b c ≡ some i
  pub split :
      (b : Bytes) (i : ℕ) → get b c ≡ some i → (get b left ≡ some i) ⊎ (In b as' × In i reached)
  pub source : (i : ℕ) → In i reached → (a : Bytes) × In a as' × (get a c ≡ some i)
  pub shrinks : length left + length reached ≤ length c

-- What is absent stays absent.
pub Claims-none :
    {as' : List Bytes} {c left : Candidates} {reached : List ℕ}
    → Claims as' c left reached
    → (b : Bytes) → get b c ≡ none
    → get b left ≡ none
Claims-none {left = left} cl b h = elim (Option-cases (get b left)) [
  | inl e ↦ e
  | inr (i, e) ↦ cc (cl.kept b i e)
]

In-to_list : (i : ℕ) (o : Option ℕ) → o ≡ some i → In i (to_list o)
In-to_list i none h = cc
In-to_list i (some j) h = inl (ground arith)

to_list-In : (i : ℕ) (o : Option ℕ) → In i (to_list o) → o ≡ some i
to_list-In i none h = absurd h
to_list-In i (some j) (inl e) = ap some (sym e)
to_list-In i (some j) (inr h) = absurd h

step-shrinks :
    (a : Bytes) (c left : Candidates) (reached : List ℕ)
    → length left + length reached ≤ length (without a c)
    → length left + length (to_list (get a c) ++ reached) ≤ length c
step-shrinks a c left reached h = elim (Option-cases (get a c)) [
  | inl absent ↦ rw absent (omega (arith, length-without-le a c))
  | inr (i, there) ↦ rw there (omega (arith, length-without a i c there))
]

pub claim_pointers-Claims :
    (as' : List Bytes) (c : Candidates)
    → Claims as' c (claim_pointers as' c).0 (claim_pointers as' c).1
unfolding claim_pointers
claim_pointers-Claims [] c = record {
  sub = λ x m. m;
  gone = λ a m. absurd m;
  kept = λ b i h. h;
  split = λ b i h. inl h;
  source = λ i m. absurd m;
  shrinks = omega arith;
}
claim_pointers-Claims (a ∷ as') c =
    let rest = claim_pointers-Claims as' (without a c) in
    let (left, reached) = claim_pointers as' (without a c) in
    record {
      sub = λ x m. without-sub a c x (rest.sub x m);
      gone = λ b m. elim m [
        | inl e ↦ rw e (Claims-none rest a (get-without_self a c))
        | inr m' ↦ rest.gone b m'
      ];
      kept = λ b i h. get-without-some a b i c (rest.kept b i h);
      split = λ b i h. elim (Bool-cases (text_beq a b)) [
        | inl same ↦
            let e : a ≡ b = (text_beq_iff a b).0 same in
            inr (
              inl (sym e),
              In-append_left i (to_list (get a c)) reached (In-to_list i (get a c) (rw e h)),
            )
        | inr other ↦ elim (rest.split b i (get-without_ne a b c other ∙ h)) [
          | inl stays ↦ inl stays
          | inr (m, r) ↦ inr (inr m, In-append_right i (to_list (get a c)) reached r)
        ]
      ];
      source = λ i m. elim (In-split i (to_list (get a c)) reached m) [
        | inl here ↦ (a, inl refl, to_list-In i (get a c) here)
        | inr there ↦
            let (b, m', e) = rest.source i there in (b, inr m', get-without-some a b i c e)
      ];
      shrinks = step-shrinks a c left reached rest.shrinks;
    }

-- The pointers of several texts.
unfoldable pub pointers_of : List Text → List Bytes
pointers_of [] = []
pointers_of (t ∷ ts) = find_pointers t ++ pointers_of ts

-- One claim after another is a claim of both lists.
pub Claims-append :
    {as' bs : List Bytes} {c mid left : Candidates} {first second : List ℕ}
    → Claims as' c mid first
    → Claims bs mid left second
    → Claims (as' ++ bs) c left (first ++ second)
Claims-append {as'} {bs} {c} {mid} {left} {first} {second} p q = record {
  sub = λ x m. p.sub x (q.sub x m);
  gone = λ a m. elim (In-split a as' bs m) [
    | inl m' ↦ Claims-none q a (p.gone a m')
    | inr m' ↦ q.gone a m'
  ];
  kept = λ b i h. p.kept b i (q.kept b i h);
  split = λ b i h. elim (p.split b i h) [
    | inr (m, r) ↦ inr (In-append_left b as' bs m, In-append_left i first second r)
    | inl stays ↦ elim (q.split b i stays) [
      | inl e ↦ inl e
      | inr (m, r) ↦ inr (In-append_right b as' bs m, In-append_right i first second r)
    ]
  ];
  source = λ i m. elim (In-split i first second m) [
    | inl here ↦ let (a, m', e) = p.source i here in (a, In-append_left a as' bs m', e)
    | inr there ↦
        let (a, m', e) = q.source i there in (a, In-append_right a as' bs m', p.kept a i e)
  ];
  shrinks = omega (arith, p.shrinks, q.shrinks, length-append first second);
}

pub claim-Claims :
    (ts : List Text) (c : Candidates) → Claims (pointers_of ts) c (claim ts c).0 (claim ts c).1
unfolding claim pointers_of
claim-Claims [] c = claim_pointers-Claims [] c
claim-Claims (t ∷ ts) c =
    Claims-append (claim_pointers-Claims (find_pointers t) c)
      (claim-Claims ts (claim_pointers (find_pointers t) c).0)
