-- ===== src/Updates/Order/Leads.antt =====
-- Conditions on what was done, before and after a run.
use claude_agent_wrap.Prelude.{
  ◌≡◌, refl, Bool, true, false, Option, none, some, List, ◌∷◌, if◌then◌else◌,
}
use claude_agent_wrap.Updates.Host.{Host, Event, State, Run, pure, resume, bind, act}
use claude_agent_wrap.Updates.Trace.{Grows, Emits}

-- `E` is to hold after an exception.
module _ (h : Host) (E : List Event → Type 0) where
  abbrev pub After : {A : Type 0} → (A → List Event → Type 0) → Option A × State h → Type 0
  After Q (none, s) = E s.trace
  After Q (some a, s) = Q a s.trace

  -- From `I`, a run ends in `Q` of what it returns.
  unfoldable pub Leads :
      {A : Type 0} → (List Event → Type 0) → Run h A → (A → List Event → Type 0) → Type 0
  Leads I m Q = (s : State h) → I s.trace → After Q (m s)

  pub Leads-pure :
      {A : Type 0} (I : List Event → Type 0) (Q : A → List Event → Type 0) (a : A)
      → ((t : List Event) → I t → Q a t)
      → Leads I (pure h a) Q
  unfolding Leads pure
  Leads-pure I Q a w s i = w s.trace i

  pub Leads-act :
      {A : Type 0} (I : List Event → Type 0) (Q : A → List Event → Type 0) (note : A → Event)
      (f : h.World → h.World × A)
      → ((a : A) (t : List Event) → I t → Q a (note a ∷ t))
      → Leads I (act h note f) Q
  unfolding Leads act
  Leads-act I Q note f w s i = w _ s.trace i

  -- What it gives is what `f` gives on some world.
  pub Leads-act_at :
      {A : Type 0} (I : List Event → Type 0) (Q : A → List Event → Type 0) (note : A → Event)
      (f : h.World → h.World × A)
      → ((w : h.World) (t : List Event) → I t → Q (f w).1 (note (f w).1 ∷ t))
      → Leads I (act h note f) Q
  unfolding Leads act
  Leads-act_at I Q note f w s i = w s.world s.trace i

  Leads-resume :
      {A B : Type 0} (J : A → List Event → Type 0) (Q : B → List Event → Type 0) (f : A → Run h B)
      (r : Option A × State h)
      → ((a : A) → Leads (J a) (f a) Q)
      → After J r
      → After Q (resume h f r)
  unfolding Leads resume
  Leads-resume J Q f (none, s) q g = g
  Leads-resume J Q f (some a, s) q g = q a s g

  pub Leads-bind :
      {A B : Type 0} (I : List Event → Type 0) (J : A → List Event → Type 0)
      (Q : B → List Event → Type 0) (m : Run h A) (f : A → Run h B)
      → Leads I m J
      → ((a : A) → Leads (J a) (f a) Q)
      → Leads I (bind h m f) Q
  unfolding Leads bind
  Leads-bind I J Q m f p q s i = Leads-resume J Q f (m s) q (p s i)

  -- Each branch may use what was tested.
  pub Leads-if :
      {A : Type 0} (I : List Event → Type 0) (Q : A → List Event → Type 0) (b : Bool)
      (m n : Run h A)
      → (b ≡ true → Leads I m Q)
      → (b ≡ false → Leads I n Q)
      → Leads I (if b then m else n) Q
  Leads-if I Q true m n p q = p refl
  Leads-if I Q false m n p q = q refl

  After-both :
      {A : Type 0} (K : List Event → Type 0) (r : Option A × State h)
      → ((t : List Event) → K t → E t)
      → K r.1.trace
      → After (λ _. K) r
  After-both K (none, s) e k = e s.trace k
  After-both K (some a, s) e k = k

  -- A run that only does what `P` says keeps what such events keep.
  pub Leads-Emits :
      {A : Type 0} (P : Event → Type 0) (I : List Event → Type 0) (m : Run h A)
      → ((t u : List Event) → I t → Grows P t u → I u)
      → ((t : List Event) → I t → E t)
      → Emits h P m
      → Leads I m (λ _. I)
  unfolding Leads Emits
  Leads-Emits P I m keep e p s i = After-both I (m s) e (keep s.trace _ i (p s))

  After-any : {A : Type 0} (r : Option A × State h) → ((t : List Event) → E t) → After (λ _. E) r
  After-any (none, s) e = e s.trace
  After-any (some a, s) e = e s.trace

  -- Where all is allowed, nothing is asked of a run.
  pub Leads-any :
      {A : Type 0} (I : List Event → Type 0) (m : Run h A)
      → ((t : List Event) → E t)
      → Leads I m (λ _. E)
  unfolding Leads
  Leads-any I m e s i = After-any (m s) e
