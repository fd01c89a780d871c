-- ===== src/Updates/Trace.antt =====
-- What a run adds to the list of what was done.
use claude_agent_wrap.Prelude.{
  Bool, true, false, Option, none, some, List, ◌∷◌, if◌then◌else◌, inr, In,
}
use claude_agent_wrap.Updates.Host.{Host, Event, State, Run, pure, raise, resume, bind, act}

-- `later` is `earlier` with events before it that satisfy `P`.
pub data Grows (P : Event → Type 0) (earlier : List Event) : List Event → Type 0 where
  stays : Grows P earlier earlier
  grows : (e : Event) (es : List Event) → P e → Grows P earlier es → Grows P earlier (e ∷ es)

module _ {P : Event → Type 0} where
  pub Grows-trans : {a b c : List Event} → Grows P a b → Grows P b c → Grows P a c
  Grows-trans g stays = g
  Grows-trans g (grows e es p q) = grows e es p (Grows-trans g q)

  pub Grows-weaken :
      {Q : Event → Type 0} {a b : List Event}
      → ((e : Event) → P e → Q e)
      → Grows P a b
      → Grows Q a b
  Grows-weaken w stays = stays
  Grows-weaken w (grows e es p q) = grows e es (w e p) (Grows-weaken w q)

  pub In-Grows : {a b : List Event} (x : Event) → Grows P a b → In x a → In x b
  In-Grows x stays m = m
  In-Grows x (grows e es p q) m = inr (In-Grows x q m)

module _ (h : Host) (P : Event → Type 0) where
  -- Whatever a run does satisfies `P`, and it hides nothing that was done before.
  unfoldable pub Emits : {A : Type 0} → Run h A → Type 0
  Emits m = (s : State h) → Grows P s.trace (m s).1.trace

  pub Emits-pure : {A : Type 0} (a : A) → Emits (pure h a)
  unfolding Emits pure
  Emits-pure a s = stays

  pub Emits-raise : (A : Type 0) → Emits {A = A} (raise h)
  unfolding Emits raise
  Emits-raise A s = stays

  pub Emits-act :
      {A : Type 0} (note : A → Event) (f : h.World → h.World × A)
      → ((a : A) → P (note a))
      → Emits (act h note f)
  unfolding Emits act
  Emits-act note f p s = grows _ _ (p _) stays

  Grows-resume :
      {A B : Type 0} (start : List Event) (f : A → Run h B) (r : Option A × State h)
      → ((a : A) → Emits (f a))
      → Grows P start r.1.trace
      → Grows P start (resume h f r).1.trace
  unfolding Emits resume
  Grows-resume start f (none, s) q g = g
  Grows-resume start f (some a, s) q g = Grows-trans g (q a s)

  pub Emits-bind :
      {A B : Type 0} (m : Run h A) (f : A → Run h B)
      → Emits m
      → ((a : A) → Emits (f a))
      → Emits (bind h m f)
  unfolding Emits bind
  Emits-bind m f p q s = Grows-resume s.trace f (m s) q (p s)

  pub Emits-if :
      {A : Type 0} (b : Bool) (m n : Run h A) → Emits m → Emits n → Emits (if b then m else n)
  Emits-if true m n p q = p
  Emits-if false m n p q = q
