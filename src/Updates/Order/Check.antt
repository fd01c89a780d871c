-- ===== src/Updates/Order/Check.antt =====
-- What the check before a command may do, by its outcome.
use mathlib.Core.Option.{some-injective}
use claude_agent_wrap.Prelude.{
  ◌≡◌, ◌≢◌, refl, sym, Bool, true, false, subst, not, Option, none, some, List, [], ◌∷◌, Text,
}
use claude_agent_wrap.Updates.Host.{LiveContainers, Host, Event, looked, State, Run}
use claude_agent_wrap.Updates.Git.{BehindCountResult}
use claude_agent_wrap.Updates.Service.{
  UpdateCheck, proceed, handled, blocked, live_names, refuse, blocked_by_live_containers, apply,
  offer, check_updates, is_truthy_env,
}
use claude_agent_wrap.Updates.Trace.{Grows, stays, grows, Grows-trans, Emits, Emits-act}
use claude_agent_wrap.Updates.Order.Quiet.{
  is_question, Question, Emits-show, get_behind_count-Emits,
}
use claude_agent_wrap.Updates.Order.Leads.{
  Leads, Leads-pure, Leads-act, Leads-bind, Leads-if, Leads-Emits, Leads-any, After,
}

-- Questions, then a look at the containers that found some, then questions.
pub data Refused (start : List Event) : List Event → Type 0 where
  refused :
      (live : LiveContainers) (t u : List Event)
      → live_names live ≢ []
      → Grows Question start t
      → Grows Question (looked live ∷ t) u
      → Refused start u

module _ (h : Host) (start : List Event) where
  -- What may have been done by the time that the check ends with an outcome.
  abbrev pub Outcome : UpdateCheck → List Event → Type 0
  Outcome proceed t = Grows Question start t
  Outcome blocked t = Refused start t
  Outcome handled t = Unit

  abbrev Asked : List Event → Type 0
  Asked t = Grows Question start t

  abbrev Checks :
      {A : Type 0} → (List Event → Type 0) → Run h A → (A → List Event → Type 0) → Type 0
  Checks I m Q = Leads h (λ _. Unit) I m Q

  asks : {A : Type 0} (m : Run h A) → Emits h Question m → Checks Asked m (λ _. Asked)
  asks m p = Leads-Emits h (λ _. Unit) Question Asked m (λ t u i g. Grows-trans i g) (λ t i. tt) p

  -- The look was the last that was done.
  abbrev Looked : LiveContainers → List Event → Type 0
  Looked live u = (t : List Event) × (u ≡ looked live ∷ t) × Grows Question start t

  abbrev Answered : Bool → List Event → Type 0
  Answered live t = live ≡ true → Refused start t

  refuse-Checks :
      (live : LiveContainers) (names : List Text)
      → live_names live ≡ names
      → Checks (Looked live) (refuse h names) Answered
  unfolding refuse is_question
  refuse-Checks live [] e = Leads-pure h (λ _. Unit) _ Answered false (λ t i f. cc f)
  refuse-Checks live (n ∷ names) e =
      let some_names : live_names live ≢ [] = λ f. cc (e, f) in
      Leads-bind h (λ _. Unit) _ (λ _. Refused start) Answered _ _
        (Leads-act h (λ _. Unit) _ (λ _. Refused start) _ _
          (λ a u i.
            let (t, same, g) = i in
            refused live t _ some_names g
              (grows _ _ refl (subst (λ x. Grows Question (looked live ∷ t) x) (sym same) stays))))
        (λ u. Leads-pure h (λ _. Unit) _ Answered true (λ t i f. i))

  looks : Checks Asked (blocked_by_live_containers h) Answered
  unfolding blocked_by_live_containers
  looks =
      Leads-bind h (λ _. Unit) Asked Looked Answered _ _
        (Leads-act h (λ _. Unit) Asked Looked _ _ (λ a t i. (t, refl, i)))
        (λ live. refuse-Checks live (live_names live) refl)

  offer-Checks : (found : Option BehindCountResult) → Checks Asked (offer h found) Outcome
  unfolding offer is_question
  offer-Checks none = Leads-pure h (λ _. Unit) Asked Outcome proceed (λ t i. i)
  offer-Checks (some result) =
      Leads-bind h (λ _. Unit) Asked (λ _. Asked) Outcome _ _ (asks _ (Emits-show h _ _))
        (λ u.
          Leads-bind h (λ _. Unit) Asked (λ _. Asked) Outcome _ _
            (asks _ (Emits-act h Question _ _ (λ a. refl)))
            (λ yes.
              Leads-if h (λ _. Unit) Asked Outcome (not yes) _ _
                (λ e. Leads-pure h (λ _. Unit) Asked Outcome proceed (λ t i. i))
                (λ e.
                  Leads-bind h (λ _. Unit) Asked Answered Outcome _ _ looks
                    (λ live.
                      Leads-if h (λ _. Unit) _ Outcome live _ _
                        (λ e. Leads-pure h (λ _. Unit) _ Outcome blocked (λ t i. i e))
                        (λ e.
                          Leads-bind h (λ _. Unit) _ (λ _ _. Unit) Outcome _ _
                            (Leads-any h (λ _. Unit) _ (apply h (some result.target_ref)) (λ t. tt))
                            (λ rc. Leads-pure h (λ _. Unit) _ Outcome handled (λ t i. tt)))))))

  check_updates-Checks : Checks Asked (check_updates h) Outcome
  unfolding check_updates
  check_updates-Checks =
      Leads-if h (λ _. Unit) Asked Outcome (is_truthy_env h h.skip_update_check) _ _
        (λ e. Leads-pure h (λ _. Unit) Asked Outcome proceed (λ t i. i))
        (λ e.
          Leads-bind h (λ _. Unit) Asked (λ _. Asked) Outcome _ _
            (asks _ (get_behind_count-Emits h)) offer-Checks)

  After-Outcome :
      (r : Option UpdateCheck × State h) (c : UpdateCheck)
      → r.0 ≡ some c
      → After h (λ _. Unit) Outcome r
      → Outcome c r.1.trace
  After-Outcome (none, s) c e q = cc
  After-Outcome (some d, s) c e q = subst (λ x. Outcome x s.trace) (some-injective d c e) q

-- A check that lets the command proceed has only put questions: it ran no merge, stopped no daemon
-- and did not look at the containers. One that blocks the command has besides looked at the
-- containers, once, and found some that run; it still ran no merge and stopped no daemon.
pub check_updates_outcome :
    (h : Host) (s : State h) (c : UpdateCheck)
    → (check_updates h s).0 ≡ some c
    → Outcome h s.trace c (check_updates h s).1.trace
unfolding Leads
check_updates_outcome h s c e =
    After-Outcome h s.trace (check_updates h s) c e (check_updates-Checks h s.trace s stays)
