-- ===== src/Updates/Revision.antt =====
-- The report of the installed revision, which must neither reach the network nor write a lock.
use claude_agent_wrap.Prelude.{
  ℕ, ◌≡◌, ◌≢◌, refl, not, ◌||◌, Option, none, some, List, ◌∷◌, eqb, Text, codes,
}
use claude_agent_wrap.Updates.Host.{
  Host, GitRun, returned, unavailable, raised, raise, Event, ran, State, Run, pure,
}
use claude_agent_wrap.Updates.Git.{git, git_answer, is_empty}
use claude_agent_wrap.Updates.Service.{WrapperRevision, describe_on, current_revision}
use claude_agent_wrap.Updates.Trace.{Grows, stays, grows}
use claude_agent_wrap.Updates.Order.Leads.{
  Leads, Leads-pure, Leads-act_at, Leads-bind, Leads-if, After,
}

-- A call of git that takes no optional lock and has a time limit.
pub data Local : Event → Type 0 where
  local :
      (args : List Text) (seconds : ℕ)
      → Local (ran (codes "--no-optional-locks" ∷ args) (some seconds))

module _ (h : Host) (start : List Event)
    (caught : (args : List Text) (timeout : Option ℕ) (w : h.World)
      → (h.run_git args timeout w).1 ≢ raised) where
  abbrev Looked : List Event → Type 0
  Looked t = Grows Local start t

  -- No exception is let through: nothing may hold after one.
  abbrev Looks : {A : Type 0} → Run h A → Type 0
  Looks m = Leads h (λ _. ⊥) Looked m (λ _. Looked)

  done : {A : Type 0} (a : A) → Looks (pure h a)
  done a = Leads-pure h (λ _. ⊥) Looked _ a (λ t i. i)

  abbrev Caught : GitRun → List Event → Type 0
  Caught r t = (r ≢ raised) × Looked t

  git_answer-Looks : (r : GitRun) → Leads h (λ _. ⊥) (Caught r) (git_answer h r) (λ _. Looked)
  unfolding git_answer Leads raise
  git_answer-Looks (returned r) = Leads-pure h (λ _. ⊥) _ _ _ (λ t i. i.1)
  git_answer-Looks unavailable = Leads-pure h (λ _. ⊥) _ _ _ (λ t i. i.1)
  git_answer-Looks raised = λ s i. i.0 refl

  look-Looks :
      (args : List Text) (seconds : ℕ)
      → Looks (git h (codes "--no-optional-locks" ∷ args) (some seconds))
  unfolding git
  look-Looks args seconds =
      Leads-bind h (λ _. ⊥) Looked Caught _ _ _
        (Leads-act_at h (λ _. ⊥) Looked _ _ _
          (λ w t i. (caught _ _ w, grows _ t (local args seconds) i)))
        git_answer-Looks

  describe_on-Looks : (branch : Text) → Looks (describe_on h branch)
  unfolding describe_on
  describe_on-Looks branch =
      Leads-bind h (λ _. ⊥) Looked (λ _. Looked) _ _ _ (look-Looks _ _)
        (λ (commit, commit_rc).
          Leads-bind h (λ _. ⊥) Looked (λ _. Looked) _ _ _ (look-Looks _ _)
            (λ (describe, describe_rc).
              Leads-bind h (λ _. ⊥) Looked (λ _. Looked) _ _ _ (look-Looks _ _)
                (λ (porcelain, rc). done _)))

  current_revision-Looks : Looks (current_revision h)
  unfolding current_revision
  current_revision-Looks =
      Leads-bind h (λ _. ⊥) Looked (λ _. Looked) _ _ _ (look-Looks _ _)
        (λ (branch, rc).
          Leads-if h (λ _. ⊥) Looked _ (not (eqb rc 0) || is_empty branch) _ _
            (λ e.
              Leads-bind h (λ _. ⊥) Looked (λ _. Looked) _ _ _ (look-Looks _ _)
                (λ (_, head_rc).
                  Leads-if h (λ _. ⊥) Looked _ (not (eqb head_rc 0)) _ _ (λ e. done _)
                    (λ e. describe_on-Looks (codes "detached"))))
            (λ e. describe_on-Looks branch))

  After-some :
      {A : Type 0} (r : Option A × State h)
      → After h (λ _. ⊥) (λ _. Looked) r
      → (a : A) × (r.0 ≡ some a) × Looked r.1.trace
  After-some (none, s) q = absurd q
  After-some (some a, s) q = (a, refl, q)

-- If every exception of git's process is `TimeoutExpired` or `FileNotFoundError`, as when its output
-- is text, a revision is returned whatever git answers, and all that was done is calls of git
-- without optional locks and with a time limit.
pub current_revision-Local :
    (h : Host) (s : State h)
    → ((args : List Text) (timeout : Option ℕ) (w : h.World)
        → (h.run_git args timeout w).1 ≢ raised)
    → (r : WrapperRevision) × ((current_revision h s).0 ≡ some r)
      × Grows Local s.trace (current_revision h s).1.trace
unfolding Leads
current_revision-Local h s caught =
    After-some h s.trace caught (current_revision h s)
      (current_revision-Looks h s.trace caught s stays)
