-- ===== src/Updates/Order/Quiet.antt =====
-- The parts of an update that neither merge, nor stop the daemon, nor touch what is installed.
use claude_agent_wrap.Prelude.{
  ℕ, ◌≡◌, refl, Bool, true, false, not, Option, none, some, List, ◌∷◌, Text, codes, text_beq,
  Option-cases, inl, inr,
}
use claude_agent_wrap.Updates.Host.{
  Host, GitRun, returned, unavailable, raised, Event, ran, asked, compared, shown, Level, show_at,
}
use claude_agent_wrap.Updates.Git.{
  git, git_answer, latest_tag, resolve_target, behind_result, count_behind, get_behind_count,
}
use claude_agent_wrap.Updates.Trace.{
  Emits, Emits-pure, Emits-raise, Emits-act, Emits-bind, Emits-if,
}

-- A call of git's `merge`.
unfoldable pub is_merge : Event → Bool
is_merge (ran (command ∷ args) timeout) = text_beq command (codes "merge")
is_merge _ = false

-- Events that leave the checkout, the daemon and the containers alone.
unfoldable pub is_question : Event → Bool
unfolding is_merge
is_question (ran args timeout) = not (is_merge (ran args timeout))
is_question (asked t) = true
is_question (shown level t) = true
is_question compared = true
is_question _ = false

abbrev pub Question : Event → Type 0
Question e = is_question e ≡ true

module _ (h : Host) where
  git_answer-Emits : (P : Event → Type 0) (r : GitRun) → Emits h P (git_answer h r)
  unfolding git_answer
  git_answer-Emits P (returned r) = Emits-pure h P _
  git_answer-Emits P unavailable = Emits-pure h P _
  git_answer-Emits P raised = Emits-raise h P _

  pub Emits-git :
      (P : Event → Type 0) (args : List Text) (timeout : Option ℕ)
      → P (ran args timeout)
      → Emits h P (git h args timeout)
  unfolding git
  Emits-git P args timeout p = Emits-bind h P _ _ (Emits-act h P _ _ (λ a. p)) (git_answer-Emits P)

  pub Emits-show : (level : Level) (message : Text) → Emits h Question (show_at h level message)
  unfolding is_question
  Emits-show level message = Emits-act h Question _ _ (λ a. refl)

  pub Emits-ask :
      (command : Text) (args : List Text) (timeout : Option ℕ)
      → text_beq command (codes "merge") ≡ false
      → Emits h Question (git h (command ∷ args) timeout)
  unfolding is_question is_merge
  Emits-ask command args timeout e = Emits-git Question _ _ (rw e refl)

  latest_tag-Emits : (ref : Text) → Emits h Question (latest_tag h ref)
  unfolding latest_tag text_beq
  latest_tag-Emits ref =
      Emits-bind h Question _ _ (Emits-ask _ _ _ refl) (λ r. Emits-pure h Question _)

  resolve_target-Emits : (branch : Text) → Emits h Question (resolve_target h branch)
  unfolding resolve_target
  resolve_target-Emits branch = Emits-if h Question _ _ _ (Emits-pure h Question _) (
      Emits-bind h Question _ _ (latest_tag-Emits _)
        (λ l. Emits-bind h Question _ _ (latest_tag-Emits _) (λ u. Emits-pure h Question _)))

  behind_result-Emits :
      (branch behind : Text) (target : Option Text)
      → Emits h Question (behind_result h branch behind target)
  unfolding behind_result
  behind_result-Emits branch behind none = Emits-pure h Question _
  behind_result-Emits branch behind (some target) = elim (Option-cases (h.int_of behind)) [
    | inl e ↦ rw (e, behind_result) (Emits-raise h Question _)
    | inr (n, e) ↦ rw (e, behind_result) (Emits-pure h Question _)
  ]

  count_behind-Emits : (branch : Text) → Emits h Question (count_behind h branch)
  unfolding count_behind text_beq
  count_behind-Emits branch = Emits-bind h Question _ _ (Emits-ask _ _ _ refl) (λ (behind, rc).
      Emits-if h Question _ _ _ (Emits-pure h Question _) (
        Emits-bind h Question _ _ (resolve_target-Emits branch)
          (λ target. behind_result-Emits branch behind target)))

  pub get_behind_count-Emits : Emits h Question (get_behind_count h)
  unfolding get_behind_count text_beq
  get_behind_count-Emits = Emits-bind h Question _ _ (Emits-ask _ _ _ refl) (λ (_, rc).
      Emits-if h Question _ _ _ (Emits-pure h Question _) (
        Emits-bind h Question _ _ (Emits-ask _ _ _ refl) (λ (branch, rc).
          Emits-if h Question _ _ _ (Emits-pure h Question _) (
            Emits-bind h Question _ _ (Emits-ask _ _ _ refl) (λ (_, rc).
              Emits-if h Question _ _ _ (Emits-pure h Question _) (count_behind-Emits branch))))))
