-- ===== src/Updates/Order/Later.antt =====
-- What follows the merge: it reports, it may take the user's copy of the defaults away, and it
-- provisions the interpreter.
use claude_agent_wrap.Prelude.{ℕ, ◌≡◌, refl, Bool, true, ◌⊎◌, inl, inr, Text, text_beq, Bool-cases}
use claude_agent_wrap.Updates.Host.{
  Host, Event, ran, looked, stopped, asked, compared, unlinked, provisioned, shown, Level, Run,
  show_at,
}
use claude_agent_wrap.Updates.Git.{
  MdState, matches, customized, missing, MdPropagation, unchanged, updated, conflict,
  detect_claude_md_state, propagate, handle_claude_md_propagation, changed_files, resolve_ref,
  report_md, print_status, report_merge,
}
use claude_agent_wrap.Updates.Service.{report_bootstrap, reprovision_interpreter}
use claude_agent_wrap.Updates.Trace.{
  Grows-weaken, Emits, Emits-pure, Emits-act, Emits-bind, Emits-if,
}
use claude_agent_wrap.Updates.Order.Quiet.{is_question, Question, Emits-ask, Emits-show}

unfoldable pub is_later : Event → Bool
unfolding is_question
is_later unlinked = true
is_later provisioned = true
is_later e = is_question e

abbrev pub Later : Event → Type 0
Later e = is_later e ≡ true

Question-Later : (e : Event) → Question e → Later e
unfolding is_later is_question
Question-Later (ran args timeout) q = q
Question-Later (looked live) q = q
Question-Later stopped q = q
Question-Later (asked t) q = q
Question-Later compared q = q
Question-Later unlinked q = refl
Question-Later provisioned q = refl
Question-Later (shown level t) q = q

module _ (h : Host) where
  asks : {A : Type 0} (m : Run h A) → Emits h Question m → Emits h Later m
  unfolding Emits
  asks m p s = Grows-weaken Question-Later (p s)

  pub detect_claude_md_state-Emits : Emits h Question (detect_claude_md_state h)
  unfolding Emits detect_claude_md_state is_question
  detect_claude_md_state-Emits s = elim (Bool-cases (h.md_exist s.world)) [
    | inl there ↦
        rw (there, detect_claude_md_state)
          (Emits-bind h Question _ _ (Emits-act h Question _ _ (λ a. refl))
            (λ rc. Emits-pure h Question _) s)
    | inr absent ↦ rw (absent, detect_claude_md_state) (Emits-pure h Question _ s)
  ]

  propagate-Emits : (state : MdState) → Emits h Later (propagate h state)
  unfolding propagate is_later
  propagate-Emits matches =
      Emits-bind h Later _ _ (Emits-act h Later _ _ (λ a. refl)) (λ u. Emits-pure h Later _)
  propagate-Emits customized = Emits-pure h Later _
  propagate-Emits missing = Emits-pure h Later _

  handle-Emits :
      (before after : Text) (state : MdState)
      → Emits h Later (handle_claude_md_propagation h before after state)
  unfolding handle_claude_md_propagation text_beq
  handle-Emits before after state =
      Emits-bind h Later _ _ (asks _ (Emits-ask h _ _ _ refl))
        (λ (_, rc). Emits-if h Later _ _ _ (Emits-pure h Later _) (propagate-Emits state))

  changed_files-Emits : (before after : Text) → Emits h Question (changed_files h before after)
  unfolding changed_files text_beq
  changed_files-Emits before after =
      Emits-bind h Question _ _ (Emits-ask h _ _ _ refl) (λ r. Emits-pure h Question _)

  resolve_ref-Emits : (commit : Text) → Emits h Question (resolve_ref h commit)
  unfolding resolve_ref text_beq
  resolve_ref-Emits commit = Emits-bind h Question _ _ (Emits-ask h _ _ _ refl) (λ (tag, rc).
      Emits-if h Question _ _ _ (Emits-pure h Question _)
        (Emits-bind h Question _ _ (Emits-ask h _ _ _ refl) (λ r. Emits-pure h Question _)))

  report_md-Emits :
      (before after : Text) (status : MdPropagation)
      → Emits h Question (report_md h before after status)
  unfolding report_md
  report_md-Emits before after unchanged = Emits-pure h Question _
  report_md-Emits before after updated = Emits-show h _ _
  report_md-Emits before after conflict = Emits-show h _ _

  print_status-Emits :
      (before after : Text) (state : MdState) → Emits h Later (print_status h before after state)
  unfolding print_status
  print_status-Emits before after state =
      Emits-bind h Later _ _ (asks _ (resolve_ref-Emits before)) (λ b.
        Emits-bind h Later _ _ (asks _ (resolve_ref-Emits after)) (λ a.
          Emits-bind h Later _ _ (asks _ (Emits-show h _ _)) (λ u.
            Emits-bind h Later _ _ (asks _ (changed_files-Emits before after)) (λ changed.
              Emits-bind h Later _ _
                (asks _ (Emits-if h Question _ _ _ (Emits-show h _ _) (Emits-show h _ _)))
                (λ u.
                  Emits-bind h Later _ _
                    (asks _ (Emits-if h Question _ _ _ (Emits-show h _ _) (Emits-show h _ _)))
                    (λ u.
                      Emits-bind h Later _ _ (handle-Emits before after state)
                        (λ status. asks _ (report_md-Emits before after status))))))))

  pub report_merge-Emits :
      (before : Text) (state : MdState) → Emits h Later (report_merge h before state)
  unfolding report_merge text_beq
  report_merge-Emits before state =
      Emits-bind h Later _ _ (asks _ (Emits-ask h _ _ _ refl)) (λ (after, rc).
        Emits-if h Later _ _ _ (Emits-pure h Later _) (
          Emits-if h Later _ _ _
            (Emits-bind h Later _ _ (asks _ (Emits-show h _ _)) (λ u. Emits-pure h Later _))
            (Emits-bind h Later _ _ (print_status-Emits before after state)
              (λ u. Emits-pure h Later _))))

  pub shown-Later : (level : Level) (message : Text) → Emits h Later (show_at h level message)
  shown-Later level message = asks _ (Emits-show h level message)

  report_bootstrap-Emits : (r : Text ⊎ ℕ) → Emits h Question (report_bootstrap h r)
  unfolding report_bootstrap
  report_bootstrap-Emits (inl exc) = Emits-show h _ _
  report_bootstrap-Emits (inr code) =
      Emits-if h Question _ _ _ (Emits-pure h Question _) (Emits-show h _ _)

  pub reprovision_interpreter-Emits :
      (before : Text) → Emits h Later (reprovision_interpreter h before)
  unfolding reprovision_interpreter is_later text_beq
  reprovision_interpreter-Emits before =
      Emits-bind h Later _ _ (asks _ (Emits-ask h _ _ _ refl)) (λ (after, rc).
        Emits-if h Later _ _ _ (Emits-pure h Later _) (
          Emits-bind h Later _ _ (Emits-act h Later _ _ (λ a. refl))
            (λ r. asks _ (report_bootstrap-Emits r))))
