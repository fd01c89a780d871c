-- ===== src/Updates/Git.antt =====
-- `_GitOps`: the questions that are put to git, and the fast-forward.
use claude_agent_wrap.Prelude.{
  ℕ, Bool, not, ◌&&◌, ◌||◌, Option, none, some, List, [], ◌∷◌, ◌++◌, eqb, any, elem, if◌then◌else◌,
  Text, codes, text_beq, text_eq,
}
use claude_agent_wrap.Updates.Host.{
  success, warning, error, GitFullResult, GitRun, returned, unavailable, raised, Host, ran,
  compared, unlinked, Run, pure, raise, bind, act, show_at,
}

pub record BehindCountResult : Type 0 where
  pub branch : Text
  pub commits_behind : ℕ
  pub target_ref : Text

pub data MdState : Type 0 where
  matches customized missing : MdState

pub data MdPropagation : Type 0 where
  unchanged updated conflict : MdPropagation

abbrev pub is_empty : Text → Bool
is_empty t = text_beq t []

abbrev resource_files : List Text
resource_files = codes "agent-wrap.bashrc" ∷ []

abbrev bootstrap_files : List Text
bootstrap_files =
    codes "python-pin.env" ∷ codes "bin/agent-bootstrap" ∷ codes "bin/requirements.txt" ∷ []

-- `a & b`, as a test.
abbrev meets : List Text → List Text → Bool
meets a b = any (λ x. elem x b) a

module _ (h : Host) where
  -- `git`: an exception that is caught reads as no output and the code 1.
  unfoldable pub git_answer : GitRun → Run h (Text × ℕ)
  git_answer (returned r) = pure h (h.strip r.stdout, r.returncode)
  git_answer unavailable = pure h ([], 1)
  git_answer raised = raise h

  unfoldable pub git : List Text → Option ℕ → Run h (Text × ℕ)
  git args timeout = bind h (act h (λ _. ran args timeout) (h.run_git args timeout)) git_answer

  unfoldable pub git_full_answer : GitRun → Run h GitFullResult
  git_full_answer (returned r) =
      pure h
        (record { stdout = h.strip r.stdout; returncode = r.returncode; stderr = h.strip r.stderr })
  git_full_answer unavailable = pure h (record { stdout = []; returncode = 1; stderr = [] })
  git_full_answer raised = raise h

  unfoldable pub git_full : List Text → Run h GitFullResult
  git_full args = bind h (act h (λ _. ran args none) (h.run_git args none)) git_full_answer

  unfoldable pub latest_tag : Text → Run h (Option Text)
  latest_tag ref =
      bind h (git (codes "describe" ∷ codes "--tags" ∷ codes "--abbrev=0" ∷ ref ∷ []) none)
        (λ (tag, rc). pure h (if not (eqb rc 0) || is_empty tag then none else some tag))

  -- The end of `resolve_target`: no tag upstream, or the one that is installed, is no target.
  unfoldable pub newer_tag : Option Text → Option Text → Option Text
  newer_tag none local_tag = none
  newer_tag (some upstream) none = some upstream
  newer_tag (some upstream) (some local) = if text_beq upstream local then none else some upstream

  unfoldable pub resolve_target : Text → Run h (Option Text)
  resolve_target branch =
      if not (text_beq branch (codes "master"))
      then pure h (some (codes "origin/" ++ branch))
      else bind h (latest_tag (codes "HEAD")) (λ local_tag.
        bind h (latest_tag (codes "origin/" ++ branch))
          (λ upstream_tag. pure h (newer_tag upstream_tag local_tag)))

  -- The end of `get_behind_count`; a count that is no number is a `ValueError`.
  unfoldable pub behind_result : Text → Text → Option Text → Run h (Option BehindCountResult)
  behind_result branch behind none = pure h none
  behind_result branch behind (some target) = elim (h.int_of behind) [
    | none ↦ raise h
    | some n ↦ pure h (some (record { branch = branch; commits_behind = n; target_ref = target }))
  ]

  unfoldable pub count_behind : Text → Run h (Option BehindCountResult)
  count_behind branch =
      bind h
        (git (codes "rev-list" ∷ codes "--count" ∷ (codes "HEAD..origin/" ++ branch) ∷ []) none)
        (λ (behind, rc).
          if not (eqb rc 0) || (is_empty behind || text_beq behind (codes "0"))
          then pure h none
          else bind h (resolve_target branch) (λ target. behind_result branch behind target))

  unfoldable pub get_behind_count : Run h (Option BehindCountResult)
  get_behind_count = bind h (git (codes "rev-parse" ∷ codes "--git-dir" ∷ []) none) (λ (_, rc).
      if not (eqb rc 0)
      then pure h none
      else bind h (git (codes "symbolic-ref" ∷ codes "--short" ∷ codes "HEAD" ∷ []) none)
          (λ (branch, rc).
            if not (eqb rc 0) || is_empty branch
            then pure h none
            else bind h
                (git
                  (codes "fetch" ∷ codes "--quiet" ∷ codes "--tags" ∷ codes "origin" ∷ branch ∷ [])
                  (some 10))
                (λ (_, rc). if not (eqb rc 0) then pure h none else count_behind branch)))

  unfoldable pub detect_claude_md_state : Run h MdState
  detect_claude_md_state s =
      if not (h.md_exist s.world)
      then pure h missing s
      else bind h (act h (λ _. compared) h.diff_md)
          (λ rc. pure h (if eqb rc 0 then matches else customized)) s

  -- What is done to the user's copy once the default has changed.
  unfoldable pub propagate : MdState → Run h MdPropagation
  propagate matches =
      bind h (act h (λ _. unlinked) (λ w. (h.unlink_md w, tt))) (λ _. pure h updated)
  propagate customized = pure h conflict
  propagate missing = pure h unchanged

  unfoldable pub handle_claude_md_propagation : Text → Text → MdState → Run h MdPropagation
  handle_claude_md_propagation before after pre_state =
      bind h
        (git
          (codes "diff"
            ∷ codes "--quiet"
            ∷ before
            ∷ after
            ∷ codes "--"
            ∷ codes "default-CLAUDE.md"
            ∷ [])
          none)
        (λ (_, rc). if eqb rc 0 then pure h unchanged else propagate pre_state)

  unfoldable pub changed_files : Text → Text → Run h (List Text)
  changed_files before after =
      bind h (git (codes "diff" ∷ codes "--name-only" ∷ before ∷ after ∷ []) none)
        (λ (out, rc). pure h (if not (eqb rc 0) || is_empty out then [] else h.splitlines out))

  unfoldable pub resolve_ref : Text → Run h Text
  resolve_ref commit =
      bind h (git (codes "describe" ∷ codes "--tags" ∷ codes "--exact-match" ∷ commit ∷ []) none)
        (λ (tag, rc).
          if eqb rc 0 && not (is_empty tag)
          then pure h tag
          else bind h (git (codes "rev-parse" ∷ codes "--short" ∷ commit ∷ []) none)
              (λ (short, _). pure h (if is_empty short then commit else short)))

  unfoldable pub report_md : Text → Text → MdPropagation → Run h (Unit {0})
  report_md before after unchanged = pure h tt
  report_md before after updated = show_at h success (codes "CLAUDE.md updated to new default")
  report_md before after conflict = show_at h error (
      codes "CLAUDE.md changed upstream but you have local customizations\nReview: git -C \""
      ++ (h.tool_dir
          ++ (codes "\" diff "
              ++ (before
                  ++ (codes " "
                      ++ (after
                          ++ codes
                              " -- default-CLAUDE.md\nMerge into .claude_config/.claude/CLAUDE.md or delete it to accept the new default"))))))

  unfoldable pub print_status : Text → Text → MdState → Run h (Unit {0})
  print_status before after pre_state = bind h (resolve_ref before) (λ before_ref.
      bind h (resolve_ref after) (λ after_ref.
        bind h (show_at h success (codes "Updated " ++ (before_ref ++ (codes " -> " ++ after_ref))))
          (λ _. bind h (changed_files before after) (λ changed.
            bind h
              (if meets changed resource_files
                then show_at h warning (codes "re-source agent-wrap.bashrc to apply latest changes")
                else show_at h success (codes "no re-source needed"))
              (λ _.
                bind h
                  (if meets changed bootstrap_files
                    then show_at h warning
                        (codes "the interpreter or its dependencies moved — re-provisioning")
                    else show_at h success (codes "no re-provision needed"))
                  (λ _.
                    bind h (handle_claude_md_propagation before after pre_state)
                      (λ status. report_md before after status)))))))

  -- What follows the merge.
  unfoldable pub report_merge : Text → MdState → Run h ℕ
  report_merge before pre_state =
      bind h (git (codes "rev-parse" ∷ codes "HEAD" ∷ []) none) (λ (after, rc).
        if not (eqb rc 0)
        then pure h 1
        else if text_beq before after
        then bind h (show_at h success (codes "Already up to date")) (λ _. pure h 0)
        else bind h (print_status before after pre_state) (λ _. pure h 0))

  unfoldable pub fast_forward : Text → Text → MdState → Run h ℕ
  fast_forward target_ref before pre_state =
      bind h (git_full (codes "merge" ∷ codes "--ff-only" ∷ target_ref ∷ [])) (λ r.
        if not (eqb r.returncode 0)
        then bind h
            (show_at h error (
              if is_empty r.stderr
              then codes "update failed"
              else codes "update failed\n" ++ r.stderr))
            (λ _. pure h 1)
        else report_merge before pre_state)
