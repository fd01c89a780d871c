-- ===== src/Updates/Service.antt =====
-- `UpdateService`: the check before a command, the update itself, and the installed revision.
use claude_agent_wrap.Prelude.{
  ℕ, ◌⊎◌, inl, inr, Bool, true, false, not, ◌&&◌, ◌||◌, Option, none, some, List, [], ◌∷◌, ◌++◌,
  eqb, elem, length, if◌then◌else◌, Text, codes, text_beq, text_eq,
}
use claude_agent_wrap.Updates.Host.{
  success, warning, error, LiveContainers, Host, looked, stopped, asked, provisioned, Run, pure,
  bind, act, show_at,
}
use claude_agent_wrap.Updates.Git.{
  BehindCountResult, is_empty, git, get_behind_count, detect_claude_md_state, fast_forward,
}

-- `UpdateCheck`
pub data UpdateCheck : Type 0 where
  proceed handled blocked : UpdateCheck

pub record WrapperRevision : Type 0 where
  pub branch : Text
  pub commit : Text
  pub describe : Text
  pub dirty : Bool

-- `separator.join(names)`
unfoldable pub join : Text → List Text → Text
join separator [] = []
join separator (n ∷ []) = n
join separator (n ∷ m ∷ names) = n ++ (separator ++ join separator (m ∷ names))

abbrev pub live_names : LiveContainers → List Text
live_names live = live.agents ++ live.sidecars

module _ (h : Host) where
  -- `is_truthy_env`
  unfoldable pub is_truthy_env : Text → Bool
  is_truthy_env value =
      not (elem (h.lower value) ([] ∷ codes "0" ∷ codes "false" ∷ codes "no" ∷ []))

  -- What is said of the containers that are live: whether the update must not start.
  unfoldable pub refuse : List Text → Run h Bool
  refuse [] = pure h false
  refuse (n ∷ names) =
      bind h
        (show_at h error (
          codes "update refused: "
          ++ (h.show (length (n ∷ names))
              ++ (codes " container(s) still running\n  "
                  ++ (join (codes "\n  ") (n ∷ names) ++ codes "\nStop them and re-run.")))))
        (λ _. pure h true)

  unfoldable pub blocked_by_live_containers : Run h Bool
  blocked_by_live_containers =
      bind h (act h looked h.live_containers) (λ live. refuse (live_names live))

  abbrev provision_failed : Text → Text
  provision_failed message = message ++ (codes "\nRun: " ++ h.bootstrap_path)

  unfoldable pub report_bootstrap : Text ⊎ ℕ → Run h (Unit {0})
  report_bootstrap (inl exc) =
      show_at h error (provision_failed (codes "could not provision the pinned CPython: " ++ exc))
  report_bootstrap (inr code) =
      if eqb code 0
      then pure h tt
      else show_at h error (provision_failed (codes "provisioning the pinned CPython failed"))

  unfoldable pub reprovision_interpreter : Text → Run h (Unit {0})
  reprovision_interpreter before =
      bind h (git h (codes "rev-parse" ∷ codes "HEAD" ∷ []) none) (λ (after, rc).
        if not (eqb rc 0) || text_beq after before
        then pure h tt
        else bind h (act h (λ _. provisioned) h.bootstrap) report_bootstrap)

  -- `apply` from where the target is known to be there: the merge, with what must precede it.
  unfoldable pub merge_into : Text → Text → Run h ℕ
  merge_into before target_ref = bind h (detect_claude_md_state h) (λ pre_state.
      bind h (act h (λ _. stopped) (λ w. (h.stop_daemon w, tt))) (λ _.
        bind h (fast_forward h target_ref before pre_state) (λ rc.
          if eqb rc 0
          then bind h (reprovision_interpreter before) (λ _. pure h rc)
          else pure h rc)))

  unfoldable pub apply_to : Text → Run h ℕ
  apply_to target_ref = bind h (git h (codes "rev-parse" ∷ codes "HEAD" ∷ []) none) (λ (before, rc).
      if not (eqb rc 0)
      then bind h (show_at h error (codes "update failed\ncould not get current HEAD"))
          (λ _. pure h 1)
      else bind h blocked_by_live_containers
          (λ live. if live then pure h 1 else merge_into before target_ref))

  -- The target that is not given is computed; that there is none is no failure.
  unfoldable pub apply_found : Option BehindCountResult → Run h ℕ
  apply_found none = bind h (show_at h success (codes "Already up to date")) (λ _. pure h 0)
  apply_found (some result) = apply_to result.target_ref

  unfoldable pub apply_target : Option Text → Run h ℕ
  apply_target (some target_ref) = apply_to target_ref
  apply_target none = bind h (get_behind_count h) apply_found

  unfoldable pub apply : Option Text → Run h ℕ
  apply target_ref =
      bind h (git h (codes "symbolic-ref" ∷ codes "--short" ∷ codes "HEAD" ∷ []) none) (λ (_, rc).
        if not (eqb rc 0)
        then bind h (show_at h error (codes "update failed\ncould not determine current branch"))
            (λ _. pure h 1)
        else apply_target target_ref)

  unfoldable pub update_notice : BehindCountResult → Text
  update_notice r =
      if text_beq r.branch (codes "master")
      then codes "a new agent-wrap release (" ++ (r.target_ref ++ codes ") is available.")
      else codes "agent-wrap is "
        ++ (h.show r.commits_behind
            ++ (codes " commit(s) behind origin/" ++ (r.branch ++ codes ".")))

  -- `check_updates` once there is something to offer.
  unfoldable pub offer : Option BehindCountResult → Run h UpdateCheck
  offer none = pure h proceed
  offer (some result) = bind h (show_at h warning (update_notice result)) (λ _.
      bind h
        (act h (λ _. asked (codes "Update agent-wrap now? [y/N]"))
          (h.prompt_confirm (codes "Update agent-wrap now? [y/N]")))
        (λ yes.
          if not yes
          then pure h proceed
          else bind h blocked_by_live_containers (λ live.
            if live
            then pure h blocked
            else bind h (apply (some result.target_ref)) (λ _. pure h handled))))

  unfoldable pub check_updates : Run h UpdateCheck
  check_updates =
      if is_truthy_env h.skip_update_check
      then pure h proceed
      else bind h (get_behind_count h) offer

  -- `git` as `current_revision` calls it: without locks, and for a few seconds.
  abbrev look : List Text → ℕ → Run h (Text × ℕ)
  look args seconds = git h (codes "--no-optional-locks" ∷ args) (some seconds)

  unfoldable pub describe_on : Text → Run h WrapperRevision
  describe_on branch =
      bind h (look (codes "rev-parse" ∷ codes "--short" ∷ codes "HEAD" ∷ []) 5)
        (λ (commit, commit_rc).
          bind h (look (codes "describe" ∷ codes "--tags" ∷ codes "--always" ∷ []) 5)
            (λ (describe, describe_rc).
              bind h (look (codes "status" ∷ codes "--porcelain" ∷ []) 10) (λ (porcelain, rc).
                pure h (record {
                  branch = branch;
                  commit = if not (eqb commit_rc 0) then [] else commit;
                  describe = if not (eqb describe_rc 0) then [] else describe;
                  dirty = eqb rc 0 && not (is_empty (h.strip porcelain));
                }))))

  unfoldable pub current_revision : Run h WrapperRevision
  current_revision =
      bind h (look (codes "symbolic-ref" ∷ codes "--short" ∷ codes "HEAD" ∷ []) 5) (λ (branch, rc).
        if not (eqb rc 0) || is_empty branch
        then bind h (look (codes "rev-parse" ∷ codes "HEAD" ∷ []) 5) (λ (_, head_rc).
          if not (eqb head_rc 0)
          then pure h (record { branch = []; commit = []; describe = []; dirty = false })
          else describe_on (codes "detached"))
        else describe_on branch)
