-- ===== src/Updates/Examples.antt =====
-- Runs of the update service on a host that answers from two flags.
use claude_agent_wrap.Prelude.{
  ℕ, suc, ◌≡◌, refl, inr, Bool, true, false, none, some, List, [], ◌∷◌, if◌then◌else◌, Text, codes,
  text_beq, elem,
}
use claude_agent_wrap.Updates.Host.{GitRun, returned, Host, State, bind, resume, act, pure}
use claude_agent_wrap.Updates.Git.{
  fast_forward, report_merge, print_status, resolve_ref, changed_files,
  handle_claude_md_propagation, propagate, report_md, detect_claude_md_state, get_behind_count,
  count_behind, behind_result, resolve_target, git, git_full, git_answer, git_full_answer,
}
use claude_agent_wrap.Updates.Service.{
  blocked, WrapperRevision, apply, apply_target, apply_found, apply_to, merge_into,
  reprovision_interpreter, report_bootstrap, blocked_by_live_containers, refuse, is_truthy_env,
  offer, check_updates, current_revision,
}
use claude_agent_wrap.Updates.Trace.{Grows}
use claude_agent_wrap.Updates.Order.Merge.{IsOrderly, apply_in_order}
use claude_agent_wrap.Updates.Order.Check.{Outcome, check_updates_outcome}
use claude_agent_wrap.Updates.Revision.{Local, current_revision-Local}

abbrev answer : Text → GitRun
answer out = returned (record { stdout = out; returncode = 0; stderr = [] })

abbrev is_command : Text → List Text → Bool
is_command c [] = false
is_command c (a ∷ args) = text_beq a c

-- The world counts the merges; the head moves with each. The branch is "x", three commits behind.
abbrev reply : List Text → ℕ → Text
reply args w =
    if is_command (codes "symbolic-ref") args
    then codes "x"
    else if is_command (codes "rev-list") args
    then codes "3"
    else w ∷ []

abbrev host : List Text → Host
host agents = record {
  World = ℕ;
  run_git = λ args timeout w.
      (if is_command (codes "merge") args then suc w else w, answer (reply args w));
  live_containers = λ w. (w, record { agents = agents; sidecars = [] });
  stop_daemon = λ w. w;
  prompt_confirm = λ t w. (w, true);
  md_exist = λ w. true;
  diff_md = λ w. (w, 0);
  unlink_md = λ w. w;
  bootstrap = λ w. (w, inr 0);
  strip = λ t. t;
  lower = λ t. t;
  splitlines = λ t. t ∷ [];
  int_of = λ t. some 3;
  show = λ n. n ∷ [];
  skip_update_check = [];
  tool_dir = codes "/tool";
  bootstrap_path = codes "/tool/bin/agent-bootstrap";
}

abbrev start : (agents : List Text) → State (host agents)
start agents = record { world = 1; trace = [] }

-- The update merges, and the bootstrap is run.
apply_run : (apply (host []) none (start [])).0 ≡ some 0
unfolding apply apply_target apply_found apply_to merge_into reprovision_interpreter
    report_bootstrap blocked_by_live_containers refuse fast_forward report_merge print_status
    resolve_ref changed_files handle_claude_md_propagation propagate report_md
    detect_claude_md_state get_behind_count count_behind behind_result resolve_target git git_full
    git_answer git_full_answer bind resume act pure text_beq elem
apply_run = refl

apply_in_order_example : IsOrderly (apply (host []) none (start [])).1.trace
apply_in_order_example = apply_in_order (host []) none (start []) refl

abbrev busy : List Text
busy = codes "agent-1" ∷ []

blocked_run : (check_updates (host busy) (start busy)).0 ≡ some blocked
unfolding check_updates is_truthy_env offer blocked_by_live_containers refuse get_behind_count
    count_behind behind_result resolve_target git git_answer bind resume act pure text_beq elem
blocked_run = refl

check_updates_outcome_example :
    Outcome (host busy) [] blocked (check_updates (host busy) (start busy)).1.trace
check_updates_outcome_example = check_updates_outcome (host busy) (start busy) blocked blocked_run

current_revision-Local_example :
    (r : WrapperRevision) × ((current_revision (host []) (start [])).0 ≡ some r)
    × Grows Local [] (current_revision (host []) (start [])).1.trace
current_revision-Local_example =
    current_revision-Local (host []) (start []) (λ args timeout w e. cc e)
