-- ===== src/Updates/Order/Merge.antt =====
-- The order of an update: containers, daemon, merge, and what follows it.
use claude_agent_wrap.Prelude.{
  ℕ, ◌≡◌, refl, true, false, not, Option, none, some, List, [], ◌∷◌, inl, inr, eqb, Text, codes,
  text_beq, In, subst, sym,
}
use claude_agent_wrap.Updates.Host.{
  LiveContainers, Host, Event, ran, looked, stopped, asked, compared, unlinked, provisioned, shown,
  State, Run, pure, raise, bind, GitRun, returned, unavailable, raised,
}
use claude_agent_wrap.Updates.Git.{
  BehindCountResult, MdState, git_full, git_full_answer, fast_forward,
}
use claude_agent_wrap.Updates.Service.{
  live_names, refuse, blocked_by_live_containers, merge_into, apply_to, apply_found, apply_target,
  apply,
}
use claude_agent_wrap.Updates.Trace.{
  Grows, stays, grows, In-Grows, Emits, Emits-pure, Emits-bind, Emits-if,
}
use claude_agent_wrap.Updates.Order.Quiet.{
  is_merge, is_question, Question, Emits-ask, Emits-show, get_behind_count-Emits,
}
use claude_agent_wrap.Updates.Order.Leads.{
  Leads, Leads-pure, Leads-act, Leads-bind, Leads-if, Leads-Emits, After,
}
use claude_agent_wrap.Updates.Order.Later.{
  is_later, Later, detect_claude_md_state-Emits, report_merge-Emits, reprovision_interpreter-Emits,
  shown-Later,
}

-- Among these events the containers were looked at, and none was live.
abbrev pub Idle : List Event → Type 0
Idle t = (live : LiveContainers) × In (looked live) t × (live_names live ≡ [])

abbrev pub HasMerged : List Event → Type 0
HasMerged t = (e : Event) × In e t × (is_merge e ≡ true)

-- What must have been done before an event: the daemon is stopped once no container is live, the
-- merge is run once the daemon is stopped, and the user's copy of the defaults is taken away, and
-- the interpreter provisioned, once the merge was run.
abbrev pub Allowed : Event → List Event → Type 0
Allowed (ran args timeout) t = is_merge (ran args timeout) ≡ true → In stopped t
Allowed stopped t = Idle t
Allowed unlinked t = HasMerged t
Allowed provisioned t = HasMerged t
Allowed (looked live) t = Unit
Allowed (asked q) t = Unit
Allowed compared t = Unit
Allowed (shown level message) t = Unit

-- Every event was allowed when it was done; the newest stands first.
abbrev pub IsOrderly : List Event → Type 0
IsOrderly [] = Unit
IsOrderly (e ∷ t) = Allowed e t × IsOrderly t

Question-Allowed : (e : Event) (t : List Event) → Question e → Allowed e t
unfolding is_question
Question-Allowed (ran args timeout) t q = λ m. cc
Question-Allowed stopped t q = cc
Question-Allowed unlinked t q = cc
Question-Allowed provisioned t q = cc
Question-Allowed (looked live) t q = tt
Question-Allowed (asked p) t q = tt
Question-Allowed compared t q = tt
Question-Allowed (shown level message) t q = tt

Later-Allowed : (e : Event) (t : List Event) → HasMerged t → Later e → Allowed e t
unfolding is_later is_question
Later-Allowed (ran args timeout) t m q = λ p. cc
Later-Allowed stopped t m q = cc
Later-Allowed unlinked t m q = m
Later-Allowed provisioned t m q = m
Later-Allowed (looked live) t m q = tt
Later-Allowed (asked p) t m q = tt
Later-Allowed compared t m q = tt
Later-Allowed (shown level message) t m q = tt

IsOrderly-Grows : (t u : List Event) → IsOrderly t → Grows Question t u → IsOrderly u
IsOrderly-Grows t _ i stays = i
IsOrderly-Grows t _ i (grows e u p g) = (Question-Allowed e u p, IsOrderly-Grows t u i g)

abbrev Ready : List Event → Type 0
Ready t = IsOrderly t × Idle t

Ready-Grows : (t u : List Event) → Ready t → Grows Question t u → Ready u
Ready-Grows t u (i, (live, m, e)) g =
    (IsOrderly-Grows t u i g, (live, In-Grows (looked live) g m, e))

abbrev Swapped : List Event → Type 0
Swapped t = IsOrderly t × HasMerged t

Swapped-Grows : (t u : List Event) → Swapped t → Grows Later t u → Swapped u
Swapped-Grows t _ i stays = i
Swapped-Grows t _ i (grows e u p g) =
    let (o, (x, m, q)) = Swapped-Grows t u i g in
    ((Later-Allowed e u (x, m, q) p, o), (x, inr m, q))

module _ (h : Host) where
  abbrev Orderly :
      {A : Type 0} → (List Event → Type 0) → Run h A → (A → List Event → Type 0) → Type 0
  Orderly I m Q = Leads h IsOrderly I m Q

  question : {A : Type 0} (m : Run h A) → Emits h Question m → Orderly IsOrderly m (λ _. IsOrderly)
  question m p = Leads-Emits h IsOrderly Question IsOrderly m IsOrderly-Grows (λ t i. i) p

  later : {A : Type 0} (m : Run h A) → Emits h Later m → Orderly Swapped m (λ _. Swapped)
  later m p = Leads-Emits h IsOrderly Later Swapped m Swapped-Grows (λ t i. i.0) p

  -- An error message, and the code 1.
  fail :
      {A : Type 0} (m : Run h A) (code : ℕ)
      → Emits h Question m
      → Orderly IsOrderly (bind h m (λ _. pure h code)) (λ _. IsOrderly)
  fail m code p = question _ (Emits-bind h Question _ _ p (λ u. Emits-pure h Question _))

  refuse-Leads :
      (live : LiveContainers) (names : List Text)
      → live_names live ≡ names
      → Orderly
          (λ t. IsOrderly t × In (looked live) t)
          (refuse h names)
          (λ b t. IsOrderly t × (b ≡ false → Idle t))
  unfolding refuse
  refuse-Leads live [] e = Leads-pure h IsOrderly _ _ _ (λ t i. (i.0, λ f. (live, i.1, e)))
  refuse-Leads live (n ∷ names) e =
      Leads-bind h IsOrderly _ (λ _. IsOrderly) _ _ _
        (Leads-act h IsOrderly _ _ _ _ (λ a t i. (tt, i.0)))
        (λ u. Leads-pure h IsOrderly _ _ _ (λ t i. (i, λ f. cc)))

  blocked-Leads :
      Orderly IsOrderly (blocked_by_live_containers h) (λ b t. IsOrderly t × (b ≡ false → Idle t))
  unfolding blocked_by_live_containers
  blocked-Leads =
      Leads-bind h IsOrderly _ (λ live t. IsOrderly t × In (looked live) t) _ _ _
        (Leads-act h IsOrderly _ _ _ _ (λ live t i. ((tt, i), inl refl)))
        (λ live. refuse-Leads live (live_names live) refl)

  full_answer-Leads : (r : GitRun) → Orderly Swapped (git_full_answer h r) (λ _. Swapped)
  unfolding git_full_answer Leads raise
  full_answer-Leads (returned r) = Leads-pure h IsOrderly _ _ _ (λ t i. i)
  full_answer-Leads unavailable = Leads-pure h IsOrderly _ _ _ (λ t i. i)
  full_answer-Leads raised = λ s i. i.0

  git_full-Leads :
      (target : Text)
      → Orderly
          (λ t. IsOrderly t × In stopped t)
          (git_full h (codes "merge" ∷ codes "--ff-only" ∷ target ∷ []))
          (λ _. Swapped)
  unfolding git_full is_merge text_beq
  git_full-Leads target =
      Leads-bind h IsOrderly _ (λ _. Swapped) _ _ _
        (Leads-act h IsOrderly _ _ _ _ (λ r t i. (((λ m. i.1), i.0), (_, inl refl, refl))))
        full_answer-Leads

  fast_forward-Leads :
      (target before : Text) (state : MdState)
      → Orderly
          (λ t. IsOrderly t × In stopped t)
          (fast_forward h target before state)
          (λ _. Swapped)
  unfolding fast_forward
  fast_forward-Leads target before state =
      Leads-bind h IsOrderly _ (λ _. Swapped) _ _ _ (git_full-Leads target)
        (λ r. later _ (
          Emits-if h Later (not (eqb r.returncode 0)) _ _
            (Emits-bind h Later _ _ (shown-Later h _ _) (λ u. Emits-pure h Later _))
            (report_merge-Emits h before state)))

  merge_into-Leads :
      (before target : Text) → Orderly Ready (merge_into h before target) (λ _. IsOrderly)
  unfolding merge_into
  merge_into-Leads before target =
      Leads-bind h IsOrderly _ (λ _. Ready) _ _ _
        (Leads-Emits h IsOrderly Question Ready _ Ready-Grows (λ t i. i.0)
          (detect_claude_md_state-Emits h))
        (λ state.
          Leads-bind h IsOrderly _ (λ _ t. IsOrderly t × In stopped t) _ _ _
            (Leads-act h IsOrderly _ _ _ _ (λ u t i. ((i.1, i.0), inl refl)))
            (λ u.
              Leads-bind h IsOrderly _ (λ _. Swapped) _ _ _ (fast_forward-Leads target before state)
                (λ rc.
                  Leads-if h IsOrderly _ _ (eqb rc 0) _ _
                    (λ e.
                      Leads-bind h IsOrderly _ (λ _. Swapped) _ _ _
                        (later _ (reprovision_interpreter-Emits h before))
                        (λ u. Leads-pure h IsOrderly _ _ _ (λ t i. i.0)))
                    (λ e. Leads-pure h IsOrderly _ _ _ (λ t i. i.0)))))

  apply_to-Leads : (target : Text) → Orderly IsOrderly (apply_to h target) (λ _. IsOrderly)
  unfolding apply_to text_beq Leads
  apply_to-Leads target =
      Leads-bind h IsOrderly _ (λ _. IsOrderly) _ _ _ (question _ (Emits-ask h _ _ _ refl))
        (λ (before, rc).
          Leads-if h IsOrderly _ _ (not (eqb rc 0)) _ _ (λ e. fail _ 1 (Emits-show h _ _))
            (λ e. Leads-bind h IsOrderly _ _ _ _ _ blocked-Leads (λ live.
              Leads-if h IsOrderly _ _ live _ _ (λ e. Leads-pure h IsOrderly _ _ _ (λ t i. i.0))
                (λ e s i. merge_into-Leads before target s (i.0, i.1 e)))))

  apply_found-Leads :
      (found : Option BehindCountResult) → Orderly IsOrderly (apply_found h found) (λ _. IsOrderly)
  unfolding apply_found
  apply_found-Leads none = fail _ 0 (Emits-show h _ _)
  apply_found-Leads (some result) = apply_to-Leads result.target_ref

  apply_target-Leads :
      (target : Option Text) → Orderly IsOrderly (apply_target h target) (λ _. IsOrderly)
  unfolding apply_target
  apply_target-Leads (some target) = apply_to-Leads target
  apply_target-Leads none =
      Leads-bind h IsOrderly _ (λ _. IsOrderly) _ _ _ (question _ (get_behind_count-Emits h))
        apply_found-Leads

  pub apply-Leads : (target : Option Text) → Orderly IsOrderly (apply h target) (λ _. IsOrderly)
  unfolding apply text_beq
  apply-Leads target =
      Leads-bind h IsOrderly _ (λ _. IsOrderly) _ _ _ (question _ (Emits-ask h _ _ _ refl))
        (λ (_, rc).
          Leads-if h IsOrderly _ _ (not (eqb rc 0)) _ _ (λ e. fail _ 1 (Emits-show h _ _))
            (λ e. apply_target-Leads target))

  After-IsOrderly :
      {A : Type 0} (r : Option A × State h)
      → After h IsOrderly (λ _. IsOrderly) r
      → IsOrderly r.1.trace
  After-IsOrderly (none, s) i = i
  After-IsOrderly (some a, s) i = i

  -- An update that starts with nothing done, and however it ends, an exception included: the daemon
  -- is stopped only after the containers were looked at and none was live, the merge is run only
  -- after the daemon was stopped, and the user's copy of the defaults is taken away, and the
  -- interpreter provisioned, only after a merge was run.
  pub apply_in_order :
      (target : Option Text) (s : State h) → s.trace ≡ [] → IsOrderly (apply h target s).1.trace
  unfolding Leads
  apply_in_order target s e =
      After-IsOrderly (apply h target s) (apply-Leads target s (subst IsOrderly (sym e) tt))
