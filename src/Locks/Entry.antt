-- ===== src/Locks/Entry.antt =====
-- On the priority lock: who gets in, and when.
use claude_agent_wrap.Prelude.{
  Bool, ℕ, ◌≡◌, refl, sym, ap, subst, ◌∙◌, ◌⊎◌, inl, inr, true, false, none, some, Bool-cases,
  nat_eq,
}
use claude_agent_wrap.Locks.Files.{Directory, any_live_locks}
use claude_agent_wrap.Locks.Priority.{
  idle, starting, contending, checking, sleeping, stopping, Host, released, check_waiters, Step,
  registers, acquires, clears, times_out, contends, takes, checks, wakes, leaves_start, leaves_stop,
  crashes, Reached, boots, goes,
}
use claude_agent_wrap.Locks.Held.{Held, walk-live, live-walk}
use claude_agent_wrap.Locks.Frames.{has_lock, has_ticket, Agrees, IsFair, released_self, moved_self}
use claude_agent_wrap.Locks.Turns.{
  register-IsFair, acquires-IsFair, clears-IsFair, times_out-IsFair, wanders-IsFair, takes-IsFair,
  lets_go-IsFair, checks-IsFair, crashes-IsFair,
}

-- No process has the lock of any file.
abbrev pub IsStale : Directory → Type 0
IsStale dir = (n q : ℕ) → ¬ Held n q dir

Step-IsFair : (h h' : Host) → IsFair h → Step h h' → IsFair h'
Step-IsFair h _ fair (registers p e) = register-IsFair h fair p e
Step-IsFair h _ fair (acquires p t e free) = acquires-IsFair h fair p t e free
Step-IsFair h _ fair (clears p t e) = clears-IsFair h fair p t e
Step-IsFair h _ fair (times_out p t e) = times_out-IsFair h fair p t e
Step-IsFair h _ fair (contends p e) = wanders-IsFair h fair p idle contending e refl refl refl refl
Step-IsFair h _ fair (takes p e free) = takes-IsFair h fair p e free
Step-IsFair h _ fair (checks stuck p e) = checks-IsFair h fair p stuck e
Step-IsFair h _ fair (wakes p e) = wanders-IsFair h fair p sleeping contending e refl refl refl refl
Step-IsFair h _ fair (leaves_start p e) =
    lets_go-IsFair h fair p starting idle h.waiters e refl refl refl (λ n q m. m) (λ n q m. m)
Step-IsFair h _ fair (leaves_stop p e) =
    lets_go-IsFair h fair p stopping idle h.waiters e refl refl refl (λ n q m. m) (λ n q m. m)
Step-IsFair h _ fair (crashes p) = crashes-IsFair h fair p

pub Reached-IsFair : (stale : Directory) (h : Host) → IsStale stale → Reached stale h → IsFair h
Reached-IsFair stale _ old boots = record {
  agrees = λ p. record {
    locks = λ e. cc e;
    locked = λ e. cc e;
    waits = λ e. cc e;
    ticket = λ m. absurd (old p p m);
  };
  own = λ n q m. absurd (old n q m);
}
Reached-IsFair stale _ old (goes h h' r step) = Step-IsFair h h' (Reached-IsFair stale h old r) step

-- After any steps of any processes, crashes included, two processes that are both between taking
-- the lock and letting go of it are the same process: no start overlaps another start or a stop.
-- The directory holds at first no file whose lock is held.
pub Reached-exclusive :
    (stale : Directory) (h : Host) (p q : ℕ)
    → IsStale stale
    → Reached stale h
    → has_lock (h.phase p) ≡ true
    → has_lock (h.phase q) ≡ true
    → p ≡ q
Reached-exclusive stale h p q old r in_p in_q =
    let fair = Reached-IsFair stale h old r in
    let mine = fair.agrees p in
    let its = fair.agrees q in
    let same : some p ≡ some q = sym (mine.locks in_p) ∙ its.locks in_q in cc same

-- After any steps of any processes, a stop that has the lock yields to the starts that wait, and
-- only to these: its check lets go of the lock if some process has a ticket, and otherwise enters
-- the critical section with the lock. The tickets of processes that crashed, and the files that were
-- stale at first, do not count, whether their files can be removed or not.
pub check_waiters_yields :
    (stale : Directory) (stuck : ℕ → Bool) (h : Host) (p : ℕ)
    → IsStale stale
    → Reached stale h
    → h.phase p ≡ checking
    → ((q : ℕ) × (has_ticket (h.phase q) ≡ true)
        × ((check_waiters stuck p h).phase p ≡ sleeping)
        × ((check_waiters stuck p h).lock ≡ none))
      ⊎ (((q : ℕ) → has_ticket (h.phase q) ≡ false)
          × ((check_waiters stuck p h).phase p ≡ stopping)
          × ((check_waiters stuck p h).lock ≡ some p))
unfolding check_waiters
check_waiters_yields stale stuck h p old r e =
    let fair = Reached-IsFair stale h old r in
    let mine : Agrees h.lock h.waiters p checking =
      subst (Agrees h.lock h.waiters p) e (fair.agrees p) in
    let held : h.lock ≡ some p = mine.locks refl in
    elim (Bool-cases (any_live_locks stuck none h.waiters).0) [
      | inl live ↦
          let (n, q, m) = live-walk stuck h.waiters live in
          let its = fair.agrees n in
          let waits = its.ticket (subst (λ x. Held n x h.waiters) (fair.own n q m) m) in
          inl (
            n,
            waits,
            rw (live, check_waiters) (moved_self p sleeping h.phase),
            rw (live, check_waiters) (ap (released p) held ∙ released_self p),
          )
      | inr alone ↦ inr (
        λ q. elim (Bool-cases (has_ticket (h.phase q))) [
          | inr none_held ↦ none_held
          | inl waits ↦
              let its = fair.agrees q in
              absurd (cc (sym alone ∙ walk-live stuck q q h.waiters (its.waits waits)))
        ],
        rw (alone, check_waiters) (moved_self p stopping h.phase),
        rw (alone, check_waiters) held,
      )
    ]
