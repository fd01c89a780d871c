-- ===== src/Locks/Examples.antt =====
-- Runs of the locks on a directory with one stale file.
use claude_agent_wrap.Prelude.{
  ℕ, ◌≡◌, ◌≢◌, ◌↔◌, refl, ap, ◌⊎◌, inl, inr, true, false, not, ◌&&◌, ◌||◌, Option, none, some, [],
  ◌∷◌, any, keep, nat_eq, eqb, Bool,
}
use claude_agent_wrap.Prelude.Dict.{get}
use claude_agent_wrap.Locks.Files.{Directory, is_held, is_excluded, lock_and_hold, any_live_locks}
use claude_agent_wrap.Locks.Priority.{
  idle, queued, clearing, contending, checking, sleeping, stopping, Host, moved, register,
  check_waiters, registers, acquires, contends, takes, Reached, boots, goes,
}
use claude_agent_wrap.Locks.Held.{Held, any_live_locks_exact}
use claude_agent_wrap.Locks.Frames.{has_ticket}
use claude_agent_wrap.Locks.Tracker.{
  Running, register_running, has_live_runners, has_live_runners_exact,
}
use claude_agent_wrap.Locks.Entry.{IsStale, Reached-exclusive, check_waiters_yields}
use claude_agent_wrap.Locks.Progress.{entered, Reached-enters}
use claude_agent_wrap.Locks.Release.{Runs}

-- The file of instance 7 cannot be removed.
abbrev busy : ℕ → Bool
busy n = eqb n 7

abbrev stale : Directory
stale = (7, none) ∷ []

stale-IsStale : IsStale stale
stale-IsStale n q (inl e) = cc (ap (λ (x : ℕ × Option ℕ). x.1) e)
stale-IsStale n q (inr m) = m

abbrev booted : Host
booted = record { lock = none; waiters = stale; phase = λ p. idle }

abbrev one : ℕ
one = 1

-- Process 1 waits to start.
abbrev waiting : Host
waiting = register 1 booted

waiting-Reached : Reached stale waiting
waiting-Reached = goes booted (register 1 booted) boots (registers 1 refl)

queued_one : waiting.phase 1 ≡ queued true
unfolding register lock_and_hold get
queued_one = refl

still_free : waiting.lock ≡ none
unfolding register
still_free = refl

abbrev entering : Host
entering = record waiting { lock = some 1; phase = moved 1 (clearing true) waiting.phase }

entering-Reached : Reached stale entering
entering-Reached = goes waiting entering waiting-Reached (acquires 1 true queued_one still_free)

Reached-exclusive_example : one ≡ one
Reached-exclusive_example =
    Reached-exclusive stale entering one one stale-IsStale entering-Reached refl refl

-- Process 2 stops while process 1 waits to start.
abbrev contended : Host
contended = record waiting { phase = moved 2 contending waiting.phase }

two_idle : waiting.phase 2 ≡ idle
unfolding register
two_idle = refl

abbrev checked : Host
checked = record contended { lock = some 2; phase = moved 2 checking contended.phase }

checked-Reached : Reached stale checked
checked-Reached =
    goes contended checked (goes waiting contended waiting-Reached (contends 2 two_idle))
      (takes 2 refl still_free)

check_waiters_yields_example :
    ((q : ℕ) × (has_ticket (checked.phase q) ≡ true)
      × ((check_waiters busy 2 checked).phase 2 ≡ sleeping)
      × ((check_waiters busy 2 checked).lock ≡ none))
    ⊎ (((q : ℕ) → has_ticket (checked.phase q) ≡ false)
        × ((check_waiters busy 2 checked).phase 2 ≡ stopping)
        × ((check_waiters busy 2 checked).lock ≡ some 2))
check_waiters_yields_example =
    check_waiters_yields stale busy checked 2 stale-IsStale checked-Reached refl

-- Process 1 waits to start while process 2 has the lock.
Reached-enters_example :
    (q : ℕ) × (h' : Host) × (checked.lock ≡ none ⊎ checked.lock ≡ some q)
    × Runs 1 q checked h'
    × (h'.phase 1 ≡ entered (checked.phase 1))
Reached-enters_example =
    Reached-enters stale checked 1 stale-IsStale checked-Reached (inl (true, queued_one))

any_live_locks_exact_example :
    any_live_locks busy (some 3) ((7, none) ∷ (3, some 3) ∷ (4, some 4) ∷ []) ≡ (
      any
          (λ (e : ℕ × Option ℕ). not (is_excluded (some 3) e.0) && is_held e.1)
          ((7, none) ∷ (3, some 3) ∷ (4, some 4) ∷ []),
      keep
          (λ (e : ℕ × Option ℕ). is_excluded (some 3) e.0 || is_held e.1 || busy e.0)
          ((7, none) ∷ (3, some 3) ∷ (4, some 4) ∷ []),
    )
any_live_locks_exact_example =
    any_live_locks_exact busy (some 3) ((7, none) ∷ (3, some 3) ∷ (4, some 4) ∷ [])

-- Runs 1 and 2 are registered on container 5.
abbrev running : Running
running = (register_running 5 2 (register_running 5 1 (λ c. [])).1).1

has_live_runners_exact_example :
    (((has_live_runners busy 5 1 running).0 ≡ true)
      ↔ ((n : ℕ) × (q : ℕ) × Held n q (running 5) × (n ≢ one)))
    × ((c : ℕ) → c ≢ 5 → (has_live_runners busy 5 1 running).1 c ≡ running c)
has_live_runners_exact_example = has_live_runners_exact busy 5 1 running
