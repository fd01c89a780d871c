-- ===== src/Locks/Priority.antt =====
-- The priority lock: agent_wrap/lib/priority_lock.py, as the steps of any number of processes. A
-- process is known by its instance id, under which it registers.
use claude_agent_wrap.Prelude.{ℕ, ◌≡◌, Bool, Option, none, some, eqb, if◌then◌else◌}
use claude_agent_wrap.Locks.Files.{
  Directory, lock_and_hold, clear_lock_handle, any_live_locks, orphan,
}

-- Where a process is. The flag is whether it has the handle of its ticket.
pub data Phase : Type 0 where
  idle : Phase
  queued : Bool → Phase
  clearing : Bool → Phase
  starting : Phase
  contending : Phase
  checking : Phase
  sleeping : Phase
  stopping : Phase
  dead : Phase

pub record Host : Type 0 where
  pub lock : Option ℕ
  pub waiters : Directory
  pub phase : ℕ → Phase

abbrev pub moved : ℕ → Phase → (ℕ → Phase) → ℕ → Phase
moved p ph phase q = if eqb q p then ph else phase q

-- The lock of `lock_path` once `p` lets go of it.
abbrev pub released : ℕ → Option ℕ → Option ℕ
released p none = none
released p (some q) = if eqb q p then none else some q

-- `_high_priority_lock` up to its wait.
unfoldable pub register : ℕ → Host → Host
unfolding lock_and_hold
register p h = record h {
  waiters = (lock_and_hold p p h.waiters).1;
  phase = moved p (queued (lock_and_hold p p h.waiters).0) h.phase;
}

-- The check of `_low_priority_lock` under the lock: it enters, or lets go and sleeps.
unfoldable pub check_waiters : (ℕ → Bool) → ℕ → Host → Host
unfolding any_live_locks
check_waiters stuck p h =
    if (any_live_locks stuck none h.waiters).0
    then record {
      lock = released p h.lock;
      waiters = (any_live_locks stuck none h.waiters).1;
      phase = moved p sleeping h.phase;
    }
    else record h {
      waiters = (any_live_locks stuck none h.waiters).1;
      phase = moved p stopping h.phase;
    }

-- The steps. `starting` and `stopping` are the two critical sections.
pub data Step (h : Host) : Host → Type 0 where
  registers : (p : ℕ) → h.phase p ≡ idle → Step h (register p h)
  acquires :
      (p : ℕ) (ticket : Bool)
      → h.phase p ≡ queued ticket
      → h.lock ≡ none
      → Step h (record h { lock = some p; phase = moved p (clearing ticket) h.phase })
  clears :
      (p : ℕ) (ticket : Bool)
      → h.phase p ≡ clearing ticket
      → Step h
          (record h { waiters = clear_lock_handle p h.waiters; phase = moved p starting h.phase })
  times_out :
      (p : ℕ) (ticket : Bool)
      → h.phase p ≡ queued ticket
      → Step h (record h {
        waiters = if ticket then clear_lock_handle p h.waiters else h.waiters;
        phase = moved p idle h.phase;
      })
  contends : (p : ℕ) → h.phase p ≡ idle → Step h (record h { phase = moved p contending h.phase })
  takes :
      (p : ℕ)
      → h.phase p ≡ contending
      → h.lock ≡ none
      → Step h (record h { lock = some p; phase = moved p checking h.phase })
  checks : (stuck : ℕ → Bool) (p : ℕ) → h.phase p ≡ checking → Step h (check_waiters stuck p h)
  wakes : (p : ℕ) → h.phase p ≡ sleeping → Step h (record h { phase = moved p contending h.phase })
  leaves_start :
      (p : ℕ)
      → h.phase p ≡ starting
      → Step h (record h { lock = released p h.lock; phase = moved p idle h.phase })
  leaves_stop :
      (p : ℕ)
      → h.phase p ≡ stopping
      → Step h (record h { lock = released p h.lock; phase = moved p idle h.phase })
  crashes :
      (p : ℕ)
      → Step h (record {
        lock = released p h.lock;
        waiters = orphan p h.waiters;
        phase = moved p dead h.phase;
      })

-- No lock is held at first; the files that are left are stale.
pub data Reached (stale : Directory) : Host → Type 0 where
  boots : Reached stale (record { lock = none; waiters = stale; phase = λ p. idle })
  goes : (h h' : Host) → Reached stale h → Step h h' → Reached stale h'
