-- ===== src/Locks/Progress.antt =====
-- On the priority lock: no deadlock among the processes that wait and the one that has the lock.
use claude_agent_wrap.Prelude.{
  ℕ, ◌≡◌, ◌≢◌, refl, sym, ap, ◌∙◌, ◌⊎◌, inl, inr, Bool, true, false, none, some, eqb, eqb_iff,
  Bool-cases, Option-cases,
}
use claude_agent_wrap.Locks.Files.{Directory, clear_lock_handle}
use claude_agent_wrap.Locks.Priority.{
  Phase, queued, clearing, starting, contending, checking, stopping, Host, moved, check_waiters,
  acquires, clears, takes, checks, Reached, goes,
}
use claude_agent_wrap.Locks.Frames.{has_lock, has_ticket, moved_self, moved_ne}
use claude_agent_wrap.Locks.Release.{
  IsBy, Runs, stays, then_step, Runs-trans, removes, LetsGo, holder_releases,
}
use claude_agent_wrap.Locks.Entry.{IsStale, Reached-IsFair, check_waiters_yields}

-- Where a process that waits is bound for.
abbrev pub entered : Phase → Phase
entered (queued t) = starting
entered contending = stopping
entered phase = phase

-- A start that waits, or a stop that contends while no process has a ticket.
abbrev pub IsNext : Host → ℕ → Type 0
IsNext h p =
    ((t : Bool) × (h.phase p ≡ queued t))
    ⊎ ((h.phase p ≡ contending) × ((r : ℕ) → has_ticket (h.phase r) ≡ false))

waits-has_lock : (h : Host) (p : ℕ) → IsNext h p → ¬ (has_lock (h.phase p) ≡ true)
waits-has_lock h p (inl (t, e)) f = cc (sym f ∙ ap has_lock e)
waits-has_lock h p (inr (e, _)) f = cc (sym f ∙ ap has_lock e)

module _ (stale : Directory) (old : IsStale stale) (p q : ℕ) where
  start_enters :
      (h : Host) (t : Bool)
      → h.lock ≡ none
      → h.phase p ≡ queued t
      → (h' : Host) × Runs p q h h' × (h'.phase p ≡ starting)
  unfolding IsBy
  start_enters h t free e =
      let one : Host = record h { lock = some p; phase = moved p (clearing t) h.phase } in
      let two : Host = record one {
        waiters = clear_lock_handle p one.waiters;
        phase = moved p starting one.phase;
      } in
      (
        two,
        then_step h one two (acquires p t e free) (inl refl) (
            then_step one two two (clears p t (moved_self p (clearing t) h.phase)) (inl refl)
              (stays two)),
        moved_self p starting one.phase,
      )

  stop_enters :
      (h : Host)
      → Reached stale h
      → h.lock ≡ none
      → h.phase p ≡ contending
      → ((r : ℕ) → has_ticket (h.phase r) ≡ false)
      → (h' : Host) × Runs p q h h' × (h'.phase p ≡ stopping)
  unfolding IsBy
  stop_enters h r free e alone =
      let one : Host = record h { lock = some p; phase = moved p checking h.phase } in
      let here : one.phase p ≡ checking = moved_self p checking h.phase in
      elim (check_waiters_yields stale removes one p old (goes h one r (takes p e free)) here) [
        | inr (_, stopped, _) ↦ (
          check_waiters removes p one,
          then_step h one (check_waiters removes p one) (takes p e free) (inl refl) (
              then_step one (check_waiters removes p one) (check_waiters removes p one)
                (checks removes p here) (inl refl) (stays (check_waiters removes p one))),
          stopped,
        )
        | inl (s, waits, _, _) ↦ absurd (elim (Bool-cases (eqb s p)) [
          | inl same ↦
              let f : s ≡ p = (eqb_iff s p).0 same in
              cc (sym waits ∙ ap has_ticket (ap one.phase f ∙ here))
          | inr other ↦
              let ne : s ≢ p = λ f. cc (sym other ∙ (eqb_iff s p).1 f) in
              cc (sym waits ∙ ap has_ticket (moved_ne p s checking h.phase ne) ∙ alone s)
        ])
      ]

  -- From where the lock is free.
  waiter_enters :
      (h : Host)
      → Reached stale h
      → h.lock ≡ none
      → IsNext h p
      → (h' : Host) × Runs p q h h' × (h'.phase p ≡ entered (h.phase p))
  waiter_enters h r free (inl (t, e)) =
      let (h', steps, f) = start_enters h t free e in (h', steps, f ∙ sym (ap entered e))
  waiter_enters h r free (inr (e, alone)) =
      let (h', steps, f) = stop_enters h r free e alone in (h', steps, f ∙ sym (ap entered e))

  -- The process that waits is not the holder, and what it waits for is as it was.
  IsNext-kept : (h h' : Host) → p ≢ q → LetsGo stale p q h h' → IsNext h p → IsNext h' p
  IsNext-kept h h' ne go (inl (t, e)) = inl (t, go.others p ne ∙ e)
  IsNext-kept h h' ne go (inr (e, alone)) = inr (
    go.others p ne ∙ e,
    λ r. elim (Bool-cases (eqb r q)) [
      | inl same ↦ ap (λ x. has_ticket (h'.phase x)) ((eqb_iff r q).0 same) ∙ go.off
      | inr other ↦ ap has_ticket (go.others r (λ f. cc (sym other ∙ (eqb_iff r q).1 f))) ∙ alone r
    ],
  )

  holder_and_waiter :
      (h : Host)
      → Reached stale h
      → h.lock ≡ some q
      → IsNext h p
      → (h' : Host) × Runs p q h h' × (h'.phase p ≡ entered (h.phase p))
  holder_and_waiter h r held next =
      let has = ((Reached-IsFair stale h old r).agrees q).locked held in
      let ne : p ≢ q = λ f. waits-has_lock h p next (ap (λ x. has_lock (h.phase x)) f ∙ has) in
      let (one, go) = holder_releases stale old p q h r held (h.phase q) refl has in
      let (h', steps, f) = waiter_enters one go.reached go.free (IsNext-kept h one ne go next) in
      (h', Runs-trans go.steps steps, f ∙ ap entered (go.others p ne))

-- In any state that processes reach, a start that waits, and a stop that contends while no process
-- has a ticket, can get into the critical section by steps of its own and of one other process at
-- most, the one that has the lock if there is one: no process else has to move, none has to crash,
-- and no file that a crash left is in the way.
pub Reached-enters :
    (stale : Directory) (h : Host) (p : ℕ)
    → IsStale stale
    → Reached stale h
    → IsNext h p
    → (q : ℕ) × (h' : Host) × (h.lock ≡ none ⊎ h.lock ≡ some q)
      × Runs p q h h'
      × (h'.phase p ≡ entered (h.phase p))
Reached-enters stale h p old r next = elim (Option-cases h.lock) [
  | inl free ↦
      let (h', steps, f) = waiter_enters stale old p p h r free next in (p, h', inl free, steps, f)
  | inr (q, held) ↦
      let (h', steps, f) = holder_and_waiter stale old p q h r held next in
      (q, h', inr held, steps, f)
]
