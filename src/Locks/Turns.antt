-- ===== src/Locks/Turns.antt =====
-- On the priority lock: each step keeps what holds of the lock and the tickets.
use claude_agent_wrap.Prelude.{
  ℕ, ◌≡◌, refl, sym, subst, ◌∙◌, inl, inr, Bool, true, false, none, some, Bool-cases, if◌then◌else◌,
  nat_eq,
}
use claude_agent_wrap.Prelude.Dict.{put}
use claude_agent_wrap.Locks.Files.{Directory, clear_lock_handle, any_live_locks, orphan}
use claude_agent_wrap.Locks.Priority.{
  Phase, idle, queued, clearing, starting, contending, checking, sleeping, stopping, dead, Host,
  moved, released, register, check_waiters,
}
use claude_agent_wrap.Locks.Held.{
  Held, lock_and_hold-taken, put-Held_lem, clear-Held, walk-Held, Held-walk, orphan-Held,
}
use claude_agent_wrap.Locks.Frames.{
  has_lock, has_ticket, Agrees, IsFair, step_IsFair, same_lock, taken_lock, released_lock,
  released_none, both_left, same_tickets, cleared_tickets, orphaned_tickets, walked_tickets,
  put_tickets,
}

module _ (h : Host) (fair : IsFair h) (p : ℕ) where
  -- How `p` sees the lock and the tickets, at a phase that is known.
  at_phase : (ph : Phase) → h.phase p ≡ ph → Agrees h.lock h.waiters p ph
  at_phase ph e = subst (Agrees h.lock h.waiters p) e (fair.agrees p)

  -- A process without a ticket finds its file free.
  no_ticket : (ph : Phase) → h.phase p ≡ ph → has_ticket ph ≡ false → (q : ℕ) → ¬ Held p q h.waiters
  no_ticket ph e none_held q m =
      let own = fair.own p q m in
      cc (sym none_held ∙ (at_phase ph e).ticket (subst (λ x. Held p x h.waiters) own m))

  pub register-IsFair : h.phase p ≡ idle → IsFair (register p h)
  unfolding register
  register-IsFair e =
      let taken = lock_and_hold-taken p h.waiters (no_ticket idle e refl) in
      let old = at_phase idle e in
      let after : IsFair (record {
        lock = h.lock;
        waiters = put p (some p) h.waiters;
        phase = moved p (queued true) h.phase;
      }) =
        step_IsFair h h.lock (put p (some p) h.waiters) p (queued true) fair
          (both_left p h.lock h.lock h.waiters _ (same_lock p h.lock) (put_tickets p h.waiters))
          (record {
            locks = λ f. cc f;
            locked = λ f. cc (old.locked f);
            waits = λ f. (put-Held_lem p h.waiters).0;
            ticket = λ m. refl;
          }) in
      subst
        (λ x.
          IsFair (record { lock = h.lock; waiters = x.1; phase = moved p (queued x.0) h.phase }))
        (sym taken) after

  pub acquires-IsFair :
      (t : Bool)
      → h.phase p ≡ queued t
      → h.lock ≡ none
      → IsFair (record h { lock = some p; phase = moved p (clearing t) h.phase })
  acquires-IsFair t e free =
      let old = at_phase (queued t) e in
      step_IsFair h (some p) h.waiters p (clearing t) fair
        (both_left p h.lock _ h.waiters _ (taken_lock p h.lock free) (same_tickets p h.waiters))
        (record { locks = λ f. refl; locked = λ f. refl; waits = old.waits; ticket = old.ticket })

  pub clears-IsFair :
      (t : Bool)
      → h.phase p ≡ clearing t
      → IsFair
          (record h { waiters = clear_lock_handle p h.waiters; phase = moved p starting h.phase })
  clears-IsFair t e =
      let old = at_phase (clearing t) e in
      step_IsFair h h.lock (clear_lock_handle p h.waiters) p starting fair
        (both_left p h.lock _ h.waiters _ (same_lock p h.lock) (cleared_tickets p h.waiters))
        (record {
          locks = λ f. old.locks refl;
          locked = λ f. refl;
          waits = λ f. cc f;
          ticket = λ m. absurd ((clear-Held p p p h.waiters m).1 refl);
        })

  pub times_out-IsFair :
      (t : Bool)
      → h.phase p ≡ queued t
      → IsFair (record h {
        waiters = if t then clear_lock_handle p h.waiters else h.waiters;
        phase = moved p idle h.phase;
      })
  times_out-IsFair true e =
      let old = at_phase (queued true) e in
      step_IsFair h h.lock (clear_lock_handle p h.waiters) p idle fair
        (both_left p h.lock _ h.waiters _ (same_lock p h.lock) (cleared_tickets p h.waiters))
        (record {
          locks = λ f. cc f;
          locked = λ f. old.locked f;
          waits = λ f. cc f;
          ticket = λ m. absurd ((clear-Held p p p h.waiters m).1 refl);
        })
  times_out-IsFair false e =
      let old = at_phase (queued false) e in
      step_IsFair h h.lock h.waiters p idle fair
        (both_left p h.lock _ h.waiters _ (same_lock p h.lock) (same_tickets p h.waiters))
        (record { locks = λ f. cc f; locked = old.locked; waits = λ f. cc f; ticket = old.ticket })

  -- A move between two phases that have neither the lock nor a ticket.
  pub wanders-IsFair :
      (from to : Phase)
      → h.phase p ≡ from
      → has_lock from ≡ false
      → has_lock to ≡ false
      → has_ticket from ≡ false
      → has_ticket to ≡ false
      → IsFair (record h { phase = moved p to h.phase })
  wanders-IsFair from to e l l' t t' =
      let old = at_phase from e in
      step_IsFair h h.lock h.waiters p to fair
        (both_left p h.lock _ h.waiters _ (same_lock p h.lock) (same_tickets p h.waiters))
        (record {
          locks = λ f. cc (sym l' ∙ f);
          locked = λ f. cc (sym l ∙ old.locked f);
          waits = λ f. cc (sym t' ∙ f);
          ticket = λ m. cc (sym t ∙ old.ticket m);
        })

  pub takes-IsFair :
      h.phase p ≡ contending
      → h.lock ≡ none
      → IsFair (record h { lock = some p; phase = moved p checking h.phase })
  takes-IsFair e free =
      let old = at_phase contending e in
      step_IsFair h (some p) h.waiters p checking fair
        (both_left p h.lock _ h.waiters _ (taken_lock p h.lock free) (same_tickets p h.waiters))
        (record { locks = λ f. refl; locked = λ f. refl; waits = old.waits; ticket = old.ticket })

  -- The lock is let go of, and `p` goes to a phase that has neither.
  pub lets_go-IsFair :
      (from to : Phase) (waiters : Directory)
      → h.phase p ≡ from
      → has_ticket from ≡ false
      → has_lock to ≡ false
      → has_ticket to ≡ false
      → ((n q : ℕ) → Held n q waiters → Held n q h.waiters)
      → ((n q : ℕ) → Held n q h.waiters → Held n q waiters)
      → IsFair (record { lock = released p h.lock; waiters = waiters; phase = moved p to h.phase })
  lets_go-IsFair from to waiters e t l' t' back forth =
      step_IsFair h (released p h.lock) waiters p to fair
        (both_left p h.lock _ h.waiters waiters (released_lock p h.lock)
          (record { to = λ q ne m. forth q q m; from = λ n q m. inr (back n q m) }))
        (record {
          locks = λ f. cc (sym l' ∙ f);
          locked = λ f. absurd (released_none p h.lock f);
          waits = λ f. cc (sym t' ∙ f);
          ticket = λ m. absurd (no_ticket from e t p (back p p m));
        })

  pub checks-IsFair : (stuck : ℕ → Bool) → h.phase p ≡ checking → IsFair (check_waiters stuck p h)
  unfolding check_waiters
  checks-IsFair stuck e =
      let old = at_phase checking e in
      elim (Bool-cases (any_live_locks stuck none h.waiters).0) [
        | inl live ↦
            rw (live, check_waiters)
              (lets_go-IsFair checking sleeping (any_live_locks stuck none h.waiters).1 e refl refl
                refl (λ n q m. walk-Held stuck n q h.waiters m)
                (λ n q m. Held-walk stuck n q h.waiters m))
        | inr alone ↦
            rw (alone, check_waiters)
              (step_IsFair h h.lock (any_live_locks stuck none h.waiters).1 p stopping fair
                (both_left p h.lock _ h.waiters _ (same_lock p h.lock)
                  (walked_tickets stuck p h.waiters))
                (record {
                  locks = λ f. old.locks refl;
                  locked = λ f. refl;
                  waits = λ f. cc f;
                  ticket =
                      λ m. absurd (no_ticket checking e refl p (walk-Held stuck p p h.waiters m));
                }))
      ]

  pub crashes-IsFair : IsFair (record {
    lock = released p h.lock;
    waiters = orphan p h.waiters;
    phase = moved p dead h.phase;
  })
  crashes-IsFair =
      step_IsFair h (released p h.lock) (orphan p h.waiters) p dead fair
        (both_left p h.lock _ h.waiters _ (released_lock p h.lock) (orphaned_tickets p h.waiters))
        (record {
          locks = λ f. cc f;
          locked = λ f. absurd (released_none p h.lock f);
          waits = λ f. cc f;
          ticket = λ m. absurd ((orphan-Held p p p h.waiters m).1 refl);
        })
