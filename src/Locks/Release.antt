-- ===== src/Locks/Release.antt =====
-- On the priority lock: how the process that has the lock lets go of it.
use claude_agent_wrap.Prelude.{
  ℕ, ◌≡◌, ◌≢◌, refl, ap, ◌∙◌, ◌⊎◌, inl, inr, Bool, true, false, none, some, Bool-cases,
}
use claude_agent_wrap.Locks.Files.{Directory, clear_lock_handle, any_live_locks}
use claude_agent_wrap.Locks.Priority.{
  Phase, idle, queued, clearing, starting, contending, checking, sleeping, stopping, dead, Host,
  moved, released, check_waiters, Step, registers, acquires, clears, times_out, contends, takes,
  checks, wakes, leaves_start, leaves_stop, crashes, Reached, goes,
}
use claude_agent_wrap.Locks.Frames.{has_lock, has_ticket, released_self, moved_self, moved_ne}
use claude_agent_wrap.Locks.Entry.{IsStale, check_waiters_yields}

-- The step is one that the process itself takes; a crash is none.
unfoldable pub IsBy : ℕ → (h h' : Host) → Step h h' → Type 0
IsBy p h _ (registers q e) = q ≡ p
IsBy p h _ (acquires q t e free) = q ≡ p
IsBy p h _ (clears q t e) = q ≡ p
IsBy p h _ (times_out q t e) = q ≡ p
IsBy p h _ (contends q e) = q ≡ p
IsBy p h _ (takes q e free) = q ≡ p
IsBy p h _ (checks stuck q e) = q ≡ p
IsBy p h _ (wakes q e) = q ≡ p
IsBy p h _ (leaves_start q e) = q ≡ p
IsBy p h _ (leaves_stop q e) = q ≡ p
IsBy p h _ (crashes q) = ⊥

-- Steps of two processes and no other, one after another.
pub data Runs (p q : ℕ) : Host → Host → Type 0 where
  stays : (h : Host) → Runs p q h h
  then_step :
      (a b c : Host) (step : Step a b)
      → IsBy p a b step ⊎ IsBy q a b step
      → Runs p q b c
      → Runs p q a c

pub Runs-trans : {p q : ℕ} {a b c : Host} → Runs p q a b → Runs p q b c → Runs p q a c
Runs-trans (stays _) r = r
Runs-trans (then_step a b c step by more) r = then_step a b _ step by (Runs-trans more r)

-- The walks of these runs can remove the stale files; it does not matter if they cannot.
abbrev pub removes : ℕ → Bool
removes n = false

-- What is left once the process that had the lock has let go of it.
pub record LetsGo (stale : Directory) (p q : ℕ) (h h' : Host) : Type 0 where
  pub steps : Runs p q h h'
  pub free : h'.lock ≡ none
  pub others : (r : ℕ) → r ≢ q → h'.phase r ≡ h.phase r
  pub off : has_ticket (h'.phase q) ≡ false
  pub reached : Reached stale h'

module _ (stale : Directory) (old : IsStale stale) (p q : ℕ) where
  -- The last step of a critical section.
  last_step :
      (h h' : Host) (step : Step h h')
      → IsBy q h h' step
      → Reached stale h
      → h'.lock ≡ released q (some q)
      → (ph : Phase) → has_ticket ph ≡ false
      → ((r : ℕ) → h'.phase r ≡ moved q ph h.phase r)
      → LetsGo stale p q h h'
  last_step h h' step by r lock ph none_held phases = record {
    steps = then_step h h' h' step (inr by) (stays h');
    free = lock ∙ released_self q;
    others = λ s ne. phases s ∙ moved_ne q s ph h.phase ne;
    off = ap has_ticket (phases q ∙ moved_self q ph h.phase) ∙ none_held;
    reached = goes h h' r step;
  }

  -- A step of the holder before it lets go.
  first_step :
      (h one h' : Host) (step : Step h one) (ph : Phase)
      → IsBy q h one step
      → ((r : ℕ) → one.phase r ≡ moved q ph h.phase r)
      → LetsGo stale p q one h'
      → LetsGo stale p q h h'
  first_step h one h' step ph by phases rest = record {
    steps = then_step h one h' step (inr by) rest.steps;
    free = rest.free;
    others = λ s ne. rest.others s ne ∙ (phases s ∙ moved_ne q s ph h.phase ne);
    off = rest.off;
    reached = rest.reached;
  }

  leave_start :
      (h : Host)
      → Reached stale h
      → h.lock ≡ some q
      → h.phase q ≡ starting
      → (h' : Host) × LetsGo stale p q h h'
  unfolding IsBy
  leave_start h r held e = (
    record h { lock = released q h.lock; phase = moved q idle h.phase },
    last_step h _ (leaves_start q e) refl r (ap (released q) held) idle refl (λ s. refl),
  )

  leave_stop :
      (h : Host)
      → Reached stale h
      → h.lock ≡ some q
      → h.phase q ≡ stopping
      → (h' : Host) × LetsGo stale p q h h'
  unfolding IsBy
  leave_stop h r held e = (
    record h { lock = released q h.lock; phase = moved q idle h.phase },
    last_step h _ (leaves_stop q e) refl r (ap (released q) held) idle refl (λ s. refl),
  )

  leave_clearing :
      (h : Host) (t : Bool)
      → Reached stale h
      → h.lock ≡ some q
      → h.phase q ≡ clearing t
      → (h' : Host) × LetsGo stale p q h h'
  unfolding IsBy
  leave_clearing h t r held e =
      let one : Host = record h {
        waiters = clear_lock_handle q h.waiters;
        phase = moved q starting h.phase;
      } in
      let (h', rest) =
        leave_start one (goes h one r (clears q t e)) held (moved_self q starting h.phase) in
      (h', first_step h one h' (clears q t e) starting refl (λ s. refl) rest)

  check_others : (h : Host) (r : ℕ) → r ≢ q → (check_waiters removes q h).phase r ≡ h.phase r
  unfolding check_waiters
  check_others h r ne = elim (Bool-cases (any_live_locks removes none h.waiters).0) [
    | inl live ↦ rw (live, check_waiters) (moved_ne q r sleeping h.phase ne)
    | inr alone ↦ rw (alone, check_waiters) (moved_ne q r stopping h.phase ne)
  ]

  leave_checking :
      (h : Host)
      → Reached stale h
      → h.lock ≡ some q
      → h.phase q ≡ checking
      → (h' : Host) × LetsGo stale p q h h'
  unfolding IsBy
  leave_checking h r held e =
      let one : Host = check_waiters removes q h in
      let r' : Reached stale one = goes h one r (checks removes q e) in
      elim (check_waiters_yields stale removes h q old r e) [
        | inl (_, _, slept, free) ↦ (
          one,
          record {
            steps = then_step h one one (checks removes q e) (inr refl) (stays one);
            free = free;
            others = check_others h;
            off = ap has_ticket slept;
            reached = r';
          },
        )
        | inr (_, stopped, kept) ↦
            let (h', rest) = leave_stop one r' kept stopped in
            (
              h',
              record {
                steps = then_step h one h' (checks removes q e) (inr refl) rest.steps;
                free = rest.free;
                others = λ s ne. rest.others s ne ∙ check_others h s ne;
                off = rest.off;
                reached = rest.reached;
              },
            )
      ]

  -- Whatever the holder is at, it lets go by steps of its own.
  pub holder_releases :
      (h : Host)
      → Reached stale h
      → h.lock ≡ some q
      → (ph : Phase) → h.phase q ≡ ph
      → has_lock ph ≡ true
      → (h' : Host) × LetsGo stale p q h h'
  holder_releases h r held idle e has = cc has
  holder_releases h r held (queued t) e has = cc has
  holder_releases h r held (clearing t) e has = leave_clearing h t r held e
  holder_releases h r held starting e has = leave_start h r held e
  holder_releases h r held contending e has = cc has
  holder_releases h r held checking e has = leave_checking h r held e
  holder_releases h r held sleeping e has = cc has
  holder_releases h r held stopping e has = leave_stop h r held e
  holder_releases h r held dead e has = cc has
