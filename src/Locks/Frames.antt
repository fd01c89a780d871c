-- ===== src/Locks/Frames.antt =====
-- On the priority lock: what a step of one process leaves to the others.
use claude_agent_wrap.Prelude.{
  ℕ, ◌≡◌, ◌≢◌, refl, sym, subst, ◌∙◌, ◌⊎◌, inl, inr, Bool, true, false, Option, none, some, eqb,
  eqb_iff, Bool-cases, nat_eq,
}
use claude_agent_wrap.Prelude.Dict.{put}
use claude_agent_wrap.Locks.Files.{Directory, clear_lock_handle, any_live_locks, orphan}
use claude_agent_wrap.Locks.Priority.{
  Phase, queued, clearing, starting, checking, stopping, Host, moved, released,
}
use claude_agent_wrap.Locks.Held.{
  Held, eqb_self, put-Held_lem, clear-Held, Held-clear, walk-Held, Held-walk, orphan-Held,
  Held-orphan,
}

-- The phases between taking the lock and letting go of it.
abbrev pub has_lock : Phase → Bool
has_lock (clearing t) = true
has_lock starting = true
has_lock checking = true
has_lock stopping = true
has_lock _ = false

-- The phases of a start that still has its ticket.
abbrev pub has_ticket : Phase → Bool
has_ticket (queued t) = t
has_ticket (clearing t) = t
has_ticket _ = false

-- The lock and the tickets as one process sees them.
pub record Agrees (lock : Option ℕ) (waiters : Directory) (p : ℕ) (phase : Phase) : Type 0 where
  pub locks : has_lock phase ≡ true → lock ≡ some p
  pub locked : lock ≡ some p → has_lock phase ≡ true
  pub waits : has_ticket phase ≡ true → Held p p waiters
  pub ticket : Held p p waiters → has_ticket phase ≡ true

pub record IsFair (h : Host) : Type 0 where
  pub agrees : (p : ℕ) → Agrees h.lock h.waiters p (h.phase p)
  pub own : (n q : ℕ) → Held n q h.waiters → q ≡ n

-- What a step of `p` must leave to the other processes.
pub record Leaves (p : ℕ) (lock lock' : Option ℕ) (waiters waiters' : Directory) : Type 0 where
  pub lock_to : (q : ℕ) → q ≢ p → lock ≡ some q → lock' ≡ some q
  pub lock_from : (q : ℕ) → q ≢ p → lock' ≡ some q → lock ≡ some q
  pub held_to : (q : ℕ) → q ≢ p → Held q q waiters → Held q q waiters'
  pub held_from : (n q : ℕ) → Held n q waiters' → ((n ≡ p) × (q ≡ p)) ⊎ Held n q waiters

pub moved_self : (p : ℕ) (ph : Phase) (phase : ℕ → Phase) → moved p ph phase p ≡ ph
moved_self p ph phase = rw (eqb_self p) refl

pub moved_ne : (p q : ℕ) (ph : Phase) (phase : ℕ → Phase) → q ≢ p → moved p ph phase q ≡ phase q
moved_ne p q ph phase ne = elim (Bool-cases (eqb q p)) [
  | inl same ↦ absurd (ne ((eqb_iff q p).0 same))
  | inr other ↦ rw other refl
]

pub step_IsFair :
    (h : Host) (lock : Option ℕ) (waiters : Directory) (p : ℕ) (ph : Phase)
    → IsFair h
    → Leaves p h.lock lock h.waiters waiters
    → Agrees lock waiters p ph
    → IsFair (record { lock = lock; waiters = waiters; phase = moved p ph h.phase })
step_IsFair h lock waiters p ph fair leaves mine = record {
  agrees = λ q. elim (Bool-cases (eqb q p)) [
    | inl same ↦
        let e : q ≡ p = (eqb_iff q p).0 same in
        subst (λ x. Agrees lock waiters x (moved p ph h.phase x)) (sym e)
          (subst (Agrees lock waiters p) (sym (moved_self p ph h.phase)) mine)
    | inr other ↦
        let ne : q ≢ p = λ e. cc (sym other ∙ (eqb_iff q p).1 e) in
        let old = fair.agrees q in
        subst (Agrees lock waiters q) (sym (moved_ne p q ph h.phase ne)) (record {
          locks = λ e. leaves.lock_to q ne (old.locks e);
          locked = λ e. old.locked (leaves.lock_from q ne e);
          waits = λ e. leaves.held_to q ne (old.waits e);
          ticket = λ m. elim (leaves.held_from q q m) [
            | inl (e, _) ↦ absurd (ne e)
            | inr l ↦ old.ticket l
          ];
        })
  ];
  own = λ n q m. elim (leaves.held_from n q m) [ inl (e, f) ↦ f ∙ sym e | inr l ↦ fair.own n q l ];
}

-- The ways a step changes the lock, and those in which it changes the directory.
pub record LockLeft (p : ℕ) (lock lock' : Option ℕ) : Type 0 where
  pub to : (q : ℕ) → q ≢ p → lock ≡ some q → lock' ≡ some q
  pub from : (q : ℕ) → q ≢ p → lock' ≡ some q → lock ≡ some q

pub same_lock : (p : ℕ) (lock : Option ℕ) → LockLeft p lock lock
same_lock p lock = record { to = λ q ne e. e; from = λ q ne e. e }

pub taken_lock : (p : ℕ) (lock : Option ℕ) → lock ≡ none → LockLeft p lock (some p)
taken_lock p lock free = record {
  to = λ q ne e. cc (sym free ∙ e);
  from = λ q ne e. let f : p ≡ q = cc e in absurd (ne (sym f));
}

pub released_lock : (p : ℕ) (lock : Option ℕ) → LockLeft p lock (released p lock)
released_lock p none = same_lock p none
released_lock p (some r) = elim (Bool-cases (eqb r p)) [
  | inl same ↦ rw same (record {
    to = λ q ne e. let f : r ≡ q = cc e in absurd (ne (sym f ∙ (eqb_iff r p).0 same));
    from = λ q ne e. cc e;
  })
  | inr other ↦ rw other (same_lock p (some r))
]

pub released_none : (p : ℕ) (lock : Option ℕ) → ¬ (released p lock ≡ some p)
released_none p none e = cc e
released_none p (some r) e = elim (Bool-cases (eqb r p)) [
  | inl same ↦ cc (rw same at e)
  | inr other ↦ let f : r ≡ p = cc (rw other at e) in cc (sym other ∙ (eqb_iff r p).1 f)
]

pub released_self : (p : ℕ) → released p (some p) ≡ none
released_self p = rw (eqb_self p) refl

pub record TicketsLeft (p : ℕ) (waiters waiters' : Directory) : Type 0 where
  pub to : (q : ℕ) → q ≢ p → Held q q waiters → Held q q waiters'
  pub from : (n q : ℕ) → Held n q waiters' → ((n ≡ p) × (q ≡ p)) ⊎ Held n q waiters

pub both_left :
    (p : ℕ) (lock lock' : Option ℕ) (waiters waiters' : Directory)
    → LockLeft p lock lock'
    → TicketsLeft p waiters waiters'
    → Leaves p lock lock' waiters waiters'
both_left p lock lock' waiters waiters' l t = record {
  lock_to = l.to;
  lock_from = l.from;
  held_to = t.to;
  held_from = t.from;
}

pub same_tickets : (p : ℕ) (w : Directory) → TicketsLeft p w w
same_tickets p w = record { to = λ q ne m. m; from = λ n q m. inr m }

pub cleared_tickets : (p : ℕ) (w : Directory) → TicketsLeft p w (clear_lock_handle p w)
cleared_tickets p w = record {
  to = λ q ne m. Held-clear p q q w ne m;
  from = λ n q m. inr (clear-Held p n q w m).0;
}

pub orphaned_tickets : (p : ℕ) (w : Directory) → TicketsLeft p w (orphan p w)
orphaned_tickets p w = record {
  to = λ q ne m. Held-orphan p q q w ne m;
  from = λ n q m. inr (orphan-Held p n q w m).0;
}

pub walked_tickets :
    (stuck : ℕ → Bool) (p : ℕ) (w : Directory) → TicketsLeft p w (any_live_locks stuck none w).1
walked_tickets stuck p w = record {
  to = λ q ne m. Held-walk stuck q q w m;
  from = λ n q m. inr (walk-Held stuck n q w m);
}

pub put_tickets : (p : ℕ) (w : Directory) → TicketsLeft p w (put p (some p) w)
put_tickets p w =
    let (_, to, from) = put-Held_lem p w in record { to = λ q ne m. to q q ne m; from = from }
