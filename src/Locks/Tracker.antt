-- ===== src/Locks/Tracker.antt =====
-- The registrations of runs on sidecar containers: agent_wrap/domain/sidecars/tracker.py. A
-- container's name is a number here, and its directory is made when it is first asked for.
use claude_agent_wrap.Prelude.{
  ℕ, ◌≡◌, ◌≢◌, ◌↔◌, refl, sym, ap, subst, ◌∙◌, inl, inr, Bool, true, not, ◌&&◌, Option, none, some,
  List, [], ◌∷◌, eqb, eqb_iff, any, In, Bool-cases, if◌then◌else◌, arith,
}
use claude_agent_wrap.Locks.Files.{
  Directory, is_held, is_excluded, lock_and_hold, clear_lock_handle, any_live_locks,
}
use claude_agent_wrap.Locks.Held.{Held, any_live_locks_exact}

-- `running/`, by container.
abbrev pub Running : Type 0
Running = ℕ → Directory

abbrev at_container : ℕ → Directory → Running → Running
at_container name dir running c = if eqb c name then dir else running c

-- A registration by the run itself, whose instance id names the file.
unfoldable pub register_running : ℕ → ℕ → Running → Bool × Running
unfolding lock_and_hold
register_running name id running = (
  (lock_and_hold id id (running name)).0,
  at_container name (lock_and_hold id id (running name)).1 running,
)

unfoldable pub clear_running : ℕ → ℕ → Running → Running
unfolding clear_lock_handle
clear_running name id running = at_container name (clear_lock_handle id (running name)) running

-- `has_live_runners(container_name, exclude_id=…)`, with the stale registrations reaped.
unfoldable pub has_live_runners : (ℕ → Bool) → ℕ → ℕ → Running → Bool × Running
unfolding any_live_locks
has_live_runners stuck name exclude running = (
  (any_live_locks stuck (some exclude) (running name)).0,
  at_container name (any_live_locks stuck (some exclude) (running name)).1 running,
)

any-In :
    {A : Type 0} (p : A → Bool) (xs : List A) → any p xs ≡ true → (x : A) × In x xs × (p x ≡ true)
any-In p [] h = cc h
any-In p (x ∷ xs) h = elim (Bool-cases (p x)) [
  | inl good ↦ (x, inl refl, good)
  | inr bad ↦ let (y, m, e) = any-In p xs (rw bad at h) in (y, inr m, e)
]

In-any : {A : Type 0} (p : A → Bool) (xs : List A) (x : A) → In x xs → p x ≡ true → any p xs ≡ true
In-any p [] x m h = absurd m
In-any p (y ∷ xs) x (inl e) h = rw (subst (λ z. p z ≡ true) e h) refl
In-any p (y ∷ xs) x (inr m) h = ground (arith, In-any p xs x m h)

others : ℕ → ℕ × Option ℕ → Bool
others exclude e = not (is_excluded (some exclude) e.0) && is_held e.1

others-Held :
    (exclude : ℕ) (dir : Directory) (e : ℕ × Option ℕ)
    → In e dir
    → others exclude e ≡ true
    → (n : ℕ) × (q : ℕ) × Held n q dir × (n ≢ exclude)
unfolding others
others-Held exclude dir (n, none) m h = elim (Bool-cases (eqb n exclude)) [
  | inl same ↦ cc (rw same at h)
  | inr apart ↦ cc (rw apart at h)
]
others-Held exclude dir (n, some q) m h =
    (n, q, m, λ f. let same : eqb n exclude ≡ true = (eqb_iff n exclude).1 f in cc (rw same at h))

Held-others : (exclude n q : ℕ) → n ≢ exclude → others exclude (n, some q) ≡ true
unfolding others
Held-others exclude n q ne = elim (Bool-cases (eqb n exclude)) [
  | inl same ↦ absurd (ne ((eqb_iff n exclude).0 same))
  | inr apart ↦ rw apart refl
]

-- The teardown predicate is true just if a run other than the one that asks holds a registration on
-- the container, whether stale files can be removed or not, and registrations on other containers
-- stay as they are.
pub has_live_runners_exact :
    (stuck : ℕ → Bool) (name exclude : ℕ) (running : Running)
    → (((has_live_runners stuck name exclude running).0 ≡ true)
        ↔ ((n : ℕ) × (q : ℕ) × Held n q (running name) × (n ≢ exclude)))
      × ((c : ℕ) → c ≢ name → (has_live_runners stuck name exclude running).1 c ≡ running c)
unfolding has_live_runners others
has_live_runners_exact stuck name exclude running =
    let exact =
      ap (λ (x : Bool × Directory). x.0)
        (any_live_locks_exact stuck (some exclude) (running name)) in
    (
      (
        λ live.
            let (x, m, e) = any-In (others exclude) (running name) (sym exact ∙ live) in
            others-Held exclude (running name) x m e,
        λ other.
            let (n, q, m, ne) = other in
            exact
            ∙ In-any (others exclude) (running name) (n, some q) m (Held-others exclude n q ne),
      ),
      λ c ne. elim (Bool-cases (eqb c name)) [
        | inl same ↦ absurd (ne ((eqb_iff c name).0 same))
        | inr apart ↦ rw apart refl
      ],
    )
