-- ===== src/Locks/Held.antt =====
-- On the directory of lock files: which files are held after each operation.
use claude_agent_wrap.Prelude.{
  ℕ, ◌≡◌, ◌≢◌, refl, sym, ap, ◌∙◌, ◌⊎◌, inl, inr, Bool, true, Option, none, some, [], ◌∷◌, eqb,
  eqb_iff, In, Bool-cases, Option-cases, if◌then◌else◌, nat_eq, any, keep, not, ◌&&◌, ◌||◌,
}
use claude_agent_wrap.Prelude.Dict.{get, put}
use claude_agent_wrap.Locks.Files.{
  Directory, is_excluded, is_held, lock_and_hold, unlink, clear_lock_handle, try_file_lock,
  any_live_locks, orphan,
}

-- The file of `n` is there, and `q` has its lock.
abbrev pub Held : ℕ → ℕ → Directory → Type 0
Held n q dir = In (n, some q) dir

pub eqb_self : (n : ℕ) → eqb n n ≡ true
eqb_self n = (eqb_iff n n).1 refl

get-Held : (n q : ℕ) (dir : Directory) → get n dir ≡ some (some q) → Held n q dir
unfolding get
get-Held n q [] h = cc
get-Held n q ((m, x) ∷ dir) h = elim (Bool-cases (eqb m n)) [
  | inl same ↦
      let e : m ≡ n = (eqb_iff m n).0 same in
      let f : x ≡ some q = cc (rw same at h) in inl (λ t. (sym e t, sym f t))
  | inr other ↦ inr (get-Held n q dir (rw other at h))
]

put-Held :
    (k v n q : ℕ) (dir : Directory)
    → Held n q (put k (some v) dir)
    → ((n ≡ k) × (q ≡ v)) ⊎ Held n q dir
unfolding put
put-Held k v n q [] (inl e) =
    inl (ap (λ (x : ℕ × Option ℕ). x.0) e, cc (ap (λ (x : ℕ × Option ℕ). x.1) e))
put-Held k v n q [] (inr m) = absurd m
put-Held k v n q ((j, x) ∷ dir) m = elim (Bool-cases (eqb j k)) [
  | inl same ↦ elim (rw same at m) [
    | inl e ↦ inl (
      ap (λ (y : ℕ × Option ℕ). y.0) e ∙ (eqb_iff j k).0 same,
      cc (ap (λ (y : ℕ × Option ℕ). y.1) e),
    )
    | inr l ↦ inr (inr l)
  ]
  | inr other ↦ elim (rw other at m) [
    | inl e ↦ inr (inl e)
    | inr l ↦ elim (put-Held k v n q dir l) [ inl new ↦ inl new | inr old ↦ inr (inr old) ]
  ]
]

Held-put_self : (k v : ℕ) (dir : Directory) → Held k v (put k (some v) dir)
unfolding put
Held-put_self k v [] = inl refl
Held-put_self k v ((j, x) ∷ dir) = elim (Bool-cases (eqb j k)) [
  | inl same ↦ rw same (inl (let e : j ≡ k = (eqb_iff j k).0 same in λ t. (sym e t, some v)))
  | inr other ↦ rw other (inr (Held-put_self k v dir))
]

Held-put : (k v n q : ℕ) (dir : Directory) → n ≢ k → Held n q dir → Held n q (put k (some v) dir)
unfolding put
Held-put k v n q [] ne m = absurd m
Held-put k v n q ((j, x) ∷ dir) ne m = elim (Bool-cases (eqb j k)) [
  | inl same ↦ elim m [
    | inl e ↦ absurd (ne (ap (λ (y : ℕ × Option ℕ). y.0) e ∙ (eqb_iff j k).0 same))
    | inr l ↦ rw same (inr l)
  ]
  | inr other ↦ elim m [
    | inl e ↦ rw other (inl e)
    | inr l ↦ rw other (inr (Held-put k v n q dir ne l))
  ]
]

-- Taking the lock of one's own file: it is taken unless someone has it, and no other file changes.
pub lock_and_hold-taken :
    (p : ℕ) (dir : Directory)
    → ((q : ℕ) → ¬ Held p q dir)
    → lock_and_hold p p dir ≡ (true, put p (some p) dir)
unfolding lock_and_hold
lock_and_hold-taken p dir free = elim (Option-cases (get p dir)) [
  | inl missing ↦ rw missing refl
  | inr (none, e) ↦ rw e refl
  | inr (some q, e) ↦ absurd (free q (get-Held p q dir e))
]

pub put-Held_lem :
    (p : ℕ) (dir : Directory)
    → Held p p (put p (some p) dir)
      × ((n q : ℕ) → n ≢ p → Held n q dir → Held n q (put p (some p) dir))
      × ((n q : ℕ) → Held n q (put p (some p) dir) → ((n ≡ p) × (q ≡ p)) ⊎ Held n q dir)
put-Held_lem p dir =
    (Held-put_self p p dir, λ n q ne m. Held-put p p n q dir ne m, λ n q m. put-Held p p n q dir m)

pub clear-Held :
    (p n q : ℕ) (dir : Directory) → Held n q (clear_lock_handle p dir) → Held n q dir × (n ≢ p)
unfolding clear_lock_handle unlink
clear-Held p n q [] m = absurd m
clear-Held p n q ((j, x) ∷ dir) m = elim (Bool-cases (eqb j p)) [
  | inl same ↦ let (l, ne) = clear-Held p n q dir (rw same at m) in (inr l, ne)
  | inr other ↦ elim (rw other at m) [
    | inl e ↦ (
      inl e,
      λ f.
          let g : j ≡ p = ap (λ (y : ℕ × Option ℕ). y.0) (sym e) ∙ f in
          cc (sym other ∙ (eqb_iff j p).1 g),
    )
    | inr l ↦ let (r, ne) = clear-Held p n q dir l in (inr r, ne)
  ]
]

pub Held-clear :
    (p n q : ℕ) (dir : Directory) → n ≢ p → Held n q dir → Held n q (clear_lock_handle p dir)
unfolding clear_lock_handle unlink
Held-clear p n q [] ne m = absurd m
Held-clear p n q ((j, x) ∷ dir) ne m = elim (Bool-cases (eqb j p)) [
  | inl same ↦ elim m [
    | inl e ↦ absurd (ne (ap (λ (y : ℕ × Option ℕ). y.0) e ∙ (eqb_iff j p).0 same))
    | inr l ↦ rw same (Held-clear p n q dir ne l)
  ]
  | inr other ↦ elim m [
    | inl e ↦ rw other (inl e)
    | inr l ↦ rw other (inr (Held-clear p n q dir ne l))
  ]
]

-- The walk keeps the files that are held, and tells whether there is one.
module _ (stuck : ℕ → Bool) where
  pub walk-Held :
      (n q : ℕ) (dir : Directory) → Held n q (any_live_locks stuck none dir).1 → Held n q dir
  unfolding any_live_locks
  walk-Held n q [] m = m
  walk-Held n q ((j, none) ∷ dir) m = elim (Bool-cases (stuck j)) [
    | inl stays ↦ elim (rw stays at m) [ inl e ↦ inl e | inr l ↦ inr (walk-Held n q dir l) ]
    | inr goes ↦ inr (walk-Held n q dir (rw goes at m))
  ]
  walk-Held n q ((j, some r) ∷ dir) (inl e) = inl e
  walk-Held n q ((j, some r) ∷ dir) (inr m) = inr (walk-Held n q dir m)

  pub Held-walk :
      (n q : ℕ) (dir : Directory) → Held n q dir → Held n q (any_live_locks stuck none dir).1
  unfolding any_live_locks
  Held-walk n q [] m = m
  Held-walk n q ((j, none) ∷ dir) (inl e) = cc (ap (λ (y : ℕ × Option ℕ). y.1) e)
  Held-walk n q ((j, none) ∷ dir) (inr m) = elim (Bool-cases (stuck j)) [
    | inl stays ↦ rw stays (inr (Held-walk n q dir m))
    | inr goes ↦ rw goes (Held-walk n q dir m)
  ]
  Held-walk n q ((j, some r) ∷ dir) (inl e) = inl e
  Held-walk n q ((j, some r) ∷ dir) (inr m) = inr (Held-walk n q dir m)

  pub walk-live :
      (n q : ℕ) (dir : Directory) → Held n q dir → (any_live_locks stuck none dir).0 ≡ true
  unfolding any_live_locks
  walk-live n q [] m = absurd m
  walk-live n q ((j, none) ∷ dir) (inl e) = cc (ap (λ (y : ℕ × Option ℕ). y.1) e)
  walk-live n q ((j, none) ∷ dir) (inr m) = walk-live n q dir m
  walk-live n q ((j, some r) ∷ dir) m = refl

  pub live-walk :
      (dir : Directory)
      → (any_live_locks stuck none dir).0 ≡ true
      → (n : ℕ) × (q : ℕ) × Held n q dir
  unfolding any_live_locks
  live-walk [] h = cc
  live-walk ((j, none) ∷ dir) h = let (n, q, m) = live-walk dir h in (n, q, inr m)
  live-walk ((j, some r) ∷ dir) h = (j, r, inl refl)

pub orphan-Held : (p n q : ℕ) (dir : Directory) → Held n q (orphan p dir) → Held n q dir × (q ≢ p)
unfolding orphan
orphan-Held p n q [] m = absurd m
orphan-Held p n q ((j, none) ∷ dir) (inl e) = cc (ap (λ (y : ℕ × Option ℕ). y.1) e)
orphan-Held p n q ((j, none) ∷ dir) (inr m) = let (l, ne) = orphan-Held p n q dir m in (inr l, ne)
orphan-Held p n q ((j, some r) ∷ dir) m = elim (Bool-cases (eqb r p)) [
  | inl same ↦ elim (rw same at m) [
    | inl e ↦ cc (ap (λ (y : ℕ × Option ℕ). y.1) e)
    | inr k ↦ let (l, ne) = orphan-Held p n q dir k in (inr l, ne)
  ]
  | inr other ↦ elim (rw other at m) [
    | inl e ↦ (
      inl e,
      λ f.
          let g : some q ≡ some r = ap (λ (y : ℕ × Option ℕ). y.1) e in
          let k : r ≡ p = cc (g, f) in cc (sym other ∙ (eqb_iff r p).1 k),
    )
    | inr k ↦ let (l, ne) = orphan-Held p n q dir k in (inr l, ne)
  ]
]

pub Held-orphan : (p n q : ℕ) (dir : Directory) → q ≢ p → Held n q dir → Held n q (orphan p dir)
unfolding orphan
Held-orphan p n q [] ne m = absurd m
Held-orphan p n q ((j, none) ∷ dir) ne (inl e) = cc (ap (λ (y : ℕ × Option ℕ). y.1) e)
Held-orphan p n q ((j, none) ∷ dir) ne (inr m) = inr (Held-orphan p n q dir ne m)
Held-orphan p n q ((j, some r) ∷ dir) ne m = elim (Bool-cases (eqb r p)) [
  | inl same ↦ elim m [
    | inl e ↦
        let g : some q ≡ some r = ap (λ (y : ℕ × Option ℕ). y.1) e in
        let k : q ≡ r = cc g in absurd (ne (k ∙ (eqb_iff r p).0 same))
    | inr l ↦ rw same (inr (Held-orphan p n q dir ne l))
  ]
  | inr other ↦ elim m [
    | inl e ↦ rw other (inl e)
    | inr l ↦ rw other (inr (Held-orphan p n q dir ne l))
  ]
]

-- The walk of `any_live_locks` against a description of its two results: it is true just if a file
-- that is not excluded is held, and what stays is what is held, excluded or cannot be removed, in its
-- order.
pub any_live_locks_exact :
    (stuck : ℕ → Bool) (exclude : Option ℕ) (dir : Directory)
    → any_live_locks stuck exclude dir ≡ (
      any (λ e. not (is_excluded exclude e.0) && is_held e.1) dir,
      keep (λ e. is_excluded exclude e.0 || is_held e.1 || stuck e.0) dir,
    )
unfolding any_live_locks
any_live_locks_exact stuck exclude [] = refl
any_live_locks_exact stuck exclude ((n, h) ∷ dir) =
    let rest = any_live_locks_exact stuck exclude dir in
    elim (Bool-cases (is_excluded exclude n)) [
      | inl out ↦ rw out (ap (λ (x : Bool × Directory). (x.0, (n, h) ∷ x.1)) rest)
      | inr seen ↦ rw seen (walk_on h _ _ rest)
    ]
  where
    walk_on :
        (x : Option ℕ) (r s : Bool × Directory)
        → r ≡ s
        → ◌≡◌ {A = Bool × Directory}
            (if try_file_lock x
              then (r.0, if stuck n then (n, x) ∷ r.1 else r.1)
              else (true, (n, x) ∷ r.1))
            (is_held x || s.0, if is_held x || stuck n then (n, x) ∷ s.1 else s.1)
    walk_on none r s e =
        ap (λ (y : Bool × Directory). (y.0, if stuck n then (n, none) ∷ y.1 else y.1)) e
    walk_on (some q) r s e = ap (λ (y : Bool × Directory). (true, (n, some q) ∷ y.1)) e
