-- ===== src/Locks/Files.antt =====
-- A directory of lock files: agent_wrap/lib/flock.py. A file's name is the id of the instance that
-- it is for, and its lock is the kernel's: it has a holder, or none after the holder exits. Taking
-- the lock of a file that is not there makes it. Each call is one step.
use claude_agent_wrap.Prelude.{
  ℕ, Bool, true, false, not, Option, none, some, List, [], ◌∷◌, eqb, if◌then◌else◌, nat_eq,
}
use claude_agent_wrap.Prelude.Dict.{Dict, get, put}
use claude_agent_wrap.LogIndex.Sweep.{sorted}

abbrev pub Directory : Type 0
Directory = Dict ℕ (Option ℕ)

abbrev pub is_held : Option ℕ → Bool
is_held none = false
is_held (some q) = true

abbrev pub held_by : Option (Option ℕ) → Bool
held_by none = false
held_by (some holder) = is_held holder

-- `lock_and_hold(directory / name)` by `holder`: whether the lock was taken.
unfoldable pub lock_and_hold : ℕ → ℕ → Directory → Bool × Directory
unfolding get put
lock_and_hold holder name dir =
    if held_by (get name dir) then (false, dir) else (true, put name (some holder) dir)

-- `path.unlink()`
unfoldable pub unlink : ℕ → Directory → Directory
unlink name [] = []
unlink name ((n, h) ∷ dir) =
    let rest = unlink name dir in if eqb n name then rest else (n, h) ∷ rest

-- `clear_lock_handle(handle, path)`: the file goes, held or not. That its removal fails is not modelled.
unfoldable pub clear_lock_handle : ℕ → Directory → Directory
unfolding unlink
clear_lock_handle name dir = unlink name dir

-- A lock that someone holds cannot be taken, so `try_file_lock` tells whether a file is stale.
abbrev pub try_file_lock : Option ℕ → Bool
try_file_lock holder = not (is_held holder)

abbrev pub is_excluded : Option ℕ → ℕ → Bool
is_excluded none name = false
is_excluded (some id) name = eqb name id

-- `any_live_locks(directory, exclude_id=…)`: whether one is live, and the directory without the
-- files that were stale. Where `stuck` says so, the removal of a file raises an `OSError`, which is
-- suppressed, and the file stays.
unfoldable pub any_live_locks : (ℕ → Bool) → Option ℕ → Directory → Bool × Directory
any_live_locks stuck exclude [] = (false, [])
any_live_locks stuck exclude ((n, h) ∷ dir) =
    let (live, kept) = any_live_locks stuck exclude dir in
    if is_excluded exclude n
    then (live, (n, h) ∷ kept)
    else if try_file_lock h
    then (live, if stuck n then (n, h) ∷ kept else kept)
    else (true, (n, h) ∷ kept)

unfoldable pub live_names : Directory → List ℕ
live_names [] = []
live_names ((n, h) ∷ dir) = let rest = live_names dir in if try_file_lock h then rest else n ∷ rest

-- `live_lock_ids`
unfoldable pub live_lock_ids : Directory → List ℕ
unfolding live_names sorted
live_lock_ids dir = sorted (live_names dir)

-- The kernel drops the locks of a process that ends.
unfoldable pub orphan : ℕ → Directory → Directory
orphan p [] = []
orphan p ((n, none) ∷ dir) = (n, none) ∷ orphan p dir
orphan p ((n, some q) ∷ dir) =
    let rest = orphan p dir in (n, if eqb q p then none else some q) ∷ rest
