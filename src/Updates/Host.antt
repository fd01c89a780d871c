-- ===== src/Updates/Host.antt =====
-- What the update service drives: git, the container tool, the viewer's daemon and the terminal.
-- All of it is a parameter; a run keeps the list of what was done, the newest first.
use claude_agent_wrap.Prelude.{ℕ, ◌⊎◌, Bool, Option, none, some, List, ◌∷◌, Text}

-- Whether the answer is good, for a reader of the terminal.
pub data Level : Type 0 where
  success warning error : Level

-- `GitFullResult`. A return code is only told from 0.
pub record GitFullResult : Type 0 where
  pub stdout : Text
  pub returncode : ℕ
  pub stderr : Text

-- `LiveContainers`, by the names in it.
pub record LiveContainers : Type 0 where
  pub agents : List Text
  pub sidecars : List Text

-- `subprocess.run` on git: it returns, raises `TimeoutExpired` or `FileNotFoundError`, or raises
-- what is not caught, such as `UnicodeDecodeError`.
pub data GitRun : Type 0 where
  returned : GitFullResult → GitRun
  unavailable raised : GitRun

-- The bootstrap's exception is its text.
pub record Host : Type 1 where
  pub World : Type 0
  pub run_git : List Text → Option ℕ → World → World × GitRun
  pub live_containers : World → World × LiveContainers
  pub stop_daemon : World → World
  pub prompt_confirm : Text → World → World × Bool
  pub md_exist : World → Bool
  pub diff_md : World → World × ℕ
  pub unlink_md : World → World
  pub bootstrap : World → World × (Text ⊎ ℕ)
  pub strip : Text → Text
  pub lower : Text → Text
  pub splitlines : Text → List Text
  pub int_of : Text → Option ℕ
  pub show : ℕ → Text
  pub skip_update_check : Text
  pub tool_dir : Text
  pub bootstrap_path : Text

pub data Event : Type 0 where
  ran : List Text → Option ℕ → Event
  looked : LiveContainers → Event
  stopped : Event
  asked : Text → Event
  compared unlinked provisioned : Event
  shown : Level → Text → Event

module _ (h : Host) where
  pub record State : Type 0 where
    pub world : h.World
    pub trace : List Event

  -- A computation of the service: `none` is an exception that it lets through.
  abbrev pub Run : Type 0 → Type 0
  Run A = State → Option A × State

  unfoldable pub pure : {A : Type 0} → A → Run A
  pure a s = (some a, s)

  unfoldable pub raise : {A : Type 0} → Run A
  raise s = (none, s)

  unfoldable pub resume : {A B : Type 0} → (A → Run B) → Option A × State → Option B × State
  resume f (none, s) = (none, s)
  resume f (some a, s) = f a s

  unfoldable pub bind : {A B : Type 0} → Run A → (A → Run B) → Run B
  unfolding resume
  bind m f s = resume f (m s)

  -- Something is done to the world, and noted.
  unfoldable pub act : {A : Type 0} → (A → Event) → (h.World → h.World × A) → Run A
  act note f s = let (w, a) = f s.world in (some a, record { world = w; trace = note a ∷ s.trace })

  abbrev pub tell : Event → Run (Unit {0})
  tell e = act (λ _. e) (λ w. (w, tt))

  abbrev pub show_at : Level → Text → Run (Unit {0})
  show_at level message = tell (shown level message)
