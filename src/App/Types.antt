-- ===== src/App/Types.antt =====
-- The data of app.js: a task of tasks.conf, a log entry, and what a handler does besides changing
-- the page's state.
use cockpit_cronplus.Common.{
  ℕ, Bool, true, Option, none, some, List, ℤ, pos, Text, ◌==◌, if◌then◌else◌, ◌≡◌, ◌≢◌, refl, arith,
  Option-cases, inl, inr,
}
use cockpit_cronplus.Cron.ParseInt.{parse_int}

-- An `id` of 0 stands for a missing one: the code treats both alike (`t.id || 0`, `!task.id`). A
-- missing text is the empty one, and a missing number is 0, for the same reason; `enabled` is none
-- where it is missing.
pub record Task : Type 0 where
  pub id : ℕ
  pub title : Text
  pub command : Text
  pub schedule : Text
  pub enabled : Option Bool
  pub comment : Text
  pub run_user : Text
  pub timeout : ℤ
  pub max_retries : ℤ
  pub retry_interval : ℤ
  pub max_concurrent : ℤ
  pub kill_previous : Bool
  pub max_runs : ℤ
  pub run_count : ℤ
  pub run_seq : ℤ
  pub tags : Text
  pub log_retention_days : ℤ
  pub log_max_entries : ℤ
  pub reboot_delay : ℤ
  pub cron_base_time : Text
  pub env_vars : List (Text × Text)
  pub cwd : Text

-- An entry of the task logs, as `cronplus logs --json --no-output` lists it.
pub record LogEntry : Type 0 where
  pub task_id : ℕ
  pub title : Text
  pub command : Text
  pub run_user : Text
  pub trigger : Text
  pub status : Text
  pub created_at : Text

-- `enabled !== false`
abbrev pub is_enabled : Task → Bool
is_enabled t = elim t.enabled [ none ↦ true | some b ↦ b ]

-- `n || d`, on a number
abbrev pub num_or : ℤ → ℤ → ℤ
num_or (pos n) d = if n == 0 then d else pos n
num_or n d = n

-- `parseInt(s) || d`
unfoldable pub int_or : Text → ℤ → ℤ
int_or s d = elim (parse_int s) [ none ↦ d | some n ↦ num_or n d ]

pub num_or-zero : (n : ℤ) → num_or n (pos 0) ≡ n
num_or-zero n = ground arith

pub num_or-full : (n d : ℤ) → n ≢ pos 0 → num_or n d ≡ n
num_or-full n d h = ground arith

pub is_enabled_given : (t : Task) → t.enabled ≢ none → some (is_enabled t) ≡ t.enabled
is_enabled_given t h = elim (Option-cases t.enabled) [
  | inl e ↦ absurd (h e)
  | inr (b, e) ↦ rw e refl
]
