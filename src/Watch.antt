-- ===== src/Watch.antt =====
-- src/config_watch.rs: the loop that checks a changed configuration file. The notifications are a list with the time
-- at which each arrives, in order; the loop takes one when it is free. Reading and validating the file take no
-- time; what they come to is only logged, and left out. The queue of 128 places is taken to have room.
pub mod Checks
mod Tests
use cf_warp_rust.Base.{
  ltb, if◌then◌else◌, from_millis, ℕ, ◌+◌, ◌-◌, max, Bool, true, false, not, ◌&&◌, Option, none,
  some, List, [], ◌∷◌,
}

-- `EventKind` of the crate notify.
pub data EventKind : Type 0 where
  access modify create remove unknown : EventKind

-- A notification, or an error of the watcher.
pub data Notification : Type 0 where
  event : Bool → EventKind → Notification
  broken : Notification

abbrev pub debounce : ℕ
debounce = from_millis 250

abbrev pub pause : ℕ
pause = from_millis 100

-- When a change was taken up last, and until when the loop sleeps.
pub record Watch : Type 0 where
  pub last_kicked : ℕ
  pub free_at : ℕ

-- `start` is a time of the monotonic clock, which has run for longer than `debounce`.
abbrev pub new_watch : ℕ → Watch
new_watch start = record { last_kicked = start - debounce; free_at = start }

abbrev pub is_write : EventKind → Bool
is_write access = false
is_write modify = true
is_write create = true
is_write remove = true
is_write unknown = false

-- `target_changed && is_write`.
abbrev pub is_change : Notification → Bool
is_change (event target_changed kind) = target_changed && is_write kind
is_change broken = false

-- One notification at the time `now`: when the file is checked, if it is.
unfoldable pub take_up : ℕ → Notification → Watch → Option ℕ × Watch
take_up now n w =
    if not (is_change n)
    then (none, record w { free_at = now })
    else if ltb (now - w.last_kicked) debounce
    then (none, record w { free_at = now })
    else (some (now + pause), record { last_kicked = now; free_at = now + pause })

abbrev pub with_check : Option ℕ → List ℕ → List ℕ
with_check none ts = ts
with_check (some t) ts = t ∷ ts

-- The loop: the times at which it reads the file.
unfoldable pub checks : List (ℕ × Notification) → Watch → List ℕ
checks [] w = []
checks (x ∷ xs) w = let (t, v) = take_up (max x.0 w.free_at) x.1 w in with_check t (checks xs v)
