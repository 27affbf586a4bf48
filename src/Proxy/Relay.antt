-- ===== src/Proxy/Relay.antt =====
-- src/proxy/tcp.rs: the relay of bytes behind a successful reply, `relay_with_idle_timeout` and `coordinate_relay`:
-- two tasks, one for each direction, the idle watcher, and the coordinator that waits for the tasks. A step is what
-- one of them does between two points where another can come in between. What a socket reads and how far a write
-- gets are choices of the step. An abort takes effect at once, since every task stands at an `await` then.
pub mod Moves
pub mod Bytes
pub mod Idle
pub mod Ending
pub mod Return
mod Tests
use cf_warp_rust.Base.{if◌then◌else◌, length, ℕ, ◌+◌, ◌%◌, ◌^◌, Bool, true, false, List, [], ◌++◌}

pub data Side : Type 0 where
  up down : Side

abbrev pub other_side : Side → Side
other_side up = down
other_side down = up

-- A task reads; writes a chunk of so many bytes of which some are left; has left its loop; has shut the half that it
-- writes to; is over; or it was aborted or has panicked.
pub data Phase : Type 0 where
  reading : Phase
  writing : ℕ → List ℕ → Phase
  stopping leaving ended gone : Phase

-- `received` and `delivered` are the bytes that the sockets gave and took, in their order, and `bytes` is the atomic
-- counter.
pub record Half : Type 0 where
  pub phase : Phase
  pub received : List ℕ
  pub delivered : List ℕ
  pub bytes : ℕ
  pub is_shut : Bool

pub data Coordinator : Type 0 where
  waiting : Coordinator
  draining : Side → ℕ → Coordinator
  joined stopped dropped : Coordinator
  returned : ℕ → ℕ → Coordinator

pub record Watcher : Type 0 where
  pub deadline : ℕ
  -- The permit that `notify_one` leaves.
  pub notified : Bool
  pub watches : Bool

-- `last_activity` is when a chunk was written out last.
pub record Relay : Type 0 where
  pub half : Side → Half
  pub cancelled : Bool
  pub watcher : Watcher
  pub coordinator : Coordinator
  pub now : ℕ
  pub last_activity : ℕ

-- The JoinHandle is ready.
abbrev pub is_over : Phase → Bool
is_over reading = false
is_over (writing n rest) = false
is_over stopping = false
is_over leaving = false
is_over ended = true
is_over gone = true

abbrev pub put : Side → Half → (Side → Half) → Side → Half
put up h f up = h
put up h f down = f down
put down h f up = f up
put down h f down = h

abbrev pub new_half : Half
new_half = record { phase = reading; received = []; delivered = []; bytes = 0; is_shut = false }

unfoldable pub new_relay : ℕ → ℕ → Relay
new_relay idle now = record {
  half = λ d. new_half;
  cancelled = false;
  watcher = record { deadline = now + idle; notified = false; watches = true };
  coordinator = waiting;
  now = now;
  last_activity = now;
}

unfoldable pub go : Phase → Half → Half
go p h = record h { phase = p }

unfoldable pub abort : Half → Half
unfolding go
abort h = if is_over h.phase then h else go gone h

unfoldable pub put_half : Side → Half → Relay → Relay
put_half d h r = record r { half = put d h r.half }

-- A read of a chunk, and a write of some more of its bytes.
unfoldable pub take_in : List ℕ → Half → Half
take_in chunk h = record h { phase = writing (length chunk) chunk; received = h.received ++ chunk }

unfoldable pub write_out : ℕ → List ℕ → List ℕ → Half → Half
write_out n some_bytes rest h = record h {
  phase = writing n rest;
  delivered = h.delivered ++ some_bytes;
}

-- The end of `write_all`: `fetch_add` and `notify_one`.
unfoldable pub count_chunk : ℕ → Half → Half
count_chunk n h = record h { phase = reading; bytes = (h.bytes + n) % 2 ^ 64 }

unfoldable pub finish_chunk : Side → ℕ → Relay → Relay
finish_chunk d n r = record r {
  half = put d (count_chunk n (r.half d)) r.half;
  watcher = record { deadline = r.watcher.deadline; notified = true; watches = r.watcher.watches };
  last_activity = r.now;
}

unfoldable pub shut_down : Half → Half
shut_down h = record h { phase = leaving; is_shut = true }

-- The end of a task: it cancels the token of both.
unfoldable pub leave : Side → Relay → Relay
unfolding go
leave d r = record r { half = put d (go ended (r.half d)) r.half; cancelled = true }

unfoldable pub notice : ℕ → Relay → Relay
notice idle r = record r {
  watcher = record { deadline = r.now + idle; notified = false; watches = r.watcher.watches };
}

unfoldable pub stop_watching : Relay → Relay
stop_watching r = record r {
  watcher = record {
    deadline = r.watcher.deadline;
    notified = r.watcher.notified;
    watches = false;
  };
}

unfoldable pub fire : Relay → Relay
unfolding stop_watching
fire r = record (stop_watching r) { cancelled = true }

unfoldable pub coordinate : Coordinator → Relay → Relay
coordinate c r = record r { coordinator = c }

-- The drop of `relay_with_idle_timeout` before its end: all handles abort their tasks.
unfoldable pub drop_relay : Relay → Relay
unfolding stop_watching abort
drop_relay r = record (stop_watching r) { half = λ d. abort (r.half d); coordinator = dropped }

-- Time passes.
unfoldable pub elapse : ℕ → Relay → Relay
elapse n r = record r { now = r.now + n }
