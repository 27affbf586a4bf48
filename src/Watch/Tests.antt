-- ===== src/Watch/Tests.antt =====
-- src/config_watch.rs: an editor that writes a file twice.
use cf_warp_rust.Base.{secs, from_millis, ◌+◌, ◌≡◌, refl, true, [], ◌∷◌, arith}
use cf_warp_rust.Watch.{modify, create, event, pause, new_watch, checks}
use cf_warp_rust.Watch.Checks.{last_change_missed}

last_change_missed_example :
    checks
      ((secs 2, event true create) ∷ (secs 2 + from_millis 200, event true modify) ∷ [])
      (new_watch (secs 1))
    ≡ (secs 2 + pause) ∷ []
last_change_missed_example =
    last_change_missed (secs 1) (secs 2) (secs 2 + from_millis 200) (event true create)
      (event true modify) (omega arith) (omega arith) (omega arith) (omega arith) refl refl
