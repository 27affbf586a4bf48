-- ===== src/Proxy/Relay/Tests.antt =====
-- src/proxy/tcp.rs: a relay whose client closes its half, and whose other task hangs.
use cf_warp_rust.Base.{◌+◌, ◌≡◌, refl, true, false, [], ◌∷◌, arith}
use cf_warp_rust.Proxy.Relay.{
  up, down, stopping, draining, joined, stopped, returned, Relay, new_relay, go, abort, put_half,
  take_in, write_out, count_chunk, finish_chunk, shut_down, leave, stop_watching, fire, coordinate,
  elapse,
}
use cf_warp_rust.Proxy.Relay.Moves.{
  Step, reads, reads_end, writes, finishes_chunk, shuts_down, leaves, fires, stops_watching,
  up_ends, aborts, cancels, returns, elapses, Reach, start, later,
}
use cf_warp_rust.Proxy.Relay.Bytes.{relay-Delivers, Delivers}
use cf_warp_rust.Proxy.Relay.Ending.{IsReaped, returned-IsReaped}
use cf_warp_rust.Proxy.Relay.Return.{relay_returns, Returns}

abbrev started : Relay
started = new_relay 10 0

abbrev has_read : Relay
has_read = put_half up (take_in (7 ∷ 8 ∷ []) (started.half up)) started

abbrev has_written : Relay
has_written = put_half up (write_out 2 (7 ∷ 8 ∷ []) [] (has_read.half up)) has_read

has_written-Reach : Reach 10 5 4 has_written
unfolding new_relay put_half take_in write_out
has_written-Reach =
    later (later (start 0) (reads up 7 (8 ∷ []) refl refl (omega arith)))
      (writes up 2 (7 ∷ 8 ∷ []) [] refl)

relay-Delivers_example :
    Delivers 4
      (has_written.half up).received
      (has_written.half up).delivered
      (has_written.half up).bytes
relay-Delivers_example = relay-Delivers 4 10 5 has_written-Reach up

abbrev idled : Relay
idled = elapse 10 started

fires_late : Step 10 5 4 idled (fire idled)
unfolding new_relay elapse
fires_late = fires refl refl refl (omega arith)

not_cut : idled.cancelled ≡ false
unfolding new_relay elapse
not_cut = refl

cut : (fire idled).cancelled ≡ true
unfolding fire
cut = refl

abbrev counted : Relay
counted = finish_chunk up 2 has_written

abbrev at_eof : Relay
at_eof = put_half up (go stopping (counted.half up)) counted

abbrev closed_up : Relay
closed_up = leave up (put_half up (shut_down (at_eof.half up)) at_eof)

closed_up-Reach : Reach 10 5 4 closed_up
unfolding new_relay put_half take_in write_out count_chunk finish_chunk go shut_down leave
closed_up-Reach =
    later
      (later (later (later has_written-Reach (finishes_chunk up 2 refl)) (reads_end up refl refl))
        (shuts_down up refl))
      (leaves up refl)

relay_returns_example : Returns 10 5 4 closed_up (closed_up.now + 5)
unfolding new_relay put_half take_in write_out count_chunk finish_chunk go shut_down leave
relay_returns_example = relay_returns 10 5 4 closed_up down refl refl refl

abbrev late : Relay
late = elapse 5 (coordinate (draining down 5) closed_up)

abbrev ended_relay : Relay
ended_relay =
    stop_watching
      (record (coordinate stopped
        (coordinate joined (put_half down (abort (late.half down)) late))) { cancelled = true })

abbrev back : Relay
back = coordinate (returned 2 0) ended_relay

back-Reach : Reach 10 5 4 back
unfolding new_relay put_half take_in write_out count_chunk finish_chunk go shut_down leave
    coordinate elapse abort stop_watching
back-Reach =
    later
      (later
        (later
          (later (later (later closed_up-Reach (up_ends refl refl)) (elapses 5))
            (aborts down 5 refl refl (omega arith)))
          (cancels refl))
        (stops_watching refl refl))
      (returns refl refl)

returned-IsReaped_example :
    IsReaped 10 5 4 back × (2 ≡ (back.half up).bytes) × (0 ≡ (back.half down).bytes)
unfolding coordinate
returned-IsReaped_example = returned-IsReaped 10 5 4 2 0 back-Reach refl
