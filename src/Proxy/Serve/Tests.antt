-- ===== src/Proxy/Serve/Tests.antt =====
-- src/proxy/tcp.rs: a few clients of a server.
use cf_warp_rust.Base.{length, ◌+◌, ◌<◌, ◌≡◌, ◌↔◌, true, false, none, ◌++◌, List, [], ◌∷◌}
use cf_warp_rust.Config.{LimitsConfig, default_limits}
use cf_warp_rust.Egress.{new_stats}
use cf_warp_rust.Proxy.Handle.{tcp_connect}
use cf_warp_rust.Proxy.Serve.{new_service, serve, ServiceEvent, accepted, commanded}
use cf_warp_rust.Proxy.Serve.Totals.{holds_permit, tally}
use cf_warp_rust.Proxy.Serve.Permits.{Balanced, serve-Balanced}
use cf_warp_rust.Proxy.Serve.Limits.{accept_iff}

abbrev small : LimitsConfig
small = record (default_limits none) { max_concurrent_connections = 2; max_pending_dials = 1 }

-- Three clients come, two are served, both ask for a connection, and only one may dial.
abbrev rush : List ServiceEvent
rush =
    accepted 1
    ∷ accepted 2
    ∷ accepted 3
    ∷ commanded 0 true tcp_connect
    ∷ commanded 1 true tcp_connect
    ∷ []

serve-Balanced_example : Balanced 2 1 (serve rush (new_service small new_stats))
serve-Balanced_example = serve-Balanced small new_stats rush

accept_iff_example :
    (length (serve (rush ++ accepted 9 ∷ []) (new_service small new_stats)).connections
      ≡ length (serve rush (new_service small new_stats)).connections + 1)
    ↔ (((serve rush (new_service small new_stats)).is_stopped ≡ false)
        × (tally holds_permit (serve rush (new_service small new_stats)).connections < 2))
accept_iff_example = accept_iff small new_stats rush 9
