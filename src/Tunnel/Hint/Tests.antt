-- ===== src/Tunnel/Hint/Tests.antt =====
-- src/tunnel.rs: a race that failed on a host without IPv6 and behind a firewall.
use Prim.Native.String.{String, find}
use cf_warp_rust.Base.{
  contains, push_new, ◌==◌, if◌then◌else◌, ℕ, ◌≡◌, refl, Option, none, some, List, [], ◌∷◌,
}
use cf_warp_rust.Net.{v4, v6, SocketAddr}
use cf_warp_rust.Tunnel.Hint.{
  ErrorKind, network_unreachable, other_kind, after_last, up_to_paren, os_errno, Failure, iptables,
  all_not_permitted, collect_ips, is_address_family_unavailable, relevant, firewall_hint,
}
use cf_warp_rust.Tunnel.Hint.Verdict.{IsHint, firewall_hint-IsHint}

abbrev read_101 : String → Option ℕ
read_101 s = if find s "101" == 0 then some 101 else none

abbrev linux_kind : ℕ → ErrorKind
linux_kind n = if n == 101 then network_unreachable else other_kind

abbrev peer_v4 : SocketAddr
peer_v4 = record { ip = v4 162 159 192 1; port = 2408 }

abbrev peer_v6 : SocketAddr
peer_v6 = record { ip = v6 (0x26 ∷ 0x06 ∷ []); port = 2408 }

abbrev failures : List Failure
failures =
    (peer_v6, "send failed (os error 101)") ∷ (peer_v4, "Operation not permitted (os error 1)") ∷ []

errno_read : os_errno read_101 "a (os error 7) b (os error 101)" ≡ some 101
unfolding os_errno after_last up_to_paren
errno_read = refl

hinted : firewall_hint read_101 linux_kind failures ≡ some ((iptables, v4 162 159 192 1) ∷ [])
unfolding firewall_hint relevant is_address_family_unavailable os_errno after_last up_to_paren
    all_not_permitted collect_ips push_new contains
hinted = refl

firewall_hint-IsHint_example :
    IsHint read_101 linux_kind failures (firewall_hint read_101 linux_kind failures)
firewall_hint-IsHint_example = firewall_hint-IsHint read_101 linux_kind failures
