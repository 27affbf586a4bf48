-- ===== src/Tunnel/Hint.antt =====
-- src/tunnel.rs: the hint that a failed race of endpoints gives, `firewall_hint`. The number of an error is read from
-- its text; `parse`, std's reading of a number without the spaces around it, and `kind_of`, std's kind of a
-- number, are arguments. A hint is a row of addresses with the tool that lets their packets through; its words are left
-- out.
pub mod Verdict
mod Tests
use Prim.Native.String.{String, find, len, slice}
use cf_warp_rust.Base.{
  push_new, leb, ◌==◌, if◌then◌else◌, Bool, true, false, not, ◌&&◌, ◌||◌, Option, none, some, List,
  [], ◌∷◌, map,
}
use cf_warp_rust.Net.{IpAddr, ip_eq, SocketAddr, is_ipv4}

pub data ErrorKind : Type 0 where
  network_unreachable host_unreachable network_down addr_not_available other_kind : ErrorKind

-- `failure.contains(text)`.
abbrev pub contains_text : String → String → Bool
contains_text failure text = leb (find failure text) (len failure)

-- What follows the last occurrence of a marker.
unfoldable pub after_last : String → String → Option String
after_last marker Prim.Native.String.[] = none
after_last marker (Prim.Native.String.◌∷◌ c s) = elim (after_last marker s) [
  | some rest ↦ some rest
  | none ↦
      let here = Prim.Native.String.◌∷◌ c s in
      if find here marker == 0 then some (slice here (len marker) (len here)) else none
]

-- `rest[..rest.find(')')?]`.
unfoldable pub up_to_paren : String → Option String
up_to_paren rest =
    if leb (find rest ")") (len rest) then some (slice rest 0 (find rest ")")) else none

unfoldable pub os_errno {ℓ} : {Errno : Type ℓ} → (String → Option Errno) → String → Option Errno
os_errno parse failure = elim (after_last "(os error " failure) [
  | none ↦ none
  | some rest ↦ elim (up_to_paren rest) [ none ↦ none | some number ↦ parse number ]
]

abbrev pub is_unavailable_kind : ErrorKind → Bool
is_unavailable_kind network_unreachable = true
is_unavailable_kind host_unreachable = true
is_unavailable_kind network_down = true
is_unavailable_kind addr_not_available = true
is_unavailable_kind other_kind = false

abbrev pub unavailable_texts : List String
unavailable_texts =
    "family not supported" ∷ "Network is unreachable" ∷ "No route to host" ∷ "Network is down"
    ∷ "Cannot assign requested address" ∷ "Can't assign requested address" ∷ []

abbrev pub any_text : String → List String → Bool
any_text failure [] = false
any_text failure (t ∷ ts) = contains_text failure t || any_text failure ts

abbrev pub of_kind {ℓ} : {Errno : Type ℓ} → (Errno → ErrorKind) → Option Errno → Bool
of_kind kind_of none = false
of_kind kind_of (some errno) = is_unavailable_kind (kind_of errno)

-- An attempt that failed: the endpoint and the text of the error.
abbrev pub Failure : Type 0
Failure = SocketAddr × String

pub data Tool : Type 0 where
  iptables ip6tables : Tool

abbrev pub tool_for : IpAddr → Tool
tool_for ip = if is_ipv4 ip then iptables else ip6tables

abbrev pub is_not_permitted : String → Bool
is_not_permitted failure = contains_text failure "Operation not permitted"

unfoldable pub all_not_permitted : List Failure → Bool
all_not_permitted [] = true
all_not_permitted (f ∷ fs) = is_not_permitted f.1 && all_not_permitted fs

-- The loop that collects the addresses.
unfoldable pub collect_ips : List Failure → List IpAddr → List IpAddr
collect_ips [] ips = ips
collect_ips (f ∷ fs) ips = collect_ips fs (push_new ip_eq f.0.ip ips)

abbrev pub rule_for : IpAddr → Tool × IpAddr
rule_for ip = (tool_for ip, ip)

abbrev pub is_empty : List Failure → Bool
is_empty [] = true
is_empty (f ∷ fs) = false

module _ {ℓ} {Errno : Type ℓ} (parse : String → Option Errno) (kind_of : Errno → ErrorKind) where
  unfoldable pub is_address_family_unavailable : String → Bool
  is_address_family_unavailable failure =
      if of_kind kind_of (os_errno parse failure) then true else any_text failure unavailable_texts

  unfoldable pub relevant : List Failure → List Failure
  relevant [] = []
  relevant (f ∷ fs) = if is_address_family_unavailable f.1 then relevant fs else f ∷ relevant fs

  unfoldable pub firewall_hint : List Failure → Option (List (Tool × IpAddr))
  firewall_hint failures =
      let fs = relevant failures in
      if is_empty fs || not (all_not_permitted fs)
      then none
      else some (map rule_for (collect_ips fs []))
