-- ===== src/Proxy/Listen.antt =====
-- src/proxy/tcp.rs: `bind_listener`, what a failed bind is reported as. The address and the port that the messages
-- interpolate are left out; what the system answers is an argument.
use Prim.Native.String.{len}
use cf_warp_rust.Base.{
  ltb, if◌then◌else◌, Bool-cases, Error, io, other, Outcome, err, ok, ℕ, ◌<◌, ◌≡◌, refl, ap, ◌↔◌,
  inl, inr, arith,
}
use cf_warp_rust.Net.{SocketAddr}

-- `std::io::ErrorKind`.
pub data BindAnswer : Type 0 where
  bound addr_in_use permission_denied other_kind : BindAnswer

abbrev port_is_privileged : Error
port_is_privileged =
    other
      "SOCKS5 无法绑定：权限不足。端口 < 1024 属特权端口，warp-rust 以非 root 用户运行、无 CAP_NET_BIND_SERVICE，无权绑定。请把 [server].bind 改到 >=1024 的端口（如 127.0.0.1:11080）。"

abbrev policy_denies : Error
policy_denies =
    other
      "SOCKS5 无法绑定：权限不足。端口 >=1024 却仍被拒，通常是 SELinux/AppArmor/seccomp 或 systemd 沙箱（如 RestrictAddressFamilies/IPAddressDeny）在拦截，请检查这些策略。"

abbrev port_is_taken : Error
port_is_taken =
    other
      "SOCKS5 无法绑定：端口已被占用。另一个进程正在监听该端口（本机若在跑 V2bX/Xray/sing-box 等代理，很可能就是它占用了）。排查：`ss -tlnp 'sport = :'` 或 `lsof -iTCP: -sTCP:LISTEN`。修复：把 config.toml 里 [server].bind 改到一个空闲且 >=1024 的端口（如 127.0.0.1:11080）再重启，或停掉占用该端口的进程。"

unfoldable pub bind_listener : BindAnswer → SocketAddr → Outcome (Unit {0})
bind_listener bound addr = ok tt
bind_listener addr_in_use addr = err port_is_taken
bind_listener permission_denied addr =
    if ltb addr.port 1024 then err port_is_privileged else err policy_denies
bind_listener other_kind addr = err io

abbrev message_length : Outcome (Unit {0}) → ℕ
message_length (err (other m)) = len m
message_length o = 0

policy_denies-apart : Path (Outcome (Unit {0})) (err policy_denies) (err port_is_privileged) → ⊥
policy_denies-apart e = let lengths = ap message_length e in omega (arith, lengths)

port_is_taken-apart : Path (Outcome (Unit {0})) (err port_is_taken) (err port_is_privileged) → ⊥
port_is_taken-apart e = let lengths = ap message_length e in omega (arith, lengths)

-- A privileged port is blamed exactly where the system denied the permission and the port is below 1024.
pub bind_listener_privileged_iff :
    (answer : BindAnswer) (addr : SocketAddr)
    → (bind_listener answer addr ≡ err port_is_privileged)
      ↔ ((answer ≡ permission_denied) × (addr.port < 1024))
unfolding bind_listener
bind_listener_privileged_iff bound addr = (λ e. cc e, λ p. cc (p.0))
bind_listener_privileged_iff addr_in_use addr = (λ e. absurd (port_is_taken-apart e), λ p. cc (p.0))
bind_listener_privileged_iff permission_denied addr = elim (Bool-cases (ltb addr.port 1024)) [
  | inl low ↦ rw low (λ e. (refl, ground (arith, low)), λ p. refl)
  | inr high ↦ rw high (λ e. absurd (policy_denies-apart e), λ p. ground (arith, high, p.1))
]
bind_listener_privileged_iff other_kind addr = (λ e. cc e, λ p. cc (p.0))
