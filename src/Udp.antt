-- ===== src/Udp.antt =====
-- src/utils/network/UdpComm.h and UdpComm.cpp, the build without WIN32. The socket remembers what the system
-- granted; the answers of the system are arguments, and so are the conversions of the C library.
-- A text is its list of codes, an IPv4 address a number in host order.
pub mod Multicast
pub mod Host
mod Tests
use mundosvirtuales_terremot.Base.{
  ℕ, zero, suc, ◌+◌, ◌-◌, ◌*◌, ◌/◌, ◌%◌, ◌^◌, Bool, true, false, not, ◌&&◌, ◌||◌, List, [], ◌∷◌,
  ◌++◌, Option, none, some, if◌then◌else◌, ltb, leb, ◌==◌, length,
}
use mundosvirtuales_terremot.Base.Int.{ℤ, pos, negsuc, leb_ℤ, ltb_ℤ}
use mundosvirtuales_terremot.Server.{◌==ℤ◌}

-- sockaddr_in
pub record Address : Type 0 where
  pub addr : ℕ
  pub port : ℕ

-- What a successful call of the system sets on the socket.
pub data Setting : Type 0 where
  blocking : Bool → Setting
  ttl : ℕ → Setting
  loopback : Bool → Setting
  member : ℕ → ℕ → Setting
  broadcast : Bool → Setting
  receive_buffer : ℕ → Setting
  reuse_address : Setting
  reuse_port : Setting
  bound : Address → Setting

-- m_target and the settings of m_sock.
pub record UdpComm : Type 0 where
  pub target : Address
  pub settings : List Setting

-- A call that the system grants or not.
abbrev pub grant : UdpComm → Setting → Bool → UdpComm
grant u setting granted = if granted then record u { settings = u.settings ++ setting ∷ [] } else u

-- `resolve`, with the result of `inet_pton`; the address is cleared before.
abbrev pub resolve : Option ℕ → ℕ → Address × Bool
resolve none port = (record { addr = 0; port = port % 2 ^ 16 }, false)
resolve (some addr) port = (record { addr = addr; port = port % 2 ^ 16 }, true)

unfoldable pub set_target : UdpComm → Option ℕ → ℕ → UdpComm × Bool
set_target u parsed port =
    let (target, ok) = resolve parsed port in (record u { target = target }, ok)

-- `fcntl` with F_SETFL
unfoldable pub set_blocking : UdpComm → Bool → Bool → UdpComm × Bool
set_blocking u block granted = (grant u (blocking block) granted, granted)

unfoldable pub set_ttl : UdpComm → ℕ → Bool → UdpComm × Bool
set_ttl u n granted = (grant u (ttl n) granted, granted)

unfoldable pub set_loopback : UdpComm → Bool → Bool → UdpComm × Bool
set_loopback u yesno granted = (grant u (loopback yesno) granted, granted)

unfoldable pub set_broadcast : UdpComm → Bool → Bool → UdpComm × Bool
set_broadcast u enable granted = (grant u (broadcast enable) granted, granted)

-- `setRcvBufSize`: the first test takes success for failure. `readable` is whether `getsockopt` succeeds.
unfoldable pub set_rcv_buf_size : UdpComm → ℕ → Bool → Bool → UdpComm × Bool
set_rcv_buf_size u size granted readable =
    let after = grant u (receive_buffer (size % 2 ^ 32)) granted in
    if granted then (after, false) else (after, readable)

-- IN_MULTICAST
abbrev pub is_multicast : ℕ → Bool
is_multicast addr = addr / 2 ^ 28 == 14

-- The loop of `joinMulticast` over the addresses of the interfaces; `accepts` tells for which the system
-- grants the membership.
unfoldable pub join_interfaces : ℕ → (ℕ → Bool) → List ℕ → UdpComm → UdpComm × Bool
join_interfaces group accepts [] u = (u, false)
join_interfaces group accepts (i ∷ is) u =
    let (after, could_join) =
      join_interfaces group accepts is (grant u (member group i) (accepts i)) in
    (after, accepts i || could_join)

-- `joinMulticast`; `interfaces` is `none` when the `ioctl` fails.
unfoldable pub join_multicast : UdpComm → Option ℕ → Option (List ℕ) → (ℕ → Bool) → UdpComm × Bool
unfolding join_interfaces
join_multicast u none interfaces accepts = (u, false)
join_multicast u (some group) none accepts = (u, false)
join_multicast u (some group) (some is) accepts =
    if is_multicast group then join_interfaces group accepts is u else (u, false)

-- `bind`: the result of `inet_pton`, and which of the three calls of the system are granted.
unfoldable pub bind : UdpComm → Option ℕ → ℕ → Bool → Bool → Bool → UdpComm × Bool
bind u none port reuse share granted = (u, false)
bind u (some addr) port reuse share granted =
    let shared = grant (grant u reuse_address reuse) reuse_port share in
    (grant shared (bound (record { addr = addr; port = port % 2 ^ 16 })) granted, granted)

-- A datagram as `recvfrom` reports it: its result and the sender.
pub record Datagram : Type 0 where
  pub result : ℤ
  pub sender : ℕ

-- `read` with the sender: the result and `ip` after it.
unfoldable pub read_from : Datagram → ℕ → ℤ × ℕ
read_from d ip = if leb_ℤ d.result (pos 0) then (d.result, ip) else (d.result, d.sender)

-- An entry of `getifaddrs`; `address` is `none` without an IPv4 address.
pub record Interface : Type 0 where
  pub name : List ℕ
  pub multicast : Bool
  pub address : Option ℕ

-- The tests of the loop of `readLocal`.
abbrev pub is_sender : ℕ → Interface → Bool
is_sender sender i = i.multicast && elim (i.address) [ none ↦ false | some a ↦ a == sender ]

abbrev pub found : ℕ → List Interface → Bool
found sender [] = false
found sender (i ∷ is) = if is_sender sender i then true else found sender is

-- `readLocal`; `none` is a `getifaddrs` that fails.
unfoldable pub read_local : Datagram → Option (List Interface) → ℤ
read_local d interfaces = if leb_ℤ d.result (pos 0) then d.result else elim interfaces [
  | none ↦ negsuc 0
  | some is ↦ if found d.sender is then d.result else negsuc 0
]

-- `write`: `answer` is the result of `sendto`.
unfoldable pub write : List ℕ → ℤ → Bool
write bytes answer = answer ==ℤ pos (length bytes)
