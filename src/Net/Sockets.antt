-- ===== src/Net/Sockets.antt =====
-- net/src/socket.cpp and net/include/socket.h: what the wrappers make of the results of the system, and
-- the addresses. `none` is LOG_FATAL, which ends the process (net/include/enum.h). inet_ntop, inet_pton and
-- the text that snprintf makes of a number are arguments.
pub mod Address
use Prim.Native.String.{String, ◌++◌}
use qinyunserver.Base.{
  ℕ, ◌+◌, ◌*◌, ◌/◌, ◌%◌, Bool, true, false, Option, none, some, ltb, if◌then◌else◌,
}

-- The values of errno that the wrappers and their callers name.
pub data Errno : Type 0 where
  eagain econnaborted eintr eproto eperm emfile ebadf efault einval enfile enobufs enotsock : Errno
  eopnotsupp eisconn einprogress eaddrinuse eaddrnotavail econnrefused enetunreach etimedout : Errno
  eacces eprototype ealready eafnosupport another : Errno

-- What a call of the system returns: a descriptor or 0, or -1 with errno.
pub data Result : Type 0 where
  returned : ℕ → Result
  failed : Errno → Result

-- `accept`: which errors it gives back.
unfoldable pub passes_on : Errno → Bool
passes_on eagain = true
passes_on econnaborted = true
passes_on eintr = true
passes_on eproto = true
passes_on eperm = true
passes_on emfile = true
passes_on _ = false

unfoldable pub accept : Result → Option Result
unfolding passes_on
accept (returned fd) = some (returned fd)
accept (failed errno) = if passes_on errno then some (failed errno) else none

unfoldable pub connect : Result → Option Result
connect (returned n) = some (returned n)
connect (failed errno) = none

-- `createNoblockSocket` and `createBlockSocket`, `bind` and `listen`
unfoldable pub or_fatal : Result → Option ℕ
or_fatal (returned n) = some n
or_fatal (failed errno) = none

-- struct sockaddr_in: the address as a number, and the port in the order of the network.
pub record SockAddr : Type 0 where
  pub sin_addr : ℕ
  pub sin_port : ℕ

-- htons and ntohs on a machine that puts the low byte first.
abbrev pub swap_bytes : ℕ → ℕ
swap_bytes port = port % 256 * 256 + port / 256

-- `InetAddress(port)`, with INADDR_ANY.
unfoldable pub any_address : ℕ → SockAddr
any_address port = record { sin_addr = 0; sin_port = swap_bytes port }

-- `fromIpPort`: an address that inet_pton does not read stays 0.
unfoldable pub from_ip_port : (String → Option ℕ) → String → ℕ → SockAddr
from_ip_port inet_pton ip port = elim (inet_pton ip) [
  | none ↦ record { sin_addr = 0; sin_port = swap_bytes port }
  | some address ↦ record { sin_addr = address; sin_port = swap_bytes port }
]

-- `toIpPort`
unfoldable pub to_ip_port : (ℕ → String) → (ℕ → String) → SockAddr → String
to_ip_port inet_ntop show a = inet_ntop a.sin_addr ++ show (swap_bytes a.sin_port)
