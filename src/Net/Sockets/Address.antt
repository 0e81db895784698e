-- ===== src/Net/Sockets/Address.antt =====
-- The texts of the addresses of net/src/socket.cpp.
use Prim.Native.String.{String, ◌++◌}
use qinyunserver.Base.{ℕ, ◌<◌, ◌≡◌, Option, some, ap, arith}
use qinyunserver.Net.Sockets.{swap_bytes, from_ip_port, to_ip_port}

swap_bytes-swap_bytes : (port : ℕ) → port < 65536 → swap_bytes (swap_bytes port) ≡ port
swap_bytes-swap_bytes port h = omega arith

-- The text that `toIpPort` makes of an address that `fromIpPort` has read: the address as it was given,
-- where inet_ntop writes what inet_pton reads, and behind it, with nothing between them, the port as it
-- was given.
pub to_ip_port-from_ip_port :
    (inet_pton : String → Option ℕ) (inet_ntop show : ℕ → String) (ip : String) (port address : ℕ)
    → inet_pton ip ≡ some address
    → inet_ntop address ≡ ip
    → port < 65536
    → to_ip_port inet_ntop show (from_ip_port inet_pton ip port) ≡ ip ++ show port
unfolding to_ip_port from_ip_port
to_ip_port-from_ip_port inet_pton inet_ntop show ip port address reads writes small =
    rw (to_ip_port, from_ip_port, reads, swap_bytes-swap_bytes port small)
      (ap (λ s. s ++ show port) writes)
