-- ===== src/Tests/Sockets.antt =====
-- Runs of the wrappers of net/src/socket.cpp and of the client of net/src/tcpclient.cpp.
use Prim.Native.String.{String, ◌++◌}
use qinyunserver.Base.{ℕ, ◌≡◌, refl, Option, some, arith}
use qinyunserver.Net.Sockets.{from_ip_port, to_ip_port}
use qinyunserver.Net.Sockets.Address.{to_ip_port-from_ip_port}
use qinyunserver.Business.Text.{to_string}

abbrev reads_loopback : String → Option ℕ
reads_loopback ip = some 16777343

to_ip_port-from_ip_port_example :
    to_ip_port (λ a. "127.0.0.1") to_string (from_ip_port reads_loopback "127.0.0.1" 9000)
    ≡ "127.0.0.1" ++ to_string 9000
to_ip_port-from_ip_port_example =
    to_ip_port-from_ip_port reads_loopback (λ a. "127.0.0.1") to_string "127.0.0.1" 9000 16777343
      refl refl (omega arith)

-- The port runs into the address.
to_ip_port_test :
    to_ip_port (λ a. "127.0.0.1") to_string (from_ip_port reads_loopback "127.0.0.1" 9000)
    ≡ "127.0.0.19000"
unfolding to_ip_port from_ip_port to_string
to_ip_port_test = refl
