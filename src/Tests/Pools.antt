-- ===== src/Tests/Pools.antt =====
-- The theorems on the pool of loops and on the map of connections at a small server.
use qinyunserver.Base.{ℕ, ◌+◌, ◌%◌, ◌≡◌, refl, inr, some, List, [], ◌∷◌, length, get_elem?, arith}
use qinyunserver.Net.Pool.{
  Pool, TcpServer, get_next_loop, new_pool, set_thread_num, start, start_loops,
}
use qinyunserver.Net.Pool.RoundRobin.{after_calls, get_next_loop-after_calls}
use qinyunserver.Net.Pool.Connections.{IsValid, Event, comes, leaves, run, run-IsValid}

abbrev three_loops : Pool
three_loops = record { base_loop = 9; thread_num = 3; loops = 10 ∷ 11 ∷ 12 ∷ []; next_idx = 0 }

start_test : start (λ i. 10 + i) (set_thread_num 3 (new_pool 9)) ≡ three_loops
unfolding start start_loops
start_test = refl

get_next_loop-after_calls_example :
    (p₁ p₂ : Pool) × (l : ℕ) × (after_calls 4 three_loops ≡ some p₁)
    × (get_next_loop p₁ ≡ some (l, p₂))
    × (get_elem? three_loops.loops ((three_loops.next_idx + 4) % length three_loops.loops) ≡ some l)
get_next_loop-after_calls_example =
    get_next_loop-after_calls 4 three_loops (omega arith) (omega arith)

abbrev server : TcpServer
server = record { pool = three_loops; next_conn_id = 1; connections = [] }

abbrev visits : List Event
visits = comes ∷ comes ∷ leaves 1 ∷ comes ∷ leaves 7 ∷ []

run-IsValid_example : (s' : TcpServer) × (run visits server ≡ some s') × IsValid s'
run-IsValid_example =
    run-IsValid visits server
      (record { ready = inr (omega arith, omega arith); below = tt; distinct = tt })
