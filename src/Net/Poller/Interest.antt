-- ===== src/Net/Poller/Interest.antt =====
-- An independent reading of the calls of epoll_ctl that net/src/poller.cpp makes: the interest list
-- of the kernel, and when a call is in order.
use qinyunserver.Base.{ℕ, ◌≡◌, ◌≢◌, Option, none, some, List, [], ◌∷◌, ◌==◌, if◌then◌else◌}
use qinyunserver.Net.Channel.{Events}
use qinyunserver.Net.Poller.{Ctl, ctl_add, ctl_mod, ctl_del}

-- The mask under which a descriptor is registered after some calls.
abbrev pub interest : ℕ → List Ctl → Option Events
interest fd [] = none
interest fd (ctl_add f e ∷ calls) = if fd == f then some e else interest fd calls
interest fd (ctl_mod f e ∷ calls) = if fd == f then some e else interest fd calls
interest fd (ctl_del f e ∷ calls) = if fd == f then none else interest fd calls

-- No call registers a descriptor twice, or changes or takes away one that is not registered. Epoll
-- refuses such calls with EEXIST and ENOENT.
abbrev pub IsLegal : List Ctl → Type 0
IsLegal [] = Unit
IsLegal (ctl_add f e ∷ calls) = (interest f calls ≡ none) × IsLegal calls
IsLegal (ctl_mod f e ∷ calls) = (interest f calls ≢ none) × IsLegal calls
IsLegal (ctl_del f e ∷ calls) = (interest f calls ≢ none) × IsLegal calls
