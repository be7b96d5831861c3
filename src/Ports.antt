-- ===== src/Ports.antt =====
-- The port allocator (internal/session/allocator.go). Each operation runs under the allocator's
-- mutex, so it is one step. A bound below 1 is the number 0 here, and is refused as the code
-- refuses it; the map inUse is the function that reads it.
pub mod Sort
pub mod Invariant
pub mod Lease
pub mod Spec
use rtp_stream_cleaner.Prelude.{
  ℕ, zero, suc, ◌+◌, ◌-◌, Bool, true, false, not, ◌||◌, List, [], ◌∷◌, ◌++◌, length, take, drop,
  leb, ltb, ◌==◌, if◌then◌else◌, Result, ok, err,
}
use Sort.{sort_ints}

pub record PortAllocator : Type 0 where
  pub min : ℕ
  pub max : ℕ
  pub available : List ℕ
  pub in_use : ℕ → Bool

pub data AllocatorError : Type 0 where
  invalid_range : ℕ → ℕ → AllocatorError
  invalid_request : ℕ → AllocatorError
  no_ports_available : AllocatorError

-- for port := first; ...: `count` ports from `first` on.
unfoldable pub ports_from : ℕ → ℕ → List ℕ
ports_from first zero = []
ports_from first (suc count) = first ∷ ports_from (first + 1) count

unfoldable pub new_port_allocator : ℕ → ℕ → Result AllocatorError PortAllocator
unfolding ports_from
new_port_allocator min_port max_port =
    if min_port == 0 || max_port == 0
    then err (invalid_range min_port max_port)
    else if ltb max_port min_port
    then err (invalid_range min_port max_port)
    else ok (record {
      min = min_port;
      max = max_port;
      available = ports_from min_port (max_port + 1 - min_port);
      in_use = λ port. false;
    })

-- A write to the map at one key.
abbrev pub update : (ℕ → Bool) → ℕ → Bool → ℕ → Bool
update in_use port b key = if port == key then b else in_use key

unfoldable pub mark_all : (ℕ → Bool) → List ℕ → ℕ → Bool
mark_all in_use [] = in_use
mark_all in_use (port ∷ ports) = mark_all (update in_use port true) ports

unfoldable pub allocate : PortAllocator → ℕ → Result AllocatorError (List ℕ × PortAllocator)
unfolding mark_all
allocate p count =
    if count == 0
    then err (invalid_request count)
    else if ltb (length p.available) count
    then err no_ports_available
    else (let ports = take count p.available in
        ok (
          ports,
          record p { available = drop count p.available; in_use = mark_all p.in_use ports },
        ))

unfoldable pub release_port : PortAllocator → ℕ → PortAllocator
release_port p port =
    if not (p.in_use port)
    then p
    else (let freed = record p { in_use = update p.in_use port false } in
        if ltb port p.min || ltb p.max port
        then freed
        else record freed { available = p.available ++ (port ∷ []) })

unfoldable pub release_loop : PortAllocator → List ℕ → PortAllocator
unfolding release_port
release_loop p [] = p
release_loop p (port ∷ ports) = release_loop (release_port p port) ports

unfoldable pub release : PortAllocator → List ℕ → PortAllocator
unfolding release_loop sort_ints
release p ports = let q = release_loop p ports in record q { available = sort_ints q.available }
