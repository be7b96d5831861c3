-- ===== src/Ports/Invariant.antt =====
-- The allocator's ports are split between the free list, kept in ascending order, and those in use.
use rtp_stream_cleaner.Prelude.{
  ℕ, zero, suc, ◌+◌, ◌-◌, ◌≤◌, ◌<◌, ◌≡◌, ◌⊎◌, inl, inr, Bool-cases, refl, Bool, true, false, not,
  ◌&&◌, ◌||◌, List, [], ◌∷◌, length, length-take, take, drop, leb, ltb, ◌==◌, if◌then◌else◌, ok,
  err, arith,
}
use rtp_stream_cleaner.Ports.Sort.{elem, Ascending, Ascending-mono, elem_below}
use rtp_stream_cleaner.Ports.{
  PortAllocator, invalid_range, invalid_request, no_ports_available, ports_from, new_port_allocator,
  mark_all, allocate, update,
}

-- A port of the range that nobody holds.
abbrev pub is_free : PortAllocator → ℕ → Bool
is_free p port = leb p.min port && leb port p.max && not (p.in_use port)

-- Between calls: the list is strictly ascending and holds just the free ports, and what is in use
-- is a port of the range.
pub record IsValid (p : PortAllocator) : Type 0 where
  pub ascending : Ascending p.min p.available
  pub lists_free : (port : ℕ) → elem port p.available ≡ is_free p port
  pub in_range : (port : ℕ) → (p.in_use port && not (leb p.min port && leb port p.max)) ≡ false

pub ports_from-Ascending : (first count : ℕ) → Ascending first (ports_from first count)
unfolding ports_from
ports_from-Ascending first zero = tt
ports_from-Ascending first (suc count) =
    let e : suc first ≡ first + 1 = omega arith in
    (omega arith, rw e (ports_from-Ascending (first + 1) count))

pub elem-ports_from :
    (port first count : ℕ)
    → elem port (ports_from first count) ≡ (leb first port && ltb port (first + count))
unfolding ports_from
elem-ports_from port first zero = ground arith
elem-ports_from port first (suc count) = ground (arith, elem-ports_from port (first + 1) count)

module _ (min_port max_port : ℕ) where
  -- The allocator of a range, with nothing handed out.
  abbrev pub whole_range : PortAllocator
  whole_range = record {
    min = min_port;
    max = max_port;
    available = ports_from min_port (max_port + 1 - min_port);
    in_use = λ port. false;
  }

  pub whole_range-IsValid : min_port ≤ max_port → IsValid whole_range
  whole_range-IsValid h = record {
    ascending = ports_from-Ascending min_port (max_port + 1 - min_port);
    lists_free = λ port. ground (arith, elem-ports_from port min_port (max_port + 1 - min_port));
    in_range = λ port. refl;
  }

  -- A range from a positive port to one that is not below it makes a valid allocator with nothing
  -- in use, and every other range is refused with the range in the error.
  pub new_port_allocator-IsValid :
      ((1 ≤ min_port)
        × (min_port ≤ max_port)
        × (new_port_allocator min_port max_port ≡ ok whole_range)
        × IsValid whole_range)
      ⊎ (((min_port ≡ 0) ⊎ (max_port < min_port))
          × (new_port_allocator min_port max_port ≡ err (invalid_range min_port max_port)))
  unfolding new_port_allocator
  new_port_allocator-IsValid = elim (Bool-cases (min_port == 0 || ltb max_port min_port)) [
    | inl bad ↦ inr (ground arith, ground arith)
    | inr good ↦ inl (ground arith, ground arith, ground arith, whole_range-IsValid (ground arith))
  ]

pub mark_all-elem :
    (in_use : ℕ → Bool) (ports : List ℕ) (port : ℕ)
    → mark_all in_use ports port ≡ (elem port ports || in_use port)
unfolding mark_all
mark_all-elem in_use [] port = refl
mark_all-elem in_use (x ∷ ports) port =
    ground (arith, mark_all-elem (update in_use x true) ports port)

pub drop-Ascending : (n low : ℕ) (xs : List ℕ) → Ascending low xs → Ascending low (drop n xs)
drop-Ascending zero low xs s = s
drop-Ascending (suc n) low [] s = tt
drop-Ascending (suc n) low (x ∷ xs) s =
    Ascending-mono low (suc x) (drop n xs) (omega arith) (drop-Ascending n (suc x) xs s.1)

pub take-Ascending : (n low : ℕ) (xs : List ℕ) → Ascending low xs → Ascending low (take n xs)
take-Ascending zero low xs s = tt
take-Ascending (suc n) low [] s = tt
take-Ascending (suc n) low (x ∷ xs) s = (s.0, take-Ascending n (suc x) xs s.1)

module _ (port : ℕ) where
  elem-drop : (n : ℕ) (xs : List ℕ) → (elem port (drop n xs) && not (elem port xs)) ≡ false
  elem-drop zero xs = ground arith
  elem-drop (suc n) [] = refl
  elem-drop (suc n) (x ∷ xs) = ground (arith, elem-drop n xs)

  -- The members of an ascending list are in its front or in its back, never in both.
  elem-take :
      (n low : ℕ) (xs : List ℕ)
      → Ascending low xs
      → elem port (take n xs) ≡ (elem port xs && not (elem port (drop n xs)))
  elem-take zero low xs s = ground arith
  elem-take (suc n) low [] s = refl
  elem-take (suc n) low (x ∷ xs) s = ground (
    arith,
    elem-take n (suc x) xs s.1,
    elem_below port (suc x) (drop n xs) (drop-Ascending n (suc x) xs s.1),
    elem-drop n xs,
  )

-- The allocator after a granted request.
abbrev pub granted : PortAllocator → ℕ → PortAllocator
granted p count = record p {
  available = drop count p.available;
  in_use = mark_all p.in_use (take count p.available);
}

module _ (p : PortAllocator) (count : ℕ) (v : IsValid p) where
  pub granted_in_use :
      (port : ℕ)
      → (granted p count).in_use port ≡ (elem port (take count p.available) || p.in_use port)
  granted_in_use = mark_all-elem p.in_use (take count p.available)

  pub granted-IsValid : IsValid (granted p count)
  granted-IsValid = record {
    ascending = drop-Ascending count p.min p.available v.ascending;
    lists_free = λ port. ground (
      arith,
      granted_in_use port,
      elem-take port count p.min p.available v.ascending,
      elem-drop port count p.available,
      v.lists_free port,
    );
    in_range = λ port. ground (
      arith,
      granted_in_use port,
      elem-take port count p.min p.available v.ascending,
      v.lists_free port,
      v.in_range port,
    );
  }

  pub granted_free :
      (port : ℕ) → (elem port (take count p.available) && not (is_free p port)) ≡ false
  granted_free port =
      ground (arith, elem-take port count p.min p.available v.ascending, v.lists_free port)

  -- The only answer that a granted request can give.
  pub allocate_inv :
      {ports : List ℕ} {q : PortAllocator}
      → allocate p count ≡ ok (ports, q)
      → (ports ≡ take count p.available) × (q ≡ granted p count)
  unfolding allocate
  allocate_inv e = ground arith

  -- A request of at least one port, for no more than are free, is granted: it hands out the lowest
  -- free ports, as many as asked for and no port twice; each was free before and is in use after;
  -- no other port changes; and the allocator stays valid.
  pub allocate-granted :
      1 ≤ count
      → count ≤ length p.available
      → let ports = take count p.available in
        (allocate p count ≡ ok (ports, granted p count))
        × (length ports ≡ count)
        × Ascending p.min ports
        × ((port : ℕ) → (elem port ports && not (is_free p port)) ≡ false)
        × ((port : ℕ) → (granted p count).in_use port ≡ (elem port ports || p.in_use port))
        × IsValid (granted p count)
  unfolding allocate
  allocate-granted some_asked enough = (
    ground arith,
    omega (arith, length-take {0} count p.available),
    take-Ascending count p.min p.available v.ascending,
    granted_free,
    granted_in_use,
    granted-IsValid,
  )

-- A request for nothing and one for more than is free are refused, each with its own error.
pub allocate_refused :
    (p : PortAllocator) (count : ℕ)
    → (count ≡ 0) ⊎ (length p.available < count)
    → allocate p count ≡ err (if count == 0 then invalid_request count else no_ports_available)
unfolding allocate
allocate_refused p count h = ground arith
