-- ===== src/Ports/Lease.antt =====
-- Releasing ports, and what that means for the ports of several sessions.
use mathlib.Core.Path.{fun_ext}
use rtp_stream_cleaner.Prelude.{
  ℕ, ◌≤◌, ◌≡◌, refl, ap, ◌∙◌, false, not, ◌&&◌, List, [], ◌∷◌, ◌++◌, take, leb, ◌==◌, ok, arith,
  Bool-cases, inl, inr,
}
use rtp_stream_cleaner.Ports.Sort.{
  elem, Distinct, From, elem-append, sort_ints, elem-sort_ints, sort_ints-Ascending,
  Ascending-Distinct, Ascending-From, Ascending-ext,
}
use rtp_stream_cleaner.Ports.{PortAllocator, allocate, release_port, release_loop, release}
use rtp_stream_cleaner.Ports.Invariant.{
  IsValid, is_free, granted, granted-IsValid, granted_in_use, granted_free, allocate_inv,
}

-- What holds inside the loop of Release: the free list is out of order.
record IsLoose (p : PortAllocator) : Type 0 where
  distinct : Distinct p.available
  from : From p.min p.available
  lists_free : (port : ℕ) → elem port p.available ≡ is_free p port
  in_range : (port : ℕ) → (p.in_use port && not (leb p.min port && leb port p.max)) ≡ false

Distinct-append :
    (xs : List ℕ) (x : ℕ) → Distinct xs → elem x xs ≡ false → Distinct (xs ++ (x ∷ []))
Distinct-append [] x d new = (refl, tt)
Distinct-append (y ∷ ys) x d new =
    (ground (arith, elem-append y ys (x ∷ [])), Distinct-append ys x d.1 (ground arith))

From-append : (low : ℕ) (xs : List ℕ) (x : ℕ) → From low xs → low ≤ x → From low (xs ++ (x ∷ []))
From-append low [] x f h = (h, tt)
From-append low (y ∷ ys) x f h = (f.0, From-append low ys x f.1 h)

module _ (p : PortAllocator) (port : ℕ) where
  release_port_bounds : ((release_port p port).min ≡ p.min) × ((release_port p port).max ≡ p.max)
  unfolding release_port
  release_port_bounds = (ground arith, ground arith)

  release_port_in_use : (x : ℕ) → (release_port p port).in_use x ≡ (p.in_use x && not (x == port))
  unfolding release_port
  release_port_in_use x = ground arith

  release_port-IsLoose : IsLoose p → IsLoose (release_port p port)
  unfolding release_port
  release_port-IsLoose v = elim (Bool-cases (p.in_use port)) [
    | inl held ↦ record {
      distinct =
          ground (arith, v.in_range port, v.lists_free port, Distinct-append p.available port);
      from = ground (arith, v.in_range port, From-append p.min p.available port);
      lists_free = λ x.
          ground (arith, v.in_range port, v.lists_free x, elem-append x p.available (port ∷ []));
      in_range = λ x. ground (arith, v.in_range x);
    }
    | inr idle ↦ rw idle v
  ]

release_loop_bounds :
    (p : PortAllocator) (ports : List ℕ)
    → ((release_loop p ports).min ≡ p.min) × ((release_loop p ports).max ≡ p.max)
unfolding release_loop
release_loop_bounds p [] = (refl, refl)
release_loop_bounds p (port ∷ ports) =
    ground (arith, release_port_bounds p port, release_loop_bounds (release_port p port) ports)

release_loop_in_use :
    (p : PortAllocator) (ports : List ℕ) (x : ℕ)
    → (release_loop p ports).in_use x ≡ (p.in_use x && not (elem x ports))
unfolding release_loop
release_loop_in_use p [] x = ground arith
release_loop_in_use p (port ∷ ports) x =
    ground (arith, release_port_in_use p port x, release_loop_in_use (release_port p port) ports x)

release_loop-IsLoose :
    (p : PortAllocator) (ports : List ℕ) → IsLoose p → IsLoose (release_loop p ports)
unfolding release_loop
release_loop-IsLoose p [] v = v
release_loop-IsLoose p (port ∷ ports) v =
    release_loop-IsLoose (release_port p port) ports (release_port-IsLoose p port v)

IsValid-IsLoose : (p : PortAllocator) → IsValid p → IsLoose p
IsValid-IsLoose p v = record {
  distinct = Ascending-Distinct p.min p.available v.ascending;
  from = Ascending-From p.min p.min p.available (omega arith) v.ascending;
  lists_free = v.lists_free;
  in_range = v.in_range;
}

sorted-IsValid :
    (p : PortAllocator) → IsLoose p → IsValid (record p { available = sort_ints p.available })
sorted-IsValid p v = record {
  ascending = sort_ints-Ascending p.min p.available v.from v.distinct;
  lists_free = λ port. elem-sort_ints port p.available ∙ v.lists_free port;
  in_range = v.in_range;
}

-- A release keeps the allocator valid and its range, and takes just the named ports out of use,
-- whether they were in use, free, named twice or foreign to the range.
pub release-IsValid :
    (p : PortAllocator) (ports : List ℕ)
    → IsValid p
    → IsValid (release p ports)
      × ((release p ports).min ≡ p.min)
      × ((release p ports).max ≡ p.max)
      × ((x : ℕ) → (release p ports).in_use x ≡ (p.in_use x && not (elem x ports)))
unfolding release
release-IsValid p ports v = (
  sorted-IsValid _ (release_loop-IsLoose p ports (IsValid-IsLoose p v)),
  (release_loop_bounds p ports).0,
  (release_loop_bounds p ports).1,
  release_loop_in_use p ports,
)

-- A valid allocator is determined by its range and by what is in use.
IsValid-ext :
    (p q : PortAllocator)
    → IsValid p
    → IsValid q
    → q.min ≡ p.min
    → q.max ≡ p.max
    → ((x : ℕ) → q.in_use x ≡ p.in_use x)
    → q ≡ p
IsValid-ext p q v w low high held =
    let held' : q.in_use ≡ p.in_use = fun_ext held in
    let free : q.available ≡ p.available =
      Ascending-ext p.min q.available p.available (rw low at w.ascending) v.ascending
        (λ a. ground (arith, held a, v.lists_free a, w.lists_free a)) in
    λ i. record { min = low i; max = high i; available = free i; in_use = held' i }

module _ (p : PortAllocator) (count : ℕ) (v : IsValid p) where
  release-granted : release (granted p count) (take count p.available) ≡ p
  release-granted =
      let ports = take count p.available in
      let q = granted p count in
      let (valid, low, high, held) = release-IsValid q ports (granted-IsValid p count v) in
      IsValid-ext p (release q ports) v valid low high
        λ x. ground (arith, held x, granted_in_use p count v x, granted_free p count v x)

  -- Releasing the ports of a granted request restores the allocator as it was before the request.
  pub release-allocate :
      {ports : List ℕ} {q : PortAllocator} → allocate p count ≡ ok (ports, q) → release q ports ≡ p
  release-allocate {ports} {q} e =
      let (same_ports, same_state) = allocate_inv p count v e in
      rw (same_ports, same_state) release-granted

  -- Two grants in a row, as to two sessions, have no port in common.
  pub allocate_disjoint :
      (more : ℕ) {ports others : List ℕ} {q r : PortAllocator}
      → allocate p count ≡ ok (ports, q)
      → allocate q more ≡ ok (others, r)
      → (x : ℕ) → (elem x ports && elem x others) ≡ false
  allocate_disjoint more {ports} {others} {q} {r} e f x =
      let (same_ports, same_state) = allocate_inv p count v e in
      let w : IsValid q = rw same_state (granted-IsValid p count v) in
      let (same_others, last) = allocate_inv q more w f in
      ground (
        arith,
        granted_in_use p count v x,
        granted_free q more w x,
        ap (λ (o : List ℕ). elem x o) same_ports,
        ap (λ (o : List ℕ). elem x o) same_others,
        ap (λ (o : PortAllocator). o.in_use x) same_state,
      )

-- Ports that are not in use are released without effect, so a second release is harmless.
pub release_idle :
    (p : PortAllocator) (ports : List ℕ)
    → IsValid p
    → ((x : ℕ) → (elem x ports && p.in_use x) ≡ false)
    → release p ports ≡ p
release_idle p ports v idle =
    let (valid, low, high, held) = release-IsValid p ports v in
    IsValid-ext p (release p ports) v valid low high (λ x. ground (arith, held x, idle x))
