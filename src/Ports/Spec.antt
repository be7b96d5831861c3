-- ===== src/Ports/Spec.antt =====
-- What the allocator promises, without its free list: a range of ports and which of them are held.
use mathlib.Core.Path.{fun_ext, subst}
use rtp_stream_cleaner.Prelude.{
  ℕ, ◌+◌, ◌-◌, ◌≡◌, refl, ap, ◌∙◌, Bool, not, ◌&&◌, ◌||◌, List, [], ◌∷◌, length, take, ltb, ◌==◌,
  if◌then◌else◌, Result, ok, err, arith, suc, if_split, if_cases, if_both, ==_iff,
}
use rtp_stream_cleaner.Ports.Sort.{elem, Ascending, Ascending-mono, Ascending-ext}
use rtp_stream_cleaner.Ports.{
  PortAllocator, AllocatorError, invalid_request, no_ports_available, ports_from, allocate, release,
}
use rtp_stream_cleaner.Ports.Invariant.{
  IsValid, granted, granted-IsValid, granted_in_use, ports_from-Ascending, elem-ports_from,
}
use rtp_stream_cleaner.Ports.Lease.{release-IsValid}

pub record Range : Type 0 where
  pub low : ℕ
  pub high : ℕ
  pub held : ℕ → Bool

abbrev pub keep_free : (ℕ → Bool) → List ℕ → List ℕ
keep_free held [] = []
keep_free held (port ∷ ports) =
    if held port then keep_free held ports else port ∷ keep_free held ports

-- The ports that are not held, from the lowest on.
abbrev pub free_ports : Range → List ℕ
free_ports r = keep_free r.held (ports_from r.low (r.high + 1 - r.low))

-- A request takes the lowest free ports.
abbrev pub lease_from : List ℕ → Range → ℕ → Result AllocatorError (List ℕ) × Range
lease_from free r count =
    if count == 0
    then (err (invalid_request count), r)
    else if ltb (length free) count
    then (err no_ports_available, r)
    else (let ports = take count free in
        (ok ports, record r { held = λ port. elem port ports || r.held port }))

abbrev pub lease : Range → ℕ → Result AllocatorError (List ℕ) × Range
lease r count = lease_from (free_ports r) r count

abbrev pub give_back : Range → List ℕ → Range
give_back r ports = record r { held = λ port. r.held port && not (elem port ports) }

pub data Call : Type 0 where
  allocate_call : ℕ → Call
  release_call : List ℕ → Call

-- The answers to a sequence of calls: of the specification, and of the allocator.
abbrev pub promised : Range → List Call → List (Result AllocatorError (List ℕ))
promised r [] = []
promised r (allocate_call count ∷ calls) =
    let (answer, q) = lease r count in answer ∷ promised q calls
promised r (release_call ports ∷ calls) = promised (give_back r ports) calls

abbrev pub answer_of :
    PortAllocator
    → Result AllocatorError (List ℕ × PortAllocator)
    → Result AllocatorError (List ℕ) × PortAllocator
answer_of p (err e) = (err e, p)
answer_of p (ok (ports, q)) = (ok ports, q)

abbrev pub answers : PortAllocator → List Call → List (Result AllocatorError (List ℕ))
answers p [] = []
answers p (allocate_call count ∷ calls) =
    let (answer, q) = answer_of p (allocate p count) in answer ∷ answers q calls
answers p (release_call ports ∷ calls) = answers (release p ports) calls

-- What the specification sees of an allocator.
abbrev pub view : PortAllocator → Range
view p = record { low = p.min; high = p.max; held = p.in_use }

elem-keep_free :
    (held : ℕ → Bool) (port : ℕ) (ports : List ℕ)
    → elem port (keep_free held ports) ≡ (elem port ports && not (held port))
elem-keep_free held port [] = refl
elem-keep_free held port (x ∷ ports) =
    if_split (λ (xs : List ℕ). elem port xs ≡ ((port == x || elem port ports) && not (held port)))
      (held x) (λ e. ground (arith, elem-keep_free held port ports, ==_iff port x, at_same))
      (λ e. ground (arith, elem-keep_free held port ports, ==_iff port x, at_same))
  where
    at_same : port ≡ x → held port ≡ held x
    at_same e = ap held e

keep_free-Ascending :
    (held : ℕ → Bool) (low : ℕ) (ports : List ℕ)
    → Ascending low ports
    → Ascending low (keep_free held ports)
keep_free-Ascending held low [] a = tt
keep_free-Ascending held low (x ∷ ports) (up, a) =
    let rest = keep_free-Ascending held (suc x) ports a in
    if_cases (Ascending low) (held x) (Ascending-mono low (suc x) _ (omega arith) rest) (up, rest)

available-free_ports : (p : PortAllocator) → IsValid p → p.available ≡ free_ports (view p)
available-free_ports p v =
    Ascending-ext p.min p.available (free_ports (view p)) v.ascending
      (keep_free-Ascending p.in_use p.min _ (ports_from-Ascending p.min (p.max + 1 - p.min)))
      (λ port.
        let members = elem-keep_free p.in_use port (ports_from p.min (p.max + 1 - p.min)) in
        let range = elem-ports_from port p.min (p.max + 1 - p.min) in
        let listed = v.lists_free port in ground arith)

view-release :
    (p : PortAllocator) (ports : List ℕ)
    → IsValid p
    → view (release p ports) ≡ give_back (view p) ports
view-release p ports v =
    let (valid, low, high, held) = release-IsValid p ports v in
    let all_held = fun_ext held in λ i. record { low = low i; high = high i; held = all_held i }

view-granted :
    (p : PortAllocator) (count : ℕ)
    → IsValid p
    → view (granted p count)
      ≡ record (view p) { held = λ port. elem port (take count p.available) || p.in_use port }
view-granted p count v =
    let all_held = fun_ext (granted_in_use p count v) in
    λ i. record { low = p.min; high = p.max; held = all_held i }

-- The allocator answers as the specification does, and is again valid and seen as what the
-- specification makes of it.
record Agrees (p : PortAllocator) (x : Result AllocatorError (List ℕ × PortAllocator))
    (y : Result AllocatorError (List ℕ) × Range) : Type 0 where
  same_answer : (answer_of p x).0 ≡ y.0
  same_view : view (answer_of p x).1 ≡ y.1
  valid : IsValid (answer_of p x).1

allocate-Agrees :
    (p : PortAllocator) (count : ℕ) → IsValid p → Agrees p (allocate p count) (lease (view p) count)
unfolding allocate
allocate-Agrees p count v =
    let refused : (e : AllocatorError) → Agrees p (err e) (err e, view p) =
      λ e. record { same_answer = refl; same_view = refl; valid = v } in
    let ports = take count p.available in
    let granted_here : Agrees p (ok (ports, granted p count))
        (ok ports, record (view p) { held = λ port. elem port ports || p.in_use port }) =
      record {
        same_answer = refl;
        same_view = view-granted p count v;
        valid = granted-IsValid p count v;
      } in
    subst (λ (free : List ℕ). Agrees p (allocate p count) (lease_from free (view p) count))
      (available-free_ports p v)
      (if_both (Agrees p) (count == 0) (refused (invalid_request count)) (
        if_both (Agrees p) (ltb (length p.available) count) (refused no_ports_available)
          granted_here))

-- The allocator refines its specification: from a valid state, every sequence of requests and
-- releases, whatever ports are released, gets the answers that a mere set of held ports gives,
-- where a request gets the lowest ports of the range that are not held, or the error for an empty
-- request or for too few free ports.
pub answers-promised :
    (p : PortAllocator) (calls : List Call) → IsValid p → answers p calls ≡ promised (view p) calls
answers-promised p [] v = refl
answers-promised p (allocate_call count ∷ calls) v =
    let a = allocate-Agrees p count v in
    let q = (answer_of p (allocate p count)).1 in
    ap (λ (xs : List (Result AllocatorError (List ℕ))). (answer_of p (allocate p count)).0 ∷ xs)
      (answers-promised q calls a.valid)
    ∙ ap (λ (x : Result AllocatorError (List ℕ)). x ∷ promised (view q) calls) a.same_answer
    ∙ ap (λ (r : Range). (lease (view p) count).0 ∷ promised r calls) a.same_view
answers-promised p (release_call ports ∷ calls) v =
    answers-promised (release p ports) calls (release-IsValid p ports v).0
    ∙ ap (λ (r : Range). promised r calls) (view-release p ports v)
