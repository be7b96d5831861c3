-- ===== src/Tests/Ports.antt =====
-- The port allocator on a range of six ports.
use rtp_stream_cleaner.Prelude.{◌≡◌, ◌&&◌, refl, false, [], ◌∷◌, ok, err, arith, ◌==◌}
use rtp_stream_cleaner.Ports.Sort.{elem}
use rtp_stream_cleaner.Ports.{
  PortAllocator, no_ports_available, invalid_range, new_port_allocator, ports_from, mark_all,
  allocate, release,
}
use rtp_stream_cleaner.Ports.Invariant.{IsValid, granted, allocate-granted}
use rtp_stream_cleaner.Ports.Lease.{release-IsValid, release-allocate, allocate_disjoint}
use rtp_stream_cleaner.Ports.Spec.{allocate_call, release_call, answers, answers-promised}

-- Ports 30000 to 30005, of which 30001 is in use.
abbrev six : PortAllocator
six = record {
  min = 30000;
  max = 30005;
  available = 30000 ∷ 30002 ∷ 30003 ∷ 30004 ∷ 30005 ∷ [];
  in_use = λ port. port == 30001;
}

six-IsValid : IsValid six
six-IsValid = record {
  ascending = omega arith;
  lists_free = λ port. ground arith;
  in_range = λ port. ground arith;
}

first_four : allocate six 4 ≡ ok (30000 ∷ 30002 ∷ 30003 ∷ 30004 ∷ [], granted six 4)
unfolding allocate
first_four = refl

exhausted : allocate six 6 ≡ err no_ports_available
unfolding allocate
exhausted = refl

release_unsorted :
    (release (granted six 4) (30003 ∷ 30000 ∷ 7 ∷ [])).available ≡ 30000 ∷ 30003 ∷ 30005 ∷ []
unfolding release mark_all
release_unsorted = refl

new_backwards : new_port_allocator 30005 30000 ≡ err (invalid_range 30005 30000)
unfolding new_port_allocator
new_backwards = refl

allocate-granted_example : IsValid (granted six 4)
allocate-granted_example = (allocate-granted six 4 six-IsValid (omega arith) (omega arith)).5

answers-promised_example :
    answers six
      (allocate_call 4 ∷ allocate_call 2 ∷ release_call (30002 ∷ 7 ∷ []) ∷ allocate_call 2 ∷ [])
    ≡ ok (30000 ∷ 30002 ∷ 30003 ∷ 30004 ∷ [])
      ∷ err no_ports_available
      ∷ ok (30002 ∷ 30005 ∷ [])
      ∷ []
unfolding ports_from
answers-promised_example =
    answers-promised six
      (allocate_call 4 ∷ allocate_call 2 ∷ release_call (30002 ∷ 7 ∷ []) ∷ allocate_call 2 ∷ [])
      six-IsValid

release-IsValid_example : IsValid (release six (30001 ∷ []))
release-IsValid_example = (release-IsValid six (30001 ∷ []) six-IsValid).0

release-allocate_example : release (granted six 4) (30000 ∷ 30002 ∷ 30003 ∷ 30004 ∷ []) ≡ six
release-allocate_example = release-allocate six 4 six-IsValid first_four

allocate_disjoint_example :
    (elem 30005 (30000 ∷ 30002 ∷ 30003 ∷ 30004 ∷ []) && elem 30005 (30005 ∷ [])) ≡ false
unfolding allocate
allocate_disjoint_example =
    allocate_disjoint six 4 six-IsValid 1 {others = 30005 ∷ []} {r = granted (granted six 4) 1}
      first_four refl 30005
