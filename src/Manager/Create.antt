-- ===== src/Manager/Create.antt =====
-- Creation: a failed one leaves no trace, a finished one keeps the manager's invariant.
use mathlib.Core.Path.{fun_ext}
use rtp_stream_cleaner.Prelude.{
  ℕ, ◌≤◌, ◌<◌, ◌≡◌, ◌⊎◌, inl, inr, refl, ap, ◌∙◌, Bool, true, false, ◌&&◌, ◌||◌, Option, none, some,
  List, ◌∷◌, length, length-take, take, if◌then◌else◌, Option-cases, arith,
}
use rtp_stream_cleaner.Ports.Sort.{elem, Ascending-Distinct}
use rtp_stream_cleaner.Ports.{release, no_ports_available}
use rtp_stream_cleaner.Ports.Invariant.{
  granted, granted-IsValid, granted_free, granted_in_use, take-Ascending, allocate_refused,
  allocate-granted,
}
use rtp_stream_cleaner.Ports.Lease.{release-allocate}
use rtp_stream_cleaner.Session.{Text, Session, apply_rtp_dest}
use rtp_stream_cleaner.Session.Coherent.{apply_rtp_dest-IsCoherent}
use rtp_stream_cleaner.Manager.{
  Manager, CreateError, Outcome, Request, new_session, insert_session, start_session,
  create_with_dest, made, failed, allocation, ports_of,
}
use rtp_stream_cleaner.Manager.Sessions.{count, is_taken, ports_of-apply_rtp_dest}
use rtp_stream_cleaner.Manager.Opening.{
  has_unused, every, opened, choose_id-fresh, choose_id-decided, open_sockets-four,
  open_sockets-every, four_ports, count-Distinct, new_session-IsCoherent, named-IsCoherent,
}
use rtp_stream_cleaner.Manager.Invariant.{IsValid}

module _ (m : Manager) (r : Request) (v : IsValid m) where
  abbrev ports : List ℕ
  ports = take 4 m.allocator.available

  abbrev leased : Manager
  leased = record m { allocator = granted m.allocator 4 }

  abbrev fresh : Session
  fresh = apply_rtp_dest (new_session r ports) r.audio_dest r.video_dest

  abbrev bound : (ℕ → Bool) × Option CreateError
  bound =
      opened m.sockets r.listens fresh.audio.a_port fresh.audio.b_port fresh.video.a_port
        fresh.video.b_port

  ports_of-fresh : 4 ≤ length m.allocator.available → ports_of fresh ≡ ports
  ports_of-fresh enough =
      ports_of-apply_rtp_dest (new_session r ports) r.audio_dest r.video_dest
      ∙ four_ports ports (omega (arith, length-take {0} 4 m.allocator.available))

  -- A port that is handed out has no socket yet.
  closed_before : (x : ℕ) → (elem x ports && m.sockets x) ≡ false
  closed_before x = ground (arith, granted_free m.allocator 4 v.allocator_valid x, v.open_in_use x)

  bound_sockets :
      4 ≤ length m.allocator.available
      → (x : ℕ)
      → bound.0 x ≡ (m.sockets x || (elem x ports && elim bound.1 [ none ↦ true | some e ↦ false ]))
  bound_sockets enough x =
      let same = ap (λ (o : List ℕ). elem x o) (ports_of-fresh enough) in
      ground (
        arith,
        open_sockets-four m.sockets r.listens fresh.audio.a_port fresh.audio.b_port
            fresh.video.a_port fresh.video.b_port x,
        closed_before x,
        same,
      )

  count-fresh :
      4 ≤ length m.allocator.available
      → (x : ℕ) → count x (ports_of fresh) ≡ (if elem x ports then 1 else 0)
  count-fresh enough x =
      ap (λ (o : List ℕ). count x o) (ports_of-fresh enough)
      ∙ count-Distinct x ports (
          Ascending-Distinct m.allocator.min ports
            (take-Ascending 4 m.allocator.min m.allocator.available v.allocator_valid.ascending))

  -- The manager with the sockets open and the session in the map under an unused key.
  inserted-IsValid :
      4 ≤ length m.allocator.available
      → bound.1 ≡ none
      → (id : Text) → is_taken m.sessions id ≡ false
      → IsValid
          (record leased { sockets = bound.0; sessions = record fresh { id = id } ∷ m.sessions })
  inserted-IsValid enough all_open id unused = record {
    allocator_valid = granted-IsValid m.allocator 4 v.allocator_valid;
    held_once = λ x. ground (
      arith,
      count-fresh enough x,
      v.held_once x,
      granted_in_use m.allocator 4 v.allocator_valid x,
      granted_free m.allocator 4 v.allocator_valid x,
    );
    open_in_use = λ x. ground (
      arith,
      bound_sockets enough x,
      v.open_in_use x,
      granted_in_use m.allocator 4 v.allocator_valid x,
    );
    distinct = (unused, v.distinct);
    coherent = (
      named-IsCoherent fresh id (
          apply_rtp_dest-IsCoherent (new_session r ports) r.audio_dest r.video_dest
            (new_session-IsCoherent r ports)),
      v.coherent,
    );
  }

  -- A socket that could not be opened: the ports go back and the sockets are closed.
  rolled_back :
      4 ≤ length m.allocator.available
      → (e : CreateError) → bound.1 ≡ some e
      → record leased { sockets = bound.0; allocator = release (granted m.allocator 4) ports } ≡ m
  rolled_back enough e refused =
      let back : release (granted m.allocator 4) ports ≡ m.allocator =
        release-allocate m.allocator 4 v.allocator_valid
          (allocate-granted m.allocator 4 v.allocator_valid (omega arith) enough).0 in
      let closed : bound.0 ≡ m.sockets = fun_ext (λ x. ground (arith, bound_sockets enough x)) in
      λ i. record leased { sockets = closed i; allocator = back i }

  create_refused :
      length m.allocator.available < 4
      → create_with_dest m r ≡ (m, failed (allocation no_ports_available))
  unfolding create_with_dest
  create_refused few = rw (create_with_dest, allocate_refused m.allocator 4 (inr few)) refl

  create_granted :
      4 ≤ length m.allocator.available
      → create_with_dest m r ≡ start_session leased ports fresh r.ids bound
  unfolding create_with_dest
  create_granted enough =
      rw
        (
          create_with_dest,
          (allocate-granted m.allocator 4 v.allocator_valid (omega arith) enough).0,
        )
        refl

  bound-every :
      4 ≤ length m.allocator.available
      → elim bound.1 [ none ↦ true | some e ↦ false ] ≡ every r.listens ports
  bound-every enough =
      open_sockets-every m.sockets r.listens fresh.audio.a_port fresh.audio.b_port
        fresh.video.a_port fresh.video.b_port
      ∙ ap (λ (o : List ℕ). every r.listens o) (ports_of-fresh enough)

  bound_open : every r.listens ports ≡ true → 4 ≤ length m.allocator.available → bound.1 ≡ none
  bound_open all enough = elim (Option-cases bound.1) [
    | inl none_failed ↦ none_failed
    | inr (e, some_failed) ↦ absurd (ground (arith, bound-every enough))
  ]

  bound_failed :
      every r.listens ports ≡ false
      → 4 ≤ length m.allocator.available
      → (e : CreateError) × (bound.1 ≡ some e)
  bound_failed not_all enough = elim (Option-cases bound.1) [
    | inl none_failed ↦ absurd (ground (arith, bound-every enough))
    | inr found ↦ found
  ]

  -- Where fewer than four ports are free, or the system refuses one of the four sockets, creation
  -- fails and leaves the manager exactly as it was: its sessions, its allocator and its sockets.
  pub create_with_dest-failed :
      (length m.allocator.available < 4)
        ⊎ ((4 ≤ length m.allocator.available)
            × (every r.listens (take 4 m.allocator.available) ≡ false))
      → (e : CreateError) × (create_with_dest m r ≡ (m, failed e))
  create_with_dest-failed (inl few) = (allocation no_ports_available, create_refused few)
  create_with_dest-failed (inr (enough, not_all)) =
      let (e, refused) = bound_failed not_all enough in
      let started : start_session leased ports fresh r.ids bound ≡ (m, failed e) =
        ap (λ (o : Option CreateError). start_session leased ports fresh r.ids (bound.0, o)) refused
        ∙ ap (λ (q : Manager). (q, failed e)) (rolled_back enough e refused) in
      (e, create_granted enough ∙ started)

  -- The session that a creation makes under the identifier that it chose.
  abbrev made_session : Text → Session
  made_session id = record fresh { id = id }

  -- Where four ports are free, the system lets the manager listen on the four lowest, and an
  -- identifier is generated that no session has, creation makes a session with an unused identifier
  -- and adds it to the map; its ports are the four lowest that were free, and the manager's
  -- invariant holds again: each port in use has one session and an open socket.
  pub create_with_dest-made :
      4 ≤ length m.allocator.available
      → every r.listens (take 4 m.allocator.available) ≡ true
      → has_unused m.sessions r.ids ≡ true
      → (s : Session) × ((create_with_dest m r).1 ≡ made s)
        × ((create_with_dest m r).0.sessions ≡ s ∷ m.sessions)
        × (is_taken m.sessions s.id ≡ false)
        × (ports_of s ≡ take 4 m.allocator.available)
        × IsValid (create_with_dest m r).0
  unfolding insert_session
  create_with_dest-made enough all some_unused =
      let (id, chosen) = choose_id-decided m.sessions r.ids some_unused in
      let unused = choose_id-fresh m.sessions r.ids id chosen in
      let open_now = bound_open all enough in
      let q : Manager = record leased {
        sockets = bound.0;
        sessions = made_session id ∷ m.sessions;
      } in
      let inserted : insert_session (record leased { sockets = bound.0 }) fresh r.ids
          ≡ (q, made (made_session id)) =
        rw (insert_session, chosen) refl in
      let started : start_session leased ports fresh r.ids bound ≡ (q, made (made_session id)) =
        ap (λ (o : Option CreateError). start_session leased ports fresh r.ids (bound.0, o))
          open_now
        ∙ inserted in
      let e = create_granted enough ∙ started in
      (
        made_session id,
        ap (λ (x : Manager × Outcome). x.1) e,
        ap (λ (x : Manager × Outcome). x.0.sessions) e,
        unused,
        ports_of-fresh enough,
        rw e (inserted-IsValid enough open_now id unused),
      )
