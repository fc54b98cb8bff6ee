-- ===== src/H3Connection/Drains.antt =====
-- What `poll_drain_events` of src/connection.rs does with the blocked streams.
use http.Common.{
  ◌∙◌, map_err, ltb, ==_iff, sym, is_some, ◌⊎◌, subst, ap, ◌||◌, ◌==◌, Option, Bool-cases, ◌≡◌,
  elem, ◌++◌, Bool, Result, List, inl, inr, none, some, true, false, refl, ℕ, ◌∷◌, [], zero, suc,
  arith, ok, err,
}
use http.H3Connection.Loop.{clear_stream_tracking-conn}
use http.H3Connection.Polls.{
  poll_drain_events, writable_loop, writable_round, on_writable, drain_if_blocked, poll_events,
  stream_drain, stream_reset, stream_failed, PollEvent,
}
use http.H3Connection.{
  capacity_code, closed_of, clear_all, CapacityError, prune_closed_blocked_streams, H3Api, Http3,
  clear_stream_tracking, stream_stopped, capacity_other,
}
use http.Blocked.{unblocked_by, poll_queue, untrack, Blocked, drained, failed}
use http.Blocked.Tracking.{
  IsValid, untrack_lem, poll_queue_lem, still_blocked, unblocked, elem-still_blocked,
}

-- The stream that an event is about.
abbrev pub about : PollEvent → ℕ
about (stream_reset id code) = id
about (stream_drain id) = id
about (stream_failed id) = id

-- The application is told of a stream.
abbrev pub told : ℕ → List PollEvent → Bool
told k [] = false
told k (e ∷ events) = (k == about e) || told k events

told-append : (k : ℕ) (xs ys : List PollEvent) → told k (xs ++ ys) ≡ (told k xs || told k ys)
told-append k [] ys = refl
told-append k (x ∷ xs) ys = ground (arith, told-append k xs ys)

-- From one state of the blocked streams to the next: none is added, and one that leaves is told, or
-- is in `closed`.
abbrev Step : Blocked → List ℕ → List PollEvent → Blocked → Type 0
Step b closed events b' =
    IsValid b
    → IsValid b'
      × ((k : ℕ) → elem k b'.queue ≡ true → elem k b.queue ≡ true)
      × ((k : ℕ)
          → elem k b.queue ≡ true
          → (elem k b'.queue || elem k closed || told k events) ≡ true)

untrack-told :
    (b : Blocked) (id : ℕ) (event : PollEvent) (events : List PollEvent)
    → about event ≡ id
    → Step b [] (event ∷ events) (untrack b id)
untrack-told b id event events e v =
    let (valid, left) = untrack_lem b id v in
    (valid, λ k h. ground (arith, left k, h), λ k h. ground (arith, left k, h, ap (λ n. k == n) e))

trans :
    (b b' b'' : Blocked) (closed : List ℕ) (events later : List PollEvent)
    → Step b closed events b'
    → Step b' [] later b''
    → Step b closed (events ++ later) b''
trans b b' b'' closed events later s t v =
    let (v', fewer, tells) = s v in
    let (v'', fewer', tells') = t v' in
    (
      v'',
      λ k h. fewer k (fewer' k h),
      λ k h. ground (arith, tells k h, tells' k, told-append k events later),
    )

module _ (api : H3Api) where
  drain_if_blocked-Step :
      (c : Http3 api) (id : ℕ)
      → let (c', events) = drain_if_blocked api c id in Step c.blocked [] events c'.blocked
  unfolding drain_if_blocked untrack
  drain_if_blocked-Step c id = elim (Bool-cases (elem id c.blocked.set)) [
    | inl e ↦ rw e (λ v. (rw e at (untrack-told c.blocked id (stream_drain id) [] refl)) v)
    | inr e ↦ rw e (λ v. (v, (λ k h. h), λ k h. ground (arith, h)))
  ]

  on_writable-Step :
      (c : Http3 api) (id : ℕ) (r : Result ℕ CapacityError)
      → let (c', events) = on_writable api c id r in Step c.blocked [] events c'.blocked
  unfolding on_writable
  on_writable-Step c id (err (stream_stopped code)) =
      rw ((clear_stream_tracking-conn api c id).1)
        (untrack-told c.blocked id (stream_reset id code) [] refl)
  on_writable-Step c id (err (capacity_other code)) = drain_if_blocked-Step c id
  on_writable-Step c id (ok capacity) = drain_if_blocked-Step c id

  round-Step :
      (c : Http3 api) (go : Http3 api → Http3 api × List PollEvent) (r : api.Conn × Option ℕ)
      → ((c' : Http3 api) → Step c'.blocked [] (go c').1 (go c').0.blocked)
      → let (c', events) = writable_round api c go r in Step c.blocked [] events c'.blocked
  round-Step c go (q, none) k = λ v. (v, (λ k h. h), λ k h. ground (arith, h))
  round-Step c go (q, some id) k =
      let c1 : Http3 api = record c { quiche_conn = q } in
      let x = on_writable api c1 id (api.stream_capacity q id) in
      trans c.blocked x.0.blocked (go x.0).0.blocked [] x.1 (go x.0).1
        (on_writable-Step c1 id (api.stream_capacity q id)) (k x.0)

  writable_loop-Step :
      (fuel : ℕ) (c : Http3 api)
      → let (c', events) = writable_loop api fuel c in Step c.blocked [] events c'.blocked
  writable_loop-Step zero c = λ v. (v, (λ k h. h), λ k h. ground (arith, h))
  writable_loop-Step (suc fuel) c =
      round-Step c (λ c'. writable_loop api fuel c') (api.stream_writable_next c.quiche_conn)
        (λ c'. writable_loop-Step fuel c')

  clear_all-Step :
      (c : Http3 api) (ids : List ℕ) → Step c.blocked ids [] (clear_all api c ids).blocked
  clear_all-Step c [] v = (v, (λ k h. h), λ k h. ground (arith, h))
  clear_all-Step c (id ∷ ids) v =
      let c1 = clear_stream_tracking api c id in
      let (valid, left) = untrack_lem c.blocked id v in
      let e = (clear_stream_tracking-conn api c id).1 in
      let (valid', fewer, tells) = clear_all-Step c1 ids (subst IsValid (sym e) valid) in
      let same = (λ (k : ℕ). ap (λ b. elem k b.queue) e) in
      (
        valid',
        λ k h. ground (arith, fewer k h, same k, left k),
        λ k h. ground (arith, h, tells k, same k, left k),
      )

  closed_of-closed :
      (q : api.Conn) (ids : List ℕ) (k : ℕ)
      → elem k (closed_of api q ids) ≡ true
      → api.stream_closed q k ≡ true
  closed_of-closed q [] k h = absurd (ground (arith, h))
  closed_of-closed q (id ∷ ids) k h = elim (Bool-cases (api.stream_closed q id)) [
    | inl e ↦ elim (Bool-cases (k == id)) [
      | inl s ↦ ap (api.stream_closed q) ((==_iff k id).0 s) ∙ e
      | inr s ↦ closed_of-closed q ids k (ground (arith, s, rw e at h))
    ]
    | inr e ↦ closed_of-closed q ids k (rw e at h)
  ]

  -- A stream that the queue's poll lets go is told.
  unblocked_by-cases :
      (id : ℕ) (r : Result ℕ ℕ)
      → (unblocked_by id r ≡ none)
        ⊎ ((unblocked_by id r ≡ some (drained id)) ⊎ (unblocked_by id r ≡ some (failed id)))
  unblocked_by-cases id (err code) = inr (inr refl)
  unblocked_by-cases id (ok n) = elim (Bool-cases (ltb 0 n)) [
    | inl l ↦ inr (inl (rw l refl))
    | inr l ↦ inl (rw l refl)
  ]

  queue-told :
      (capacity : ℕ → Result ℕ ℕ) (k : ℕ) (queue : List ℕ)
      → elem k queue ≡ true
      → (elem k (still_blocked capacity queue) || told k (poll_events (unblocked capacity queue)))
        ≡ true
  queue-told capacity k [] h = absurd (ground (arith, h))
  queue-told capacity k (id ∷ queue) h = elim (unblocked_by-cases id (capacity id)) [
    | inl e ↦ rw e (ground (arith, h, queue-told capacity k queue))
    | inr (inl e) ↦ rw e (ground (arith, h, queue-told capacity k queue))
    | inr (inr e) ↦ rw e (ground (arith, h, queue-told capacity k queue))
  ]

  no_capacity :
      (id : ℕ) (r : Result ℕ CapacityError)
      → is_some (unblocked_by id (map_err capacity_code r)) ≡ false
      → r ≡ ok 0
  no_capacity id (err e) h = absurd (ground (arith, h))
  no_capacity id (ok zero) h = refl
  no_capacity id (ok (suc n)) h = absurd (ground (arith, h))

  -- A poll keeps the queue and the set of blocked streams in step and blocks no further stream; a
  -- stream that is still blocked afterwards has no capacity, and one that is not blocked any more is
  -- closed, or the application is told of it.
  pub poll_drain_events_lem :
      (c : Http3 api)
      → IsValid c.blocked
      → let (c', events) = poll_drain_events api c in
        IsValid c'.blocked
        × ((k : ℕ)
            → elem k c'.blocked.queue ≡ true
            → (elem k c.blocked.queue ≡ true) × (api.stream_capacity c'.quiche_conn k ≡ ok 0))
        × ((k : ℕ)
            → elem k c.blocked.queue ≡ true
            → elem k c'.blocked.queue ≡ false
            → (api.stream_closed c.quiche_conn k ≡ true) ⊎ (told k events ≡ true))
  unfolding poll_drain_events prune_closed_blocked_streams
  poll_drain_events_lem c v =
      let ids = closed_of api c.quiche_conn c.blocked.set in
      let c1 = prune_closed_blocked_streams api c in
      let fuel = suc (api.writable_len c1.quiche_conn) in
      let (c2, events) = writable_loop api fuel c1 in
      let capacity = (λ (id : ℕ). map_err capacity_code (api.stream_capacity c2.quiche_conn id)) in
      let (v1, fewer, tells) = clear_all-Step c ids v in
      let (v2, fewer', tells') = writable_loop-Step fuel c1 v1 in
      let (v3, queue, later) = poll_queue_lem capacity c2.blocked v2 in
      let kept = (λ (k : ℕ). elem-still_blocked capacity k c2.blocked.queue) in
      let in_queue = (λ (k : ℕ). ap (elem k) queue) in
      (
        v3,
        λ k h. (
          fewer k (fewer' k (ground (arith, h, in_queue k, kept k))),
          no_capacity k (api.stream_capacity c2.quiche_conn k)
              (ground (arith, h, in_queue k, kept k)),
        ),
        λ k h g. elim (Bool-cases (elem k ids)) [
          | inl e ↦ inl (closed_of-closed c.quiche_conn c.blocked.set k e)
          | inr e ↦ inr (
              ground (
                arith,
                e,
                h,
                g,
                tells k,
                tells' k,
                in_queue k,
                queue-told capacity k c2.blocked.queue,
                ap (λ es. told k (poll_events es)) later,
                told-append k events (poll_events (poll_queue capacity c2.blocked).1),
              ))
        ],
      )
