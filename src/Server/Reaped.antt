-- ===== src/Server/Reaped.antt =====
-- The account of `reap_closed_connections` of src/worker.rs, and what it tells the application.
use http.Blocked.Tracking.{elem-append}
use http.Admission.{AdmissionWatermarks}
use http.H3Connection.{H3Api}
use http.Common.{
  ◌∙◌, ◌++◌, true, ◌||◌, ◌&&◌, Bool, ◌≡◌, ◌==◌, elem, ◌+◌, Bool-cases, All, total, List, inl, inr,
  false, refl, ℕ, ◌∷◌, [], arith,
}
use http.Server.Flush.{
  streams_of, resets, reap, reap_all, reap_closed_connections, without_connection, of_connection,
  closed_handles, sort_dedup, insert_stream,
}
use http.Server.Ledger.{Owes, release-Owes}
use http.Server.{
  write_ready, reply, event_session_close, event_error, event_drain, event_handle, event_blocked,
  release_outbound_admission, ServerEvent, Server, StreamKey, same_key, response_units, event_reset,
}
use http.PendingWrite.{queued_units}

module _ (api : H3Api) (m : AdmissionWatermarks) where
  -- No stream of a connection is in a map.
  abbrev pub NoneOf : {V : Type 0} → ℕ → List (StreamKey × V) → Type 0
  NoneOf handle xs = All (λ e. (e.0.0 == handle) ≡ false) xs

  without-NoneOf :
      {V : Type 0} (handle : ℕ) (xs : List (StreamKey × V))
      → NoneOf handle (without_connection api m handle xs)
  without-NoneOf handle [] = tt
  without-NoneOf handle ((key, v) ∷ rest) = elim (Bool-cases (key.0 == handle)) [
    | inl e ↦ rw e (without-NoneOf handle rest)
    | inr e ↦ rw e (e, without-NoneOf handle rest)
  ]

  parts-total :
      {V : Type 0} (units : V → ℕ) (handle : ℕ) (xs : List (StreamKey × V))
      → total same_key units (without_connection api m handle xs)
          + total same_key units (of_connection api m handle xs)
        ≡ total same_key units xs
  parts-total units handle [] = omega arith
  parts-total units handle ((key, v) ∷ rest) = elim (Bool-cases (key.0 == handle)) [
    | inl e ↦ rw e (omega (arith, parts-total units handle rest))
    | inr e ↦ rw e (omega (arith, parts-total units handle rest))
  ]

  reap-Owes : (s : Server api) (handle n : ℕ) → Owes api s n → Owes api (reap api m s handle).0 n
  reap-Owes s handle n h =
      let writes = of_connection api m handle s.pending_writes in
      let responses = of_connection api m handle s.pending_responses in
      release-Owes api m _
        (total same_key queued_units writes + total same_key (response_units api) responses) n
        (omega (
          arith,
          h,
          parts-total queued_units handle s.pending_writes,
          parts-total (response_units api) handle s.pending_responses,
        ))

  reap_all-Owes :
      (s : Server api) (handles : List ℕ) (n : ℕ)
      → Owes api s n
      → Owes api (reap_all api m s handles).0 n
  reap_all-Owes s [] n h = h
  reap_all-Owes s (handle ∷ handles) n h =
      reap_all-Owes (reap api m s handle).0 handles n (reap-Owes s handle n h)

  -- When the closed connections go, the units of all that waited on them are released, and no others.
  pub reap_closed-Owes :
      (s : Server api) (n : ℕ) → Owes api s n → Owes api (reap_closed_connections api m s).0 n
  unfolding reap_closed_connections
  reap_closed-Owes s n h = reap_all-Owes _ (closed_handles api m s.connections) n h

  -- The stream is told to be reset.
  abbrev pub reset_in : ℕ → ℕ → List ServerEvent → Bool
  reset_in handle stream [] = false
  reset_in handle stream (event_reset h st code ∷ events) =
      ((h == handle) && (st == stream)) || reset_in handle stream events
  reset_in handle stream (e ∷ events) = reset_in handle stream events

  elem-insert_stream :
      (k x : ℕ) (xs : List ℕ) → elem k (insert_stream api m x xs) ≡ ((k == x) || elem k xs)
  elem-insert_stream k x [] = refl
  elem-insert_stream k x (y ∷ ys) = ground (arith, elem-insert_stream k x ys)

  elem-sort_dedup : (k : ℕ) (xs : List ℕ) → elem k (sort_dedup api m xs) ≡ elem k xs
  elem-sort_dedup k [] = refl
  elem-sort_dedup k (x ∷ xs) =
      ground (arith, elem-insert_stream k x (sort_dedup api m xs), elem-sort_dedup k xs)

  reset_in-append :
      (handle stream : ℕ) (xs ys : List ServerEvent)
      → reset_in handle stream xs ≡ true
      → reset_in handle stream (xs ++ ys) ≡ true
  reset_in-append handle stream [] ys h = absurd (ground (arith, h))
  reset_in-append handle stream (event_reset a st code ∷ xs) ys h =
      elim (Bool-cases ((a == handle) && (st == stream))) [
        | inl e ↦ rw e refl
        | inr e ↦ rw e (reset_in-append handle stream xs ys (rw e at h))
      ]
  reset_in-append handle stream (event_blocked a st ∷ xs) ys h =
      reset_in-append handle stream xs ys h
  reset_in-append handle stream (event_drain a st ∷ xs) ys h = reset_in-append handle stream xs ys h
  reset_in-append handle stream (event_error a st ∷ xs) ys h = reset_in-append handle stream xs ys h
  reset_in-append handle stream (event_session_close a ∷ xs) ys h =
      reset_in-append handle stream xs ys h
  reset_in-append handle stream (write_ready ∷ xs) ys h = reset_in-append handle stream xs ys h
  reset_in-append handle stream (reply b ∷ xs) ys h = reset_in-append handle stream xs ys h

  reset_in-resets :
      (handle stream : ℕ) (streams : List ℕ)
      → elem stream streams ≡ true
      → reset_in handle stream (resets api m handle streams) ≡ true
  reset_in-resets handle stream [] h = absurd (ground (arith, h))
  reset_in-resets handle stream (x ∷ xs) h = ground (arith, h, reset_in-resets handle stream xs)

  -- A closed connection leaves nothing behind: no write and no response waits for it any more, and
  -- each of its streams on which one waited is reset, under the handle that the application knows.
  pub reap_lem :
      (s : Server api) (handle : ℕ)
      → let (s', events) = reap api m s handle in
        NoneOf handle s'.pending_writes
        × NoneOf handle s'.pending_responses
        × ((stream : ℕ)
            → (elem stream (streams_of api m (of_connection api m handle s.pending_writes))
                || elem stream (streams_of api m (of_connection api m handle s.pending_responses)))
              ≡ true
            → reset_in (event_handle api s handle) stream events ≡ true)
  unfolding release_outbound_admission
  reap_lem s handle =
      let writes = streams_of api m (of_connection api m handle s.pending_writes) in
      let responses = streams_of api m (of_connection api m handle s.pending_responses) in
      (
        without-NoneOf handle s.pending_writes,
        without-NoneOf handle s.pending_responses,
        λ stream h.
            reset_in-append (event_handle api s handle) stream
              (resets api m (event_handle api s handle) (sort_dedup api m (writes ++ responses))) _
              (reset_in-resets (event_handle api s handle) stream
                (sort_dedup api m (writes ++ responses))
                (elem-sort_dedup stream (writes ++ responses)
                  ∙ elem-append stream writes responses
                  ∙ h)),
      )
