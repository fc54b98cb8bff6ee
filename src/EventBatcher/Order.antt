-- ===== src/EventBatcher/Order.antt =====
-- The order and the length of the batches of src/event_loop.rs.
use http.PendingWrite.{is_nil}
use http.Common.{
  All-append, false, ltb, length-append, append-nil, ◌&&◌, inr, append_assoc, sym, not, inl, arith,
  ◌∙◌, ℕ, ◌+◌, if◌then◌else◌, Bool-cases, true, ap, ◌≤◌, ◌≡◌, Bool, length, ◌++◌, All, List, refl,
  ◌∷◌, [],
}
use http.EventBatcher.{
  status_failed, status_closing, status_ok, Status, append_after, collect_all, append_atomic, flush,
  EventBatcher,
}
use http.EventGauge.{max_batch_size}

module _ {E : Type 0} where
  abbrev pub concat : List (List E) → List E
  concat [] = []
  concat (xs ∷ xss) = xs ++ concat xss

  -- The events of all batches that the sink was given.
  abbrev pub handed : List (Status × List E) → List E
  handed [] = []
  handed ((s, xs) ∷ rest) = xs ++ handed rest

  -- The events of the batches whose call was answered by `Ok`: what the application gets.
  abbrev pub received : List (Status × List E) → List E
  received [] = []
  received ((status_ok, xs) ∷ rest) = xs ++ received rest
  received ((status_closing, xs) ∷ rest) = received rest
  received ((status_failed, xs) ∷ rest) = received rest

  -- The events that went through the batcher: those handed to the sink, then the open batch.
  abbrev pub stream : EventBatcher E → List E
  stream b = handed b.emitted ++ b.batch

  handed-append :
      (xss yss : List (Status × List E)) → handed (xss ++ yss) ≡ handed xss ++ handed yss
  handed-append [] yss = refl
  handed-append ((s, xs) ∷ xss) yss =
      ap (λ t. xs ++ t) (handed-append xss yss) ∙ sym (append_assoc xs (handed xss) (handed yss))

  -- Every call was answered by `Ok`.
  abbrev pub AllOk : List (Status × List E) → Type 0
  AllOk [] = Unit {0}
  AllOk ((status_ok, xs) ∷ rest) = AllOk rest
  AllOk ((status_closing, xs) ∷ rest) = ⊥
  AllOk ((status_failed, xs) ∷ rest) = ⊥

  received-handed : (xss : List (Status × List E)) → AllOk xss → received xss ≡ handed xss
  received-handed [] a = refl
  received-handed ((status_ok, xs) ∷ rest) a = ap (λ t. xs ++ t) (received-handed rest a)
  received-handed ((status_closing, xs) ∷ rest) a = absurd a
  received-handed ((status_failed, xs) ∷ rest) a = absurd a

  -- No batch is above the cap.
  abbrev pub Capped : EventBatcher E → Type 0
  Capped b = All (λ x. length x.1 ≤ max_batch_size) b.emitted × (length b.batch ≤ max_batch_size)

  is_nil-[] : (xs : List E) → is_nil xs ≡ true → xs ≡ []
  is_nil-[] [] e = refl
  is_nil-[] (x ∷ xs) e = absurd (ground (arith, e))

  module _ (call : List (Status × List E) → List E → Status) where
    -- A flush hands over the batch and keeps the order.
    flush_lem :
        (b : EventBatcher E)
        → let (b', goes_on) = flush call b in
          (stream b' ≡ stream b) × (b'.batch ≡ []) × (Capped b → Capped b')
    unfolding flush
    flush_lem b = elim (Bool-cases (is_nil b.batch)) [
      | inl e ↦ rw e (refl, is_nil-[] b.batch e, λ c. c)
      | inr e ↦ rw e (
        append-nil _
            ∙ handed-append b.emitted ((call b.emitted b.batch, b.batch) ∷ [])
            ∙ ap (λ t. handed b.emitted ++ t) (append-nil b.batch),
        refl,
        λ c. (
          All-append (λ x. length x.1 ≤ max_batch_size) b.emitted
              ((call b.emitted b.batch, b.batch) ∷ []) c.0 (c.1, tt),
          omega arith,
        ),
      )
    ]

    -- What a group becomes: it is the whole end of the open batch, and the events before it are all
    -- those that came before; or the sink has asked to stop, and no event of the group is taken.
    abbrev pub Follows : EventBatcher E → List E → EventBatcher E × Bool → Type 0
    Follows b events x =
        (x.1 ≡ true
          → (front : List E) × (x.0.batch ≡ front ++ events)
            × (handed x.0.emitted ++ front ≡ stream b))
        × (x.1 ≡ false → (x.0.batch ≡ []) × (handed x.0.emitted ≡ stream b))
        × (length events ≤ max_batch_size → Capped b → Capped x.0)

    after-Follows :
        (b : EventBatcher E) (events : List E) (x : EventBatcher E × Bool)
        → stream x.0 ≡ stream b
        → (x.1 ≡ false → x.0.batch ≡ [])
        → (length events ≤ max_batch_size
            → Capped b
            → Capped x.0 × (length x.0.batch + length events ≤ max_batch_size))
        → Follows b events (append_after call events x)
    after-Follows b events (b', true) e z k = (
      (λ h. (b'.batch, refl, e)),
      (λ h. absurd (cc)),
      λ l c.
          let (capped, fits) = k l c in
          (capped.0, omega (arith, length-append b'.batch events, fits)),
    )
    after-Follows b events (b', false) e z k = (
      (λ h. absurd (cc)),
      (λ h. (
        z refl,
        sym (append-nil (handed b'.emitted)) ∙ ap (λ t. handed b'.emitted ++ t) (sym (z refl)) ∙ e,
      )),
      λ l c. (k l c).0,
    )

    -- A group of events stands whole at the end of one batch, behind all the events before it in
    -- their order; when the sink asks to stop, all the events before it have been handed to the sink
    -- and none of the group is taken. A batch stays under the cap if each group does.
    pub append_atomic-Follows :
        (b : EventBatcher E) (events : List E) → Follows b events (append_atomic call b events)
    unfolding append_atomic
    append_atomic-Follows b events = elim (Bool-cases (is_nil events)) [
      | inl e ↦ rw e (
        (λ h. (
          b.batch,
          sym (append-nil b.batch) ∙ ap (λ t. b.batch ++ t) (sym (is_nil-[] events e)),
          refl,
        )),
        (λ h. absurd (cc)),
        λ l c. c,
      )
      | inr e ↦
          rw e
            (elim (Bool-cases
              (not (is_nil b.batch) && ltb max_batch_size (length b.batch + length events))) [
                | inl f ↦
                    let (same, empty, capped) = flush_lem b in
                    rw f (
                      after-Follows b events (flush call b) same (λ h. empty)
                        (λ l c. (capped c, omega (arith, l, ap length empty))))
                | inr f ↦ rw f (
                    after-Follows b events (b, true) refl (λ h. absurd (cc))
                      (λ l c. (c, fits b.batch (length events) l f)))
              ])
    ]
      where
        fits :
            (batch : List E) (n : ℕ)
            → n ≤ max_batch_size
            → (not (is_nil batch) && ltb max_batch_size (length batch + n)) ≡ false
            → length batch + n ≤ max_batch_size
        fits [] n l f = omega (arith, l)
        fits (x ∷ xs) n l f = ground (arith, l, f)

    -- The groups that were taken: a front of all groups, and all of them if the loop goes on.
    abbrev pub Takes : EventBatcher E → List (List E) → EventBatcher E × Bool → Type 0
    Takes b groups x =
        (taken : List (List E)) × (others : List (List E)) × (groups ≡ taken ++ others)
        × (x.1 ≡ true → others ≡ [])
        × (stream x.0 ≡ stream b ++ concat taken)

    taken_more :
        (b : EventBatcher E) (events : List E) (groups : List (List E)) (x : EventBatcher E × Bool)
        → Follows b events x
        → Takes x.0 groups (collect_all call x.0 groups)
        → Takes b (events ∷ groups) (if x.1 then collect_all call x.0 groups else (x.0, false))
    taken_more b events groups (b', true) f (taken, others, e, n, s) =
        let (front, batch, before) = f.0 refl in
        (
          events ∷ taken,
          others,
          ap (λ g. events ∷ g) e,
          n,
          s
              ∙ ap (λ t. t ++ concat taken)
                  (ap (λ t. handed b'.emitted ++ t) batch
                    ∙ sym (append_assoc (handed b'.emitted) front events)
                    ∙ ap (λ t. t ++ events) before)
              ∙ append_assoc (stream b) events (concat taken),
        )
    taken_more b events groups (b', false) f k =
        let (empty, all) = f.1 refl in
        (
          [],
          events ∷ groups,
          refl,
          (λ h. absurd (cc)),
          ap (λ t. t ++ b'.batch) all ∙ ap (λ t. stream b ++ t) empty,
        )

    collect_all-Takes :
        (b : EventBatcher E) (groups : List (List E)) → Takes b groups (collect_all call b groups)
    collect_all-Takes b [] = ([], [], refl, (λ h. refl), sym (append-nil (stream b)))
    collect_all-Takes b (events ∷ groups) =
        taken_more b events groups (append_atomic call b events) (append_atomic-Follows b events)
          (collect_all-Takes (append_atomic call b events).0 groups)

    -- Over many turns, what was handed to the sink and the open batch after it are the events of a
    -- front of the collected groups, in order, behind those from before, and of all the groups if
    -- the sink has not asked to stop. If every call of the sink was answered by `Ok`, the same
    -- holds of what the application got.
    pub collect_all_lem :
        (b : EventBatcher E) (groups : List (List E))
        → let (b', goes_on) = collect_all call b groups in
          (taken : List (List E)) × (others : List (List E)) × (groups ≡ taken ++ others)
          × (goes_on ≡ true → others ≡ [])
          × (stream b' ≡ stream b ++ concat taken)
          × (AllOk b'.emitted → received b'.emitted ++ b'.batch ≡ stream b ++ concat taken)
    collect_all_lem b groups =
        let (taken, others, e, n, s) = collect_all-Takes b groups in
        let b' = (collect_all call b groups).0 in
        (taken, others, e, n, s, λ a. ap (λ t. t ++ b'.batch) (received-handed b'.emitted a) ∙ s)
