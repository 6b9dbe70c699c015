-- ===== src/Client/CallbackService/Delivery.antt =====
-- What a call of run delivers, and what stays (rubetek/client/client/impl/callback_service.cpp).
use rubetek_ios_cpp_releases.Prelude.{
  ◌≡◌, refl, sym, ap, ◌∙◌, ◌⊎◌, inl, inr, Bool, Bool-cases, List, [], ◌∷◌, ◌++◌, map, append-nil,
  append_assoc, none, some, if◌then◌else◌,
}
use rubetek_ios_cpp_releases.Client.Action.{Result, returned, thrown, ◌>>◌}
use rubetek_ios_cpp_releases.Client.CallbackService.{
  Call, event, on_properties_received, on_module_command, on_server_directly, on_server_auxiliary,
  Slots, CallbackService, run_events, run_queue, events_loop, properties_loop, commands_loop,
  directly_loop, auxiliary_loop, run, Run,
}

module _ {A : Type 0} where
  abbrev pub pending_events : Slots A → List (Call A)
  pending_events [] = []
  pending_events (none ∷ es) = pending_events es
  pending_events (some (e, a) ∷ es) = event e a ∷ pending_events es

  abbrev pub last_calls : CallbackService A → List (Call A)
  last_calls s = map on_server_auxiliary s.server_auxiliary_packets

  abbrev pub server_calls : CallbackService A → List (Call A)
  server_calls s = map on_server_directly s.server_directly_packets ++ last_calls s

  abbrev pub command_calls : CallbackService A → List (Call A)
  command_calls s = map on_module_command s.module_commands ++ server_calls s

  abbrev pub queued_calls : CallbackService A → List (Call A)
  queued_calls s = map on_properties_received s.property_blocks ++ command_calls s

  -- The calls that wait, in the order in which run makes them.
  abbrev pub pending : CallbackService A → List (Call A)
  pending s = pending_events s.events ++ queued_calls s

  -- What waits after a call has thrown: an event does not wait again, a queued call does.
  abbrev pub left_by : Call A → List (Call A) → List (Call A)
  left_by (event e a) cs = cs
  left_by (on_properties_received a) cs = on_properties_received a ∷ cs
  left_by (on_module_command a) cs = on_module_command a ∷ cs
  left_by (on_server_directly a) cs = on_server_directly a ∷ cs
  left_by (on_server_auxiliary a) cs = on_server_auxiliary a ∷ cs

  module _ (throws : Call A → Bool) where
    -- The calls that are made of those that wait, and those that wait then: up to the first that
    -- throws.
    abbrev pub deliver : List (Call A) → List (Call A) × List (Call A)
    deliver [] = ([], [])
    deliver (c ∷ cs) =
        let (made, left) = deliver cs in
        if throws c then (c ∷ [], left_by c cs) else (c ∷ made, left)

    -- A part of the calls has been gone through.
    abbrev IsDone : List (Call A) → List (Call A) → List (Call A) → Result (Unit {0}) → Type 0
    IsDone part left calls r =
        (rest : List (Call A))
        → ((r ≡ returned tt)
            × (left ≡ [])
            × (deliver (part ++ rest) ≡ (calls ++ (deliver rest).0, (deliver rest).1)))
          ⊎ ((r ≡ thrown) × (deliver (part ++ rest) ≡ (calls, left ++ rest)))

    run_events-IsDone :
        (es : Slots A)
        → let (es', calls, r) = run_events throws es in
          IsDone (pending_events es) (pending_events es') calls r
    unfolding run_events
    run_events-IsDone [] rest = inl (refl, refl, refl)
    run_events-IsDone (none ∷ es) rest = run_events-IsDone es rest
    run_events-IsDone (some (e, a) ∷ es) rest = elim (Bool-cases (throws (event e a))) [
      | inl t ↦ rw t (inr (refl, refl))
      | inr n ↦ elim (run_events-IsDone es rest) [
        | inl (ended, empty, d) ↦ rw n (inl (ended, empty, rw d refl))
        | inr (raised, d) ↦ rw n (inr (raised, rw d refl))
      ]
    ]

    run_queue-IsDone :
        (call : A → Call A) (q : List A)
        → ((a : A) (cs : List (Call A)) → left_by (call a) cs ≡ call a ∷ cs)
        → let (q', calls, r) = run_queue throws call q in IsDone (map call q) (map call q') calls r
    unfolding run_queue
    run_queue-IsDone call [] waits rest = inl (refl, refl, refl)
    run_queue-IsDone call (a ∷ q) waits rest = elim (Bool-cases (throws (call a))) [
      | inl t ↦ rw (t, waits a (map call q ++ rest)) (inr (refl, refl))
      | inr n ↦ elim (run_queue-IsDone call q waits rest) [
        | inl (ended, empty, d) ↦ rw n (inl (ended, empty, rw d refl))
        | inr (raised, d) ↦ rw n (inr (raised, rw d refl))
      ]
    ]

    -- A loop of run, begun where `P` holds: it goes on where `Q` holds, or ends with what waits.
    abbrev Delivers :
        (CallbackService A → Type 0) → (CallbackService A → Type 0) → Run throws → Type 0
    Delivers P Q m =
        (s : CallbackService A)
        → P s
        → let (s', calls, r) = m s in
          ((r ≡ returned tt)
            × Q s'
            × (deliver (pending s) ≡ (calls ++ (deliver (pending s')).0, (deliver (pending s')).1)))
          ⊎ ((r ≡ thrown) × (deliver (pending s) ≡ (calls, pending s')))

    bind-Delivers :
        (P Q R : CallbackService A → Type 0) (m k : Run throws)
        → Delivers P Q m
        → Delivers Q R k
        → Delivers P R (m >> k)
    bind-Delivers P Q R m k hm hk s p = elim (hm s p) [
      | inl (e, q, d) ↦ elim (hk (m s).0 q) [
        | inl (e', r, d') ↦
            let last = deliver (pending (k (m s).0).0) in
            rw e (
              inl (
                e',
                r,
                d
                    ∙ ap (λ x. ((m s).1 ++ x.0, x.1)) d'
                    ∙ ap (λ l. (l, last.1)) (sym (append_assoc (m s).1 (k (m s).0).1 last.0)),
              ))
        | inr (e', d') ↦ rw e (inr (e', d ∙ ap (λ x. ((m s).1 ++ x.0, x.1)) d'))
      ]
      | inr (e, d) ↦ rw e (inr (refl, d))
    ]

    abbrev NoEvents : CallbackService A → Type 0
    NoEvents s = pending_events s.events ≡ []

    abbrev NoProperties : CallbackService A → Type 0
    NoProperties s = NoEvents s × (map on_properties_received s.property_blocks ≡ [])

    abbrev NoCommands : CallbackService A → Type 0
    NoCommands s = NoProperties s × (map on_module_command s.module_commands ≡ [])

    abbrev NoDirectly : CallbackService A → Type 0
    NoDirectly s = NoCommands s × (map on_server_directly s.server_directly_packets ≡ [])

    abbrev NoneLeft : CallbackService A → Type 0
    NoneLeft s = NoDirectly s × (map on_server_auxiliary s.server_auxiliary_packets ≡ [])

    events_loop-Delivers : Delivers (λ s. Unit {0}) NoEvents (events_loop throws)
    unfolding events_loop
    events_loop-Delivers s p = elim (run_events-IsDone s.events (queued_calls s)) [
      | inl (e, empty, d) ↦ inl (e, empty, rw empty d)
      | inr (e, d) ↦ inr (e, d)
    ]

    properties_loop-Delivers : Delivers NoEvents NoProperties (properties_loop throws)
    unfolding properties_loop
    properties_loop-Delivers s p =
        elim (run_queue-IsDone on_properties_received s.property_blocks (λ a cs. refl)
          (command_calls s)) [
            | inl (e, empty, d) ↦ inl (e, (p, empty), rw (p, empty) d)
            | inr (e, d) ↦ inr (e, rw p d)
          ]

    commands_loop-Delivers : Delivers NoProperties NoCommands (commands_loop throws)
    unfolding commands_loop
    commands_loop-Delivers s (p, q) =
        elim (run_queue-IsDone on_module_command s.module_commands (λ a cs. refl)
          (server_calls s)) [
            | inl (e, empty, d) ↦ inl (e, ((p, q), empty), rw (p, q, empty) d)
            | inr (e, d) ↦ inr (e, rw (p, q) d)
          ]

    directly_loop-Delivers : Delivers NoCommands NoDirectly (directly_loop throws)
    unfolding directly_loop
    directly_loop-Delivers s ((p, q), c) =
        elim (run_queue-IsDone on_server_directly s.server_directly_packets (λ a cs. refl)
          (last_calls s)) [
            | inl (e, empty, d) ↦ inl (e, (((p, q), c), empty), rw (p, q, c, empty) d)
            | inr (e, d) ↦ inr (e, rw (p, q, c) d)
          ]

    whole :
        (s : CallbackService A)
        → let last = map on_server_auxiliary s.server_auxiliary_packets in
          deliver last ≡ deliver (last ++ [])
    whole s = ap deliver (sym (append-nil (map on_server_auxiliary s.server_auxiliary_packets)))

    auxiliary_loop-Delivers : Delivers NoDirectly NoneLeft (auxiliary_loop throws)
    unfolding auxiliary_loop
    auxiliary_loop-Delivers s (((p, q), c), l) =
        elim (run_queue-IsDone on_server_auxiliary s.server_auxiliary_packets (λ a cs. refl) []) [
          | inl (e, empty, d) ↦
              inl (e, ((((p, q), c), l), empty), rw (p, q, c, l, empty) (whole s ∙ d))
          | inr (e, d) ↦
              let (s', calls, r) = auxiliary_loop throws s in
              inr (
                e,
                rw (p, q, c, l) (whole s ∙ d ∙ ap (λ x. (calls, x)) (append-nil (last_calls s'))),
              )
        ]

    empty_lem : (s : CallbackService A) → NoneLeft s → pending s ≡ []
    empty_lem s ((((p, q), c), l), e) = rw (p, q, c, l, e) refl

    -- A call of run makes the calls that wait, the events by their places and then the queues in
    -- order, up to the first that ends in an exception. Those behind it stay, and so does the call
    -- itself, unless it is an event.
    pub run_lem :
        (s : CallbackService A)
        → let (s', calls, r) = run throws s in
          (calls ≡ (deliver (pending s)).0) × (pending s' ≡ (deliver (pending s)).1)
    unfolding run
    run_lem s =
        let from_directly =
          bind-Delivers NoCommands NoDirectly NoneLeft (directly_loop throws)
            (auxiliary_loop throws) directly_loop-Delivers auxiliary_loop-Delivers in
        let from_commands =
          bind-Delivers NoProperties NoCommands NoneLeft (commands_loop throws)
            (directly_loop throws >> auxiliary_loop throws) commands_loop-Delivers from_directly in
        let from_properties =
          bind-Delivers NoEvents NoProperties NoneLeft (properties_loop throws)
            (commands_loop throws >> (directly_loop throws >> auxiliary_loop throws))
            properties_loop-Delivers from_commands in
        let whole_run =
          bind-Delivers (λ t. Unit {0}) NoEvents NoneLeft (events_loop throws)
            (properties_loop throws
              >> (commands_loop throws >> (directly_loop throws >> auxiliary_loop throws)))
            events_loop-Delivers from_properties in
        elim (whole_run s tt) [
          | inl (e, none_left, d) ↦
              let (s', calls, r) = run throws s in
              let d' : deliver (pending s) ≡ (calls, []) =
                d ∙ rw (empty_lem s' none_left) (ap (λ x. (x, [])) (append-nil calls)) in
              (ap (λ x. x.0) (sym d'), empty_lem s' none_left ∙ ap (λ x. x.1) (sym d'))
          | inr (e, d) ↦ (ap (λ x. x.0) (sym d), ap (λ x. x.1) (sym d))
        ]
