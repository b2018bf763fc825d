-- ===== src/Gateway/Client/Invariant.antt =====
-- What holds of a client of src/gateway/client.ts at any time, and that a connection which was asked for
-- before a change of channel comes to nothing after it.
use mineral_obsidian_sync.Base.{
  ℕ, suc, ◌≤◌, ◌<◌, String, Bool, true, false, ◌≡◌, refl, subst, Option, none, some, List, [], ◌∷◌,
  ◌++◌, arith, Memᴰ, All, All-mem,
}
use mineral_obsidian_sync.Gateway.Client.{
  SyncCore, RemoteGenerationCursor, GatewayClient, TicketRequest, close_socket, ticket_fetched,
  socket_opened, socket_closed, set_visible, stop, reconnect_now, timer_fires, announce,
  socket_message, configure, cursor_loaded, confirm_reconciled, new_client,
}
use mineral_obsidian_sync.Gateway.Client.Steps.{
  Step, configures, loads, fetches, opens, closes, receives, answers, confirms, shows, stops,
  reconnects, fires, Steps, start, next,
}

-- A connection that is referred to, or due, is one of a visible client that was not stopped, under its
-- present channel, and is open.
abbrev pub Linked : GatewayClient → Type 0
Linked g =
    (id : ℕ)
    → g.socket ≡ some id
    → (g.is_stopped ≡ false)
      × (g.visible ≡ true)
      × (g.socket_generation ≡ some g.config_generation)
      × Memᴰ id g.live

abbrev pub Timed : GatewayClient → Type 0
Timed g =
    (delay : ℕ)
    → g.reconnect_timer ≡ some delay
    → (g.is_stopped ≡ false) × (g.visible ≡ true) × (1000 ≤ delay) × (delay ≤ 30000)

abbrev pub AskedBy : ℕ → List TicketRequest → Type 0
AskedBy n tickets = All (λ request. request.generation ≤ n) tickets

abbrev pub WellFormed : GatewayClient → Type 0
WellFormed g = Linked g × Timed g × AskedBy g.config_generation g.tickets

AskedBy-later :
    (n m : ℕ) (tickets : List TicketRequest) → n ≤ m → AskedBy n tickets → AskedBy m tickets
AskedBy-later n m [] h w = tt
AskedBy-later n m (t ∷ ts) h (p, w) = (omega (arith, h, p), AskedBy-later n m ts h w)

AskedBy-removed :
    (n : ℕ) (before after : List TicketRequest) (request : TicketRequest)
    → AskedBy n (before ++ request ∷ after)
    → (request.generation ≤ n) × AskedBy n (before ++ after)
AskedBy-removed n [] after request (p, w) = (p, w)
AskedBy-removed n (t ∷ before) after request (p, w) =
    let rest = AskedBy-removed n before after request w in (rest.0, (p, rest.1))

fetched-WellFormed :
    (request : TicketRequest) (has_ticket can_open : Bool) (g : GatewayClient)
    → WellFormed g
    → WellFormed (ticket_fetched request has_ticket can_open g)
unfolding ticket_fetched
fetched-WellFormed request has_ticket can_open g (l, t, a) =
    let opened_is_live : (id : ℕ) → id ≡ g.opened → Memᴰ id (g.opened ∷ g.live) =
      λ id e. Memᴰ.head e in
    (
      λ id e. ground (arith, e, l id, t, opened_is_live id),
      λ delay e. ground (arith, e, t delay),
      ground (arith, a),
    )

module _ (core : SyncCore) where
  step-WellFormed : {g h : GatewayClient} → Step core g h → WellFormed g → WellFormed h
  unfolding configure close_socket cursor_loaded ticket_fetched socket_opened socket_closed
      socket_message announce set_visible stop reconnect_now timer_fires confirm_reconciled
  step-WellFormed (configures none initial) (l, t, a) =
      (λ id e. cc, λ delay e. cc, AskedBy-later _ _ _ (omega arith) a)
  step-WellFormed (configures (some channel) initial) (l, t, a) =
      (λ id e. cc, λ delay e. cc, AskedBy-later _ _ _ (omega arith) a)
  step-WellFormed (loads before after generation stored config q) (l, t, a) =
      (λ id e. ground (arith, e, l id, t), λ delay e. ground (arith, e, t delay), ground (arith, a))
  step-WellFormed {g = g} (fetches before after request has_ticket can_open q) (l, t, a) =
      fetched-WellFormed request has_ticket can_open (record g { tickets = before ++ after })
        (
          l,
          t,
          (AskedBy-removed g.config_generation before after request
              (subst (AskedBy g.config_generation) q a)).1,
        )
  step-WellFormed opens (l, t, a) =
      (λ id e. ground (arith, e, l id, t), λ delay e. ground (arith, e, t delay), ground (arith, a))
  step-WellFormed (closes id) (l, t, a) =
      (λ id e. ground (arith, e, l id, t), λ delay e. ground (arith, e, t delay), ground (arith, a))
  step-WellFormed (receives framq) (l, t, a) =
      (λ id e. ground (arith, e, l id, t), λ delay e. ground (arith, e, t delay), ground (arith, a))
  step-WellFormed (answers generation source changes) (l, t, a) =
      (λ id e. ground (arith, e, l id, t), λ delay e. ground (arith, e, t delay), ground (arith, a))
  step-WellFormed (confirms generation) (l, t, a) =
      (λ id e. ground (arith, e, l id, t), λ delay e. ground (arith, e, t delay), ground (arith, a))
  step-WellFormed (shows true config) (l, t, a) =
      (λ id e. ground (arith, e, l id, t), λ delay e. ground (arith, e, t delay), ground (arith, a))
  step-WellFormed (shows false config) (l, t, a) =
      (λ id e. ground (arith, e, l id, t), λ delay e. ground (arith, e, t delay), ground (arith, a))
  step-WellFormed stops (l, t, a) =
      (λ id e. ground (arith, e, l id, t), λ delay e. ground (arith, e, t delay), ground (arith, a))
  step-WellFormed (reconnects config) (l, t, a) =
      (λ id e. ground (arith, e, l id, t), λ delay e. ground (arith, e, t delay), ground (arith, a))
  step-WellFormed (fires config _) (l, t, a) =
      (λ id e. ground (arith, e, l id, t), λ delay e. ground (arith, e, t delay), ground (arith, a))

  -- At any time, the socket that the client refers to is open, was opened under its present channel, and
  -- the client is visible and was not stopped. A reconnect is due only for such a client, after 1 to 30
  -- seconds. No ticket was asked for under a later configuration than the present one.
  pub Steps-WellFormed :
      (cursor : RemoteGenerationCursor) {g : GatewayClient}
      → Steps core (new_client cursor) g
      → WellFormed g
  Steps-WellFormed cursor start = (λ id e. cc, λ delay e. cc, tt)
  Steps-WellFormed cursor (next steps step) = step-WellFormed step (Steps-WellFormed cursor steps)

  step-config_generation :
      {g h : GatewayClient} → Step core g h → g.config_generation ≤ h.config_generation
  unfolding configure close_socket cursor_loaded ticket_fetched socket_opened socket_closed
      socket_message announce set_visible stop reconnect_now timer_fires confirm_reconciled
  step-config_generation (configures none initial) = ground arith
  step-config_generation (configures (some channel) initial) = ground arith
  step-config_generation (loads before after generation stored config q) = ground arith
  step-config_generation (fetches before after request has_ticket can_open q) = ground arith
  step-config_generation opens = ground arith
  step-config_generation (closes id) = ground arith
  step-config_generation (receives frame) = ground arith
  step-config_generation (answers generation source changes) = ground arith
  step-config_generation (confirms generation) = ground arith
  step-config_generation (shows true config) = ground arith
  step-config_generation (shows false config) = ground arith
  step-config_generation stops = ground arith
  step-config_generation (reconnects config) = ground arith
  step-config_generation (fires config _) = ground arith

  Steps-config_generation :
      {g h : GatewayClient} → Steps core g h → g.config_generation ≤ h.config_generation
  Steps-config_generation start = omega arith
  Steps-config_generation (next steps step) =
      omega (arith, Steps-config_generation steps, step-config_generation step)

  fetched-superseded :
      (request : TicketRequest) (has_ticket can_open : Bool) (h : GatewayClient)
      → request.generation < h.config_generation
      → ticket_fetched request has_ticket can_open h ≡ h
  unfolding ticket_fetched
  fetched-superseded request has_ticket can_open h e = ground (arith, e)

  configure-later :
      (channel : Option String) (initial : Bool) (g : GatewayClient)
      → (configure core channel initial g).config_generation ≡ suc g.config_generation
  unfolding configure
  configure-later none initial g = refl
  configure-later (some channel) initial g = refl

  -- A ticket that was under way when the channel was configured changes nothing, however late it comes and
  -- whatever it yields: no socket of the former channel is opened.
  pub ticket_fetched-superseded :
      (cursor : RemoteGenerationCursor) {g : GatewayClient}
      → Steps core (new_client cursor) g
      → (request : TicketRequest) → Memᴰ request g.tickets
      → (channel : Option String) (initial : Bool) {h : GatewayClient}
      → Steps core (configure core channel initial g) h
      → (has_ticket can_open : Bool) → ticket_fetched request has_ticket can_open h ≡ h
  ticket_fetched-superseded cursor {g = g} reach request m channel initial {h = h} steps has can =
      let bound : request.generation ≤ g.config_generation =
        All-mem (λ r. r.generation ≤ g.config_generation) g.tickets
          (Steps-WellFormed cursor reach).2 m in
      fetched-superseded request has can h
        (omega (arith, bound, Steps-config_generation steps, configure-later channel initial g))
