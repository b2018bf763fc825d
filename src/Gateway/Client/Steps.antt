-- ===== src/Gateway/Client/Steps.antt =====
-- The operations of src/gateway/client.ts as steps, what holds after any of them, and what a change of
-- channel and a stop leave behind.
use mineral_obsidian_sync.Base.{
  ℕ, String, Bool, true, false, ◌≡◌, Option, none, some, is_some, List, ◌∷◌, ◌++◌, arith,
}
use mineral_obsidian_sync.Scheduler.Types.{RemoteChange}
use mineral_obsidian_sync.Gateway.Client.{
  SyncCore, RemoteGenerationCursor, GatewayClient, ConnectionConfig, Source, Frame, TicketRequest,
  stopped, current_generation, remote_change, close_socket, ticket_fetched, socket_opened,
  socket_closed, set_visible, stop, reconnect_now, timer_fires, announce, socket_message, configure,
  cursor_loaded, confirm_reconciled,
}

-- Nothing is open, nothing is due, and nothing more was opened.
abbrev pub IsStopped : ℕ → GatewayClient → Type 0
IsStopped n g =
    (g.is_stopped ≡ true)
    × (g.state ≡ stopped)
    × (g.socket ≡ none)
    × (g.socket_generation ≡ none)
    × (g.reconnect_timer ≡ none)
    × (g.opened ≡ n)

module _ (core : SyncCore) where
  pub data Step : GatewayClient → GatewayClient → Type 0 where
    configures :
        (channel : Option String) (initial : Bool) {g : GatewayClient}
        → Step g (configure core channel initial g)
    -- The oldest loads and tickets need not be the first that are answered.
    loads :
        (before after : List ℕ) (generation : ℕ) (stored : Option RemoteGenerationCursor)
        (config : ConnectionConfig) {g : GatewayClient}
        → g.loads ≡ before ++ generation ∷ after
        → Step g
            (cursor_loaded core generation stored config (record g { loads = before ++ after }))
    fetches :
        (before after : List TicketRequest) (request : TicketRequest) (has_ticket can_open : Bool)
        {g : GatewayClient}
        → g.tickets ≡ before ++ request ∷ after
        → Step g
            (ticket_fetched request has_ticket can_open (record g { tickets = before ++ after }))
    opens : {g : GatewayClient} → Step g (socket_opened g)
    closes : (id : ℕ) {g : GatewayClient} → Step g (socket_closed id g)
    receives : (frame : Option Frame) {g : GatewayClient} → Step g (socket_message core frame g)
    answers :
        (generation : String) (source : Source) (changes : List RemoteChange) {g : GatewayClient}
        → Step g (announce core generation source changes g)
    confirms :
        (generation : String) {g : GatewayClient} → Step g (confirm_reconciled core generation g)
    shows :
        (visible : Bool) (config : ConnectionConfig) {g : GatewayClient}
        → Step g (set_visible visible config g)
    stops : {g : GatewayClient} → Step g (stop g)
    reconnects : (config : ConnectionConfig) {g : GatewayClient} → Step g (reconnect_now config g)
    fires :
        (config : ConnectionConfig) {g : GatewayClient}
        → is_some g.reconnect_timer ≡ true
        → Step g (timer_fires config g)

  pub data Steps (g : GatewayClient) : GatewayClient → Type 0 where
    start : Steps g g
    next : {h i : GatewayClient} → Steps g h → Step h i → Steps g i

  confirm-IsStopped :
      (generation : String) (n : ℕ) (g : GatewayClient)
      → IsStopped n g
      → IsStopped n (confirm_reconciled core generation g)
  unfolding confirm_reconciled
  confirm-IsStopped generation n g s = ground (arith, s)

  step-IsStopped : {g h : GatewayClient} (n : ℕ) → Step g h → IsStopped n g → IsStopped n h
  unfolding configure close_socket cursor_loaded ticket_fetched socket_opened socket_closed
      socket_message announce set_visible stop reconnect_now timer_fires
  step-IsStopped n (configures none initial) s = ground (arith, s)
  step-IsStopped n (configures (some channel) initial) s = ground (arith, s)
  step-IsStopped n (loads before after generation stored config e) s = ground (arith, s)
  step-IsStopped n (fetches before after request has_ticket can_open e) s = ground (arith, s)
  step-IsStopped n opens s = ground (arith, s)
  step-IsStopped n (closes id) s = ground (arith, s)
  step-IsStopped n (receives frame) s = ground (arith, s)
  step-IsStopped n (answers generation source changes) s = ground (arith, s)
  step-IsStopped n (confirms generation) s = confirm-IsStopped generation n _ s
  step-IsStopped n (shows true config) s = ground (arith, s)
  step-IsStopped n (shows false config) s = ground (arith, s)
  step-IsStopped n stops s = ground (arith, s)
  step-IsStopped n (reconnects config) s = ground (arith, s)
  step-IsStopped n (fires config _) s = ground (arith, s)

  -- A client that was stopped stays so, whatever happens: it refers to no socket, no reconnect is due, and
  -- no socket is opened any more.
  pub stop-IsStopped :
      (g : GatewayClient) {h : GatewayClient} → Steps (stop g) h → IsStopped g.opened h
  unfolding stop
  stop-IsStopped g start = ground arith
  stop-IsStopped g (next steps step) = step-IsStopped g.opened step (stop-IsStopped g steps)

  -- The steps at which the generation that counts as reconciled may change.
  abbrev pub reconciles : {g h : GatewayClient} → Step g h → Bool
  reconciles (configures channel initial) = initial
  reconciles (loads before after generation stored config e) = true
  reconciles (confirms generation) = true
  reconciles _ = false

  -- Nothing that the gateway says, over a socket or in an answer, and no connection that opens or closes
  -- moves the generation that counts as reconciled, nor what is stored. That changes where a cycle is
  -- confirmed and where a cursor is loaded or emptied. This is given that an announced generation leaves
  -- the reconciled one as it is.
  pub step-last_reconciled :
      {g h : GatewayClient} (step : Step g h)
      → ((cursor : RemoteGenerationCursor) (generation : String)
          → (core.advance cursor generation).last_reconciled ≡ cursor.last_reconciled)
      → reconciles step ≡ false
      → (h.cursor.last_reconciled ≡ g.cursor.last_reconciled) × (h.saved ≡ g.saved)
  unfolding configure close_socket ticket_fetched socket_opened socket_closed socket_message
      announce set_visible stop reconnect_now timer_fires
  step-last_reconciled (configures none initial) keeps e = ground (arith, e)
  step-last_reconciled (configures (some channel) initial) keeps e = ground (arith, e)
  step-last_reconciled (loads before after generation stored config _) keeps e = ground (arith, e)
  step-last_reconciled (fetches before after request has_ticket can_open _) keeps e =
      ground (arith, e)
  step-last_reconciled opens keeps e = ground (arith, e)
  step-last_reconciled (closes id) keeps e = ground (arith, e)
  step-last_reconciled {g = g} (receives none) keeps e = ground (arith, e)
  step-last_reconciled {g = g} (receives (some (current_generation n))) keeps e =
      ground (arith, keeps g.cursor n)
  step-last_reconciled {g = g} (receives (some (remote_change n _))) keeps e =
      ground (arith, keeps g.cursor n)
  step-last_reconciled {g = g} (answers generation source changes) keeps e =
      ground (arith, keeps g.cursor generation)
  step-last_reconciled (confirms generation) keeps e = ground (arith, e)
  step-last_reconciled (shows true config) keeps e = ground (arith, e)
  step-last_reconciled (shows false config) keeps e = ground (arith, e)
  step-last_reconciled stops keeps e = ground (arith, e)
  step-last_reconciled (reconnects config) keeps e = ground (arith, e)
  step-last_reconciled (fires config _) keeps e = ground (arith, e)
