-- ===== src/Gateway/Client.antt =====
-- src/gateway/client.ts: the cursor of announced and reconciled generations, and the socket with its
-- reconnects. The functions of the library `@mineral/sync-core` on cursors are the record SyncCore.
pub mod Replies
pub mod Steps
pub mod Invariant
pub mod Leak
use mineral_obsidian_sync.Base.{
  ℕ, zero, suc, ◌+◌, ◌-◌, min, String, Bool, true, false, not, ◌&&◌, ◌||◌, Option, none, some, List,
  [], ◌∷◌, ◌==◌, keep, is_some, is_nonempty, if◌then◌else◌,
}
use mineral_obsidian_sync.Scheduler.Types.{RemoteChange}

pub record RemoteGenerationCursor : Type 0 where
  pub highest_announced : String
  pub last_reconciled : String

pub record SyncCore : Type 0 where
  -- `compareRemoteGeneration(a, b) > 0`, and whether `a` is the successor of `b`.
  pub is_after : String → String → Bool
  pub is_next : String → String → Bool
  pub advance : RemoteGenerationCursor → String → RemoteGenerationCursor
  -- `none` where the cursor is returned as it was.
  pub confirm : RemoteGenerationCursor → String → Option RemoteGenerationCursor
  pub is_pending : RemoteGenerationCursor → Bool
  pub empty : RemoteGenerationCursor
  pub parse : Option RemoteGenerationCursor → RemoteGenerationCursor

pub data GatewayErrorKind : Type 0 where
  transport timeout auth client server malformed misconfigured : GatewayErrorKind

pub data ConnectionState : Type 0 where
  disabled misconfigured connecting connected backoff stopped : ConnectionState

pub data Source : Type 0 where
  snapshot notification http : Source

pub record Announcement : Type 0 where
  pub generation : String
  pub source : Source
  pub changes : List RemoteChange

-- `settings()`
pub record ConnectionConfig : Type 0 where
  pub enabled : Bool
  pub endpoint : String
  pub token : String

-- A parsed frame.
pub data Frame : Type 0 where
  current_generation : String → Frame
  remote_change : String → List RemoteChange → Frame

-- A request for a ticket that is under way, with what it captured.
pub record TicketRequest : Type 0 where
  pub channel : String
  pub generation : ℕ

pub record GatewayClient : Type 0 where
  pub cursor : RemoteGenerationCursor
  pub state : ConnectionState
  pub channel : Option String
  pub config_generation : ℕ
  -- The socket that `this.socket` refers to.
  pub socket : Option ℕ
  -- `none` for -1.
  pub socket_generation : Option ℕ
  -- The delay of the timer that is set.
  pub reconnect_timer : Option ℕ
  pub reconnect_attempt : ℕ
  pub is_stopped : Bool
  pub visible : Bool
  pub last_error : Option GatewayErrorKind
  -- The sockets that are open, with their handlers in place.
  pub live : List ℕ
  pub opened : ℕ
  -- What is awaited: tickets, and loads of the stored cursor.
  pub tickets : List TicketRequest
  pub loads : List ℕ
  -- What the hooks were told, and what was saved.
  pub announced : List Announcement
  pub saved : List (String × RemoteGenerationCursor)

-- A client as it is constructed.
abbrev pub new_client : RemoteGenerationCursor → GatewayClient
new_client cursor = record {
  cursor = cursor;
  state = disabled;
  channel = none;
  config_generation = 0;
  socket = none;
  socket_generation = none;
  reconnect_timer = none;
  reconnect_attempt = 0;
  is_stopped = false;
  visible = true;
  last_error = none;
  live = [];
  opened = 0;
  tickets = [];
  loads = [];
  announced = [];
  saved = [];
}

abbrev pub is_current : GatewayClient → Bool
is_current g = elim g.socket_generation [ none ↦ false | some n ↦ n == g.config_generation ]

abbrev pub without_socket : Option ℕ → List ℕ → List ℕ
without_socket none live = live
without_socket (some id) live = keep (λ other. not (other == id)) live

unfoldable pub close_socket : GatewayClient → GatewayClient
close_socket g = record g {
  live = without_socket g.socket g.live;
  socket = none;
  socket_generation = none;
}

abbrev pub clear_reconnect : GatewayClient → GatewayClient
clear_reconnect g = record g { reconnect_timer = none }

abbrev pub fail : GatewayErrorKind → GatewayClient → GatewayClient
fail kind g = record g { last_error = some kind }

abbrev pub set_state : ConnectionState → GatewayClient → GatewayClient
set_state state g = record g { state = state }

-- `RECONNECT_DELAYS`, in milliseconds; later attempts take the last one.
unfoldable pub reconnect_delay : (attempt : ℕ) → ℕ
reconnect_delay attempt =
    if attempt == 0
    then 1000
    else if attempt == 1
    then 2000
    else if attempt == 2
    then 5000
    else if attempt == 3
    then 10000
    else 30000

unfoldable pub schedule_reconnect : GatewayClient → GatewayClient
unfolding close_socket reconnect_delay
schedule_reconnect g =
    if g.is_stopped || not g.visible
    then set_state (if g.is_stopped then stopped else disabled) g
    else record (close_socket g) {
      reconnect_attempt = suc g.reconnect_attempt;
      state = backoff;
      reconnect_timer = some (reconnect_delay g.reconnect_attempt);
    }

unfoldable pub open_socket_if_possible : ConnectionConfig → GatewayClient → GatewayClient
open_socket_if_possible config g = if g.is_stopped || not g.visible then g else elim g.channel [
  | none ↦ set_state ConnectionState.misconfigured g
  | some channel ↦
      if not config.enabled || not (is_nonempty config.endpoint) || not (is_nonempty config.token)
      then set_state disabled g
      else record g {
        state = connecting;
        tickets = record { channel = channel; generation = g.config_generation } ∷ g.tickets;
      }
]

-- After the ticket request: a ticket or none, and whether the socket could be constructed.
unfoldable pub ticket_fetched :
    TicketRequest → (has_ticket opens : Bool) → GatewayClient → GatewayClient
unfolding schedule_reconnect
ticket_fetched request has_ticket opens g =
    if g.is_stopped || not (g.config_generation == request.generation) || not g.visible
    then g
    else if not has_ticket
    then schedule_reconnect g
    else if not opens
    then schedule_reconnect (fail transport g)
    else record g {
      socket = some g.opened;
      socket_generation = some request.generation;
      live = g.opened ∷ g.live;
      opened = suc g.opened;
    }

unfoldable pub socket_opened : GatewayClient → GatewayClient
socket_opened g =
    if not (is_current g) then g else record g { reconnect_attempt = 0; state = connected }

abbrev is_socket : ℕ → Option ℕ → Bool
is_socket id none = false
is_socket id (some other) = id == other

-- `socket.onclose`
unfoldable pub socket_closed : (id : ℕ) → GatewayClient → GatewayClient
unfolding schedule_reconnect
socket_closed id g =
    let gone = record g {
      live = keep (λ other. not (other == id)) g.live;
      socket = if is_socket id g.socket then none else g.socket;
    } in
    if g.is_stopped || not (is_current g) then gone else schedule_reconnect gone

unfoldable pub set_visible : (visible : Bool) → ConnectionConfig → GatewayClient → GatewayClient
unfolding close_socket open_socket_if_possible
set_visible true config g =
    if g.visible then g else open_socket_if_possible config (record g { visible = true })
set_visible false config g =
    if not g.visible then g else record (clear_reconnect (close_socket g)) {
      visible = false;
      state = if g.is_stopped then stopped else disabled;
    }

unfoldable pub stop : GatewayClient → GatewayClient
unfolding close_socket
stop g = record (clear_reconnect (close_socket g)) { is_stopped = true; state = stopped }

unfoldable pub reconnect_now : ConnectionConfig → GatewayClient → GatewayClient
unfolding open_socket_if_possible
reconnect_now config g =
    open_socket_if_possible config (record (clear_reconnect g) { reconnect_attempt = 0 })

unfoldable pub timer_fires : ConnectionConfig → GatewayClient → GatewayClient
unfolding open_socket_if_possible
timer_fires config g = open_socket_if_possible config (clear_reconnect g)

module _ (core : SyncCore) where
  unfoldable pub announce : String → Source → List RemoteChange → GatewayClient → GatewayClient
  announce generation source changes g =
      let advanced = core.is_after generation g.cursor.highest_announced in
      let next = record g { cursor = core.advance g.cursor generation } in
      if not advanced then next else record next {
        announced =
            record { generation = generation; source = source; changes = changes } ∷ g.announced;
      }

  abbrev announce_frame : Option Frame → GatewayClient → GatewayClient
  announce_frame none g = g
  announce_frame (some (current_generation n)) g = announce n snapshot [] g
  announce_frame (some (remote_change n changes)) g = announce n notification changes g

  -- `onSocketMessage`, with what the frame is parsed to.
  unfoldable pub socket_message : Option Frame → GatewayClient → GatewayClient
  unfolding announce
  socket_message frame g = if g.is_stopped || not (is_current g) then g else announce_frame frame g

  -- `configure`, up to the load of the stored cursor.
  unfoldable pub configure :
      (channel : Option String) → (initial : Bool) → GatewayClient → GatewayClient
  unfolding close_socket
  configure channel initial g =
      let fenced = record (clear_reconnect (close_socket g)) {
        config_generation = suc g.config_generation;
        channel = channel;
        reconnect_attempt = 0;
        cursor = if initial then core.empty else g.cursor;
      } in
      elim channel [
        | none ↦ set_state (if g.is_stopped then stopped else ConnectionState.misconfigured) fenced
        | some _ ↦ record fenced { loads = suc g.config_generation ∷ g.loads }
      ]

  -- The rest of it; a load that failed is one that found nothing.
  unfoldable pub cursor_loaded :
      (generation : ℕ)
      → Option RemoteGenerationCursor
      → ConnectionConfig
      → GatewayClient
      → GatewayClient
  unfolding open_socket_if_possible
  cursor_loaded generation stored config g =
      if not (g.config_generation == generation)
      then g
      else open_socket_if_possible config (record g {
        cursor = core.parse stored;
        state = if g.is_stopped then stopped else if g.visible then connecting else disabled;
      })

  abbrev save : Option String → RemoteGenerationCursor → GatewayClient → GatewayClient
  save none cursor g = g
  save (some channel) cursor g = record g { saved = (channel, cursor) ∷ g.saved }

  unfoldable pub confirm_reconciled : String → GatewayClient → GatewayClient
  confirm_reconciled generation g = elim (core.confirm g.cursor generation) [
    | none ↦ g
    | some next ↦ save g.channel next (record g { cursor = next })
  ]

  unfoldable pub can_apply_incrementally : String → GatewayClient → Bool
  can_apply_incrementally generation g =
      g.visible
      && core.is_after generation g.cursor.last_reconciled
      && core.is_next generation g.cursor.last_reconciled
