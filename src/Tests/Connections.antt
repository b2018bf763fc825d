-- ===== src/Tests/Connections.antt =====
-- The gateway client in a session: a channel, a ticket, a socket, a change of channel, and a stop.
use mineral_obsidian_sync.Base.{
  arith, suc, String, Bool, true, false, ◌≡◌, refl, none, some, [], ◌∷◌, ◌==◌, ltb, Memᴰ, length,
  if◌then◌else◌,
}
use mineral_obsidian_sync.Conflict.Units.{units}
use mineral_obsidian_sync.Gateway.Client.{
  SyncCore, GatewayClient, ConnectionState, ConnectionConfig, http, current_generation,
  TicketRequest, new_client, configure, cursor_loaded, ticket_fetched, socket_opened,
  socket_message, announce, stop, set_visible,
}
use mineral_obsidian_sync.Gateway.Client.Replies.{
  answered, Outcome, mark_remote_dirty, mark_remote_dirty-Outcome,
}
use mineral_obsidian_sync.Gateway.Client.Steps.{
  Steps, start, next, configures, loads, fetches, opens, receives, answers, shows, IsStopped,
  stop-IsStopped, step-last_reconciled,
}
use mineral_obsidian_sync.Gateway.Client.Invariant.{
  WellFormed, Steps-WellFormed, ticket_fetched-superseded,
}

abbrev later : String → String → Bool
later a b = ltb (length (units b)) (length (units a))

-- Generations by the number of their letters.
abbrev core : SyncCore
core = record {
  is_after = later;
  is_next = λ a b. length (units a) == suc (length (units b));
  advance = λ c generation.
      if later generation c.highest_announced
      then record c { highest_announced = generation }
      else c;
  confirm = λ c generation.
      if later generation c.last_reconciled
      then some (record c { last_reconciled = generation })
      else none;
  is_pending = λ c. later c.highest_announced c.last_reconciled;
  empty = record { highest_announced = ""; last_reconciled = "" };
  parse =
      λ c. elim c [ none ↦ record { highest_announced = ""; last_reconciled = "" } | some d ↦ d ];
}

abbrev config : ConnectionConfig
config = record { enabled = true; endpoint = "https://g"; token = "t" }

abbrev fresh : GatewayClient
fresh = new_client core.empty

abbrev asked : TicketRequest
asked = record { channel = "a"; generation = 1 }

-- With a channel, its cursor loaded, and a ticket under way.
abbrev loaded : GatewayClient
loaded =
    cursor_loaded core 1 none config (record (configure core (some "a") true fresh) { loads = [] })

loaded_run : loaded.tickets ≡ asked ∷ []
unfolding configure cursor_loaded
loaded_run = refl

loading : Steps core fresh loaded
unfolding configure
loading = next (next start (configures (some "a") true)) (loads [] [] 1 none config refl)

abbrev linked : GatewayClient
linked =
    socket_message core (some (current_generation "ii"))
      (socket_opened (ticket_fetched asked true true (record loaded { tickets = [] })))

linking : Steps core fresh linked
unfolding configure cursor_loaded
linking =
    next (next (next loading (fetches [] [] asked true true refl)) opens)
      (receives (some (current_generation "ii")))

-- The announced generation is noted, and nothing is reconciled by it.
linked_run :
    (linked.state ≡ ConnectionState.connected)
    × (linked.cursor ≡ record { highest_announced = "ii"; last_reconciled = "" })
unfolding configure cursor_loaded ticket_fetched socket_opened socket_message announce units
linked_run = (refl, refl)

Steps-WellFormed_example : WellFormed linked
Steps-WellFormed_example = Steps-WellFormed core core.empty linking

-- A ticket of channel `a` comes after the channel was changed to `b`.
ticket_fetched-superseded_example :
    ticket_fetched asked true true (configure core (some "b") false loaded)
    ≡ configure core (some "b") false loaded
unfolding configure cursor_loaded
ticket_fetched-superseded_example =
    ticket_fetched-superseded core core.empty loading asked (Memᴰ.head refl) (some "b") false start
      true true

stop-IsStopped_example : IsStopped 1 (set_visible false config (stop linked))
unfolding configure cursor_loaded ticket_fetched socket_opened socket_message announce units
stop-IsStopped_example = stop-IsStopped core linked (next start (shows false config))

step-last_reconciled_example :
    ((announce core "iii" http [] linked).cursor.last_reconciled ≡ linked.cursor.last_reconciled)
    × ((announce core "iii" http [] linked).saved ≡ linked.saved)
step-last_reconciled_example =
    step-last_reconciled core (answers "iii" http []) (λ c generation. ground (arith)) refl

mark_remote_dirty-Outcome_example :
    Outcome core true
      (some "a")
      (answered 200 (some "iii"))
      linked
      (mark_remote_dirty core true (some "a") [] (answered 200 (some "iii")) linked)
mark_remote_dirty-Outcome_example =
    mark_remote_dirty-Outcome core true (some "a") [] (answered 200 (some "iii")) linked
