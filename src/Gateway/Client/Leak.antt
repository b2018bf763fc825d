-- ===== src/Gateway/Client/Leak.antt =====
-- Two connections under way at once, in src/gateway/client.ts: what happens to the first.
use mineral_obsidian_sync.Base.{suc, some, ◌∷◌}
use mineral_obsidian_sync.Gateway.Client.{GatewayClient, TicketRequest}

abbrev connected : TicketRequest → GatewayClient → GatewayClient
connected request g = record g {
  socket = some g.opened;
  socket_generation = some request.generation;
  live = g.opened ∷ g.live;
  opened = suc g.opened;
}
