-- ===== src/Gateway/Client/Replies.antt =====
-- The requests of src/gateway/client.ts over HTTP: what each answer means, and that none moves the
-- cursor unless it announces a generation.
use mineral_obsidian_sync.Base.{
  ℕ, ◌≤◌, ◌<◌, String, Bool, true, false, ◌&&◌, ◌||◌, ◌≡◌, ◌⊎◌, inl, inr, refl, Option, none, some,
  List, ◌==◌, ltb, leb, if◌then◌else◌, arith, is_some,
}
use mineral_obsidian_sync.Scheduler.Types.{RemoteChange}
use mineral_obsidian_sync.Gateway.Client.{
  SyncCore, GatewayClient, GatewayErrorKind, transport, auth, client, server, malformed,
  misconfigured, http, fail, announce,
}

-- What the transport yields: it throws a GatewayRequestError of a kind, or anything else, or there is a
-- response, with what its body is parsed to.
pub data Reply (A : Type 0) : Type 0 where
  threw : Option GatewayErrorKind → Reply A
  answered : (status : ℕ) → (parsed : Option A) → Reply A

pub data Result (A : Type 0) : Type 0 where
  ok : A → Result A
  failed : GatewayErrorKind → Result A

unfoldable pub classify_status : ℕ → GatewayErrorKind
classify_status status =
    if status == 401 || status == 403 then auth else if leb 500 status then server else client

abbrev thrown_kind : Option GatewayErrorKind → GatewayErrorKind
thrown_kind none = transport
thrown_kind (some kind) = kind

abbrev pub is_success : ℕ → Bool
is_success status = leb 200 status && ltb status 300

-- The judgement that the three requests share.
unfoldable pub judge : {A : Type 0} → Reply A → Result A
unfolding classify_status
judge (threw kind) = failed (thrown_kind kind)
judge (answered status none) =
    if is_success status then failed malformed else failed (classify_status status)
judge (answered status (some a)) =
    if is_success status then ok a else failed (classify_status status)

abbrev noted : {A : Type 0} → Result A → GatewayClient → GatewayClient
noted (ok a) g = record g { last_error = none }
noted (failed kind) g = fail kind g

-- `readGeneration`, with the channel when it was called and the client when the answer came.
unfoldable pub read_generation :
    (channel : Option String) → Reply String → GatewayClient → Result String × GatewayClient
unfolding judge
read_generation none reply g = (failed misconfigured, g)
read_generation (some _) reply g = (judge reply, noted (judge reply) g)

-- `fetchTicket`
unfoldable pub fetch_ticket : Reply String → GatewayClient → Option String × GatewayClient
unfolding judge
fetch_ticket reply g =
    (elim (judge reply) [ ok ticket ↦ some ticket | failed _ ↦ none ], noted (judge reply) g)

module _ (core : SyncCore) where
  abbrev announced_if : Result String → List RemoteChange → GatewayClient → GatewayClient
  announced_if (failed kind) changes g = g
  announced_if (ok generation) changes g = announce core generation http changes g

  -- `markRemoteDirty`, with what it read when it was called, and the client when the answer came.
  unfoldable pub mark_remote_dirty :
      (enabled : Bool)
      → (channel : Option String) → List RemoteChange
      → Reply String
      → GatewayClient
      → Result String × GatewayClient
  unfolding judge announce
  mark_remote_dirty false channel changes reply g = (failed misconfigured, g)
  mark_remote_dirty true none changes reply g = (failed misconfigured, g)
  mark_remote_dirty true (some _) changes reply g =
      (judge reply, announced_if (judge reply) changes (noted (judge reply) g))

  -- What a client keeps when a request fails: all but the kind of the last error.
  pub record Unmoved (g h : GatewayClient) : Type 0 where
    pub cursor : h.cursor ≡ g.cursor
    pub announced : h.announced ≡ g.announced
    pub saved : h.saved ≡ g.saved
    pub state : h.state ≡ g.state
    pub socket : h.socket ≡ g.socket

  abbrev pub Accepted : Bool → Option String → Reply String → String → Type 0
  Accepted enabled channel reply generation =
      (enabled ≡ true)
      × (is_some channel ≡ true)
      × ((status : ℕ) × (200 ≤ status)
          × (status < 300)
          × (reply ≡ answered status (some generation)))

  judge-ok :
      (reply : Reply String) {generation : String}
      → judge reply ≡ ok generation
      → (status : ℕ) × (200 ≤ status) × (status < 300) × (reply ≡ answered status (some generation))
  unfolding judge
  judge-ok (threw kind) e = cc
  judge-ok (answered status none) e = ground arith
  judge-ok (answered status (some a)) e = (status, ground arith, ground arith, ground arith)

  abbrev pub Outcome :
      Bool → Option String → Reply String → GatewayClient → Result String × GatewayClient → Type 0
  Outcome enabled channel reply g (result, h) =
      ((generation : String) × (result ≡ ok generation)
        × Accepted enabled channel reply generation
        × (h.cursor ≡ core.advance g.cursor generation))
      ⊎ ((kind : GatewayErrorKind) × (result ≡ failed kind) × Unmoved g h)

  judged-Outcome :
      (channel : String) (changes : List RemoteChange) (reply : Reply String) (g : GatewayClient)
      (result : Result String)
      → judge reply ≡ result
      → Outcome true (some channel) reply g (result, announced_if result changes (noted result g))
  unfolding announce
  judged-Outcome channel changes reply g (ok generation) j =
      inl (generation, refl, (refl, refl, judge-ok reply j), ground arith)
  judged-Outcome channel changes reply g (failed kind) j = inr (
    kind,
    refl,
    record { cursor = refl; announced = refl; saved = refl; state = refl; socket = refl },
  )

  unmoved : (g : GatewayClient) → Unmoved g g
  unmoved g = record { cursor = refl; announced = refl; saved = refl; state = refl; socket = refl }

  -- A notification of other writers that succeeds was sent by an enabled client with a channel, and was
  -- answered by a success with the generation in it, by which the cursor advances. One that fails leaves
  -- the cursor, the announcements, the stored cursor and the connection as they are.
  pub mark_remote_dirty-Outcome :
      (enabled : Bool) (channel : Option String) (changes : List RemoteChange)
      (reply : Reply String) (g : GatewayClient)
      → Outcome enabled channel reply g (mark_remote_dirty enabled channel changes reply g)
  unfolding mark_remote_dirty
  mark_remote_dirty-Outcome false channel changes reply g = inr (misconfigured, refl, unmoved g)
  mark_remote_dirty-Outcome true none changes reply g = inr (misconfigured, refl, unmoved g)
  mark_remote_dirty-Outcome true (some channel) changes reply g =
      judged-Outcome channel changes reply g (judge reply) refl
