-- ===== src/Remote/Client.antt =====
-- src/remote/r2-client.ts and src/remote/errors.ts: what a response to a request means.
use mineral_obsidian_sync.Base.{
  ℕ, ◌≤◌, ◌<◌, String, Bool, true, not, ◌||◌, ◌≡◌, Option, none, arith, ◌==◌, ltb, leb,
  if◌then◌else◌, is_truthy, List, length,
}
use mineral_obsidian_sync.Sync.Types.{RemoteVersion}

-- What can be thrown: the classes of src/remote/errors.ts, that of src/local/read-local.ts, and the
-- rest by its message.
pub data Error : Type 0 where
  remote_object_changed : Error
  remote_http : (operation : String) → (status : ℕ) → Error
  remote_transport : (operation : String) → Error
  local_file_changed : Error
  other : (message : String) → Error

pub data Try {ℓ} (A : Type ℓ) : Type ℓ where
  ok : A → Try A
  raised : Error → Try A

-- The bytes of a file or an object.
abbrev pub Bytes : Type 0
Bytes = List ℕ

-- `etag` is the header without its quotes.
pub record Response : Type 0 where
  pub status : ℕ
  pub etag : Option String
  pub body : Bytes

pub record PutOptions : Type 0 where
  pub if_match : Option String
  pub if_none_match : Bool

abbrev pub is_success : ℕ → Bool
is_success status = not (ltb status 200 || leb 300 status)

-- The checks that every request shares: 412, then everything outside 2xx.
unfoldable pub checked : String → Response → Try (Unit {0})
checked operation r =
    if r.status == 412
    then raised remote_object_changed
    else if is_success r.status
    then ok tt
    else raised (remote_http operation r.status)

-- `putObject`, from its response on.
unfoldable pub put_object : Bytes → Response → Try RemoteVersion
unfolding checked
put_object body r = elim (checked "PutObject" r) [
  | raised e ↦ raised e
  | ok _ ↦
      if is_truthy r.etag
      then ok (record { size = length body; etag = r.etag; last_modified = none })
      else raised (
          other "R2 PutObject returned no ETag; the baseline cannot be recorded from this response")
]

unfoldable pub get_object : Response → Try Bytes
unfolding checked
get_object r = elim (checked "GetObject" r) [ raised e ↦ raised e | ok _ ↦ ok r.body ]

unfoldable pub verify_object_version : Response → Try (Unit {0})
unfolding checked
verify_object_version r = checked "VerifyObjectVersion" r

-- `delete`: an object that is already gone is what the call exists to produce.
unfoldable pub delete_object : String → Response → Try (Unit {0})
delete_object operation r =
    if r.status == 404
    then ok tt
    else if is_success r.status
    then ok tt
    else raised (remote_http operation r.status)

-- A PUT that succeeds names the bytes it sent and an ETag that can be asserted later.
pub put_object_recorded :
    (body : Bytes) (r : Response) (v : RemoteVersion)
    → put_object body r ≡ ok v
    → (v.size ≡ length body)
      × (is_truthy v.etag ≡ true)
      × (v.last_modified ≡ none)
      × (200 ≤ r.status)
      × (r.status < 300)
unfolding put_object
put_object_recorded body r v h = ground arith
