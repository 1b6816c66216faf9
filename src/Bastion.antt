-- ===== src/Bastion.antt =====
-- bastion/bastion.go: backends that have authenticated with a key, and the requests that are routed
-- to them by the hash of that key. The reverse proxy and the TLS stack around it are not under
-- the repository.
pub mod Conns
pub mod Routing
pub mod Replace
pub mod Demo
use litetlog.Prelude.{
  ℕ, ◌⊎◌, inl, inr, ◌≡◌, Bool, true, false, not, Option, none, some, List, [], ◌∷◌, ◌++◌, ◌==◌,
  if◌then◌else◌, length, Bytes, codes, bytes_eq,
}
use litetlog.Std.Strings.{cut, cut_prefix}
use litetlog.Std.Hex.{decode_hex, encode_hex}

-- `sha256.Sum256` of a public key, and `Config.AllowedBackend`, which is one function throughout:
-- it is asked only when a backend connects.
pub record Config : Type 0 where
  pub sha256 : Bytes → Bytes
  pub allowed_backend : Bytes → Bool

-- An `http2.ClientConn`, with the Ed25519 key of the certificate of its peer.
pub record Conn : Type 0 where
  pub id : ℕ
  pub peer : Bytes

-- `backendConnectionsPool`, with which connections are closed and which are being shut down.
pub record Pool : Type 0 where
  pub conns : List (Bytes × Conn)
  pub closed : ℕ → Bool
  pub shutdown : ℕ → Bool

abbrev pub new_pool : Pool
new_pool = record { conns = []; closed = λ _. false; shutdown = λ _. false }

-- Of an HTTP request, the path, the query and the host.
pub record Request : Type 0 where
  pub path : Bytes
  pub query : Bytes
  pub host : Bytes

unfoldable pub find_conn : Bytes → List (Bytes × Conn) → Option Conn
find_conn h [] = none
find_conn h ((k, cc) ∷ conns) =
    let later = find_conn h conns in if bytes_eq k h then some cc else later

-- `p.conns[h] = cc`
unfoldable pub put_conn : Bytes → Conn → List (Bytes × Conn) → List (Bytes × Conn)
put_conn h cc [] = (h, cc) ∷ []
put_conn h cc ((k, x) ∷ conns) =
    let later = put_conn h cc conns in if bytes_eq k h then (h, cc) ∷ conns else (k, x) ∷ later

abbrev pub set_bit : ℕ → (ℕ → Bool) → ℕ → Bool
set_bit i bits j = if j == i then true else bits j

-- `RoundTrip`: an error's text, or the connection that gets the request.
unfoldable pub live_conn : Pool → Bytes → Bytes ⊎ Conn
live_conn p kh =
    if not (length kh == 32)
    then inl (codes "invalid backend key hash")
    else elim (find_conn kh p.conns) [ none ↦ inl (codes "backend unavailable") | some cc ↦ inr cc ]

unfoldable pub round_trip : Pool → Request → Bytes ⊎ Conn
unfolding live_conn
round_trip p r = elim (decode_hex r.host) [
  | none ↦ inl (codes "invalid backend key hash")
  | some kh ↦ live_conn p kh
]

-- `Cut` of the path behind its first slash.
unfoldable pub cut_backend : Bytes → Request → Option (Bytes × Request)
cut_backend path r =
    if not (cut b'/' path).found
    then none
    else some ((cut b'/' path).before, record r { path = codes "/" ++ (cut b'/' path).after })

-- `ServeHTTP` up to the proxy: the backend of the context and the request, or 404.
unfoldable pub route : Request → Option (Bytes × Request)
unfolding cut_backend
route r = elim (cut_prefix (codes "/") r.path) [ none ↦ none | some path ↦ cut_backend path r ]

-- `Rewrite`: the host is the backend of the context.
abbrev pub rewrite : Bytes × Request → Request
rewrite (backend, r) = record r { host = backend }

pub data Served : Type 0 where
  not_found : Served
  proxy_error : Bytes → Served
  forwarded : Conn → Request → Served

unfoldable pub served : Bytes ⊎ Conn → Request → Served
served (inl message) r = proxy_error message
served (inr cc) r = forwarded cc r

unfoldable pub serve_http : Pool → Request → Served
serve_http p r = elim (route r) [
  | none ↦ not_found
  | some routed ↦ served (round_trip p (rewrite routed)) (rewrite routed)
]

-- `VerifyConnection` on the key of the leaf certificate, if that is an Ed25519 key.
unfoldable pub verify_connection : Config → Option Bytes → Bytes ⊎ Unit {0}
verify_connection c none = inl (codes "self-signed certificate key type is not Ed25519")
verify_connection c (some pk) =
    if not (c.allowed_backend (c.sha256 pk))
    then inl (codes "unrecognized backend " ++ encode_hex (c.sha256 pk))
    else inr tt

-- Whether `bastion/0` is among the protocols of a client.
unfoldable pub has_bastion : List Bytes → Bool
has_bastion [] = false
has_bastion (proto ∷ protos) =
    let later = has_bastion protos in if bytes_eq proto (codes "bastion/0") then true else later

-- `GetConfigForClient`: the configuration of the bastion, or that of the function that it wraps.
unfoldable pub get_config_for_client {ℓ} :
    {R : Type ℓ} → R → R → Option (List Bytes → R) → List Bytes → R
get_config_for_client bastion nothing old protos =
    if has_bastion protos then bastion else elim old [ none ↦ nothing | some f ↦ f protos ]

-- The part of `handleBackend` under the lock.
unfoldable pub register : Bytes → Conn → Pool → Pool
register h cc p = elim (find_conn h p.conns) [
  | none ↦ record p { conns = put_conn h cc p.conns }
  | some old ↦ record p {
    conns = put_conn h cc p.conns;
    shutdown = if not (p.closed old.id) then set_bit old.id p.shutdown else p.shutdown;
  }
]

-- `handleBackend` up to its wait: whether the connection is converted to HTTP/2, and whether it
-- answers the PING.
unfoldable pub handle_backend : Config → Conn → Bool → Bool → Pool → Pool
handle_backend c cc converts pings p =
    if not converts then p else if not pings then p else register (c.sha256 cc.peer) cc p

-- A backend connects, or a connection closes.
pub data Step (c : Config) (p : Pool) : Pool → Type 0 where
  connect :
      (cc : Conn) (converts pings : Bool)
      → verify_connection c (some cc.peer) ≡ inr tt
      → Step c p (handle_backend c cc converts pings p)
  close : (i : ℕ) → Step c p (record p { closed = set_bit i p.closed })

pub data Reach (c : Config) (p : Pool) : Pool → Type 0 where
  here : Reach c p p
  next : {q r : Pool} → Reach c p q → Step c q r → Reach c p r
