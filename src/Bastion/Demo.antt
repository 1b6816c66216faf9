-- ===== src/Bastion/Demo.antt =====
-- A backend of bastion/bastion.go and its requests, as an example.
use litetlog.Prelude.{
  ◌≡◌, refl, inr, true, some, [], ◌++◌, replicate, Bytes, codes, bytes_eq, All, arith,
}
use litetlog.Std.Base64.{IsByte}
use litetlog.Std.Hex.{decode_hex, encode_hex}
use litetlog.Bastion.{
  Config, Conn, Pool, new_pool, Request, forwarded, serve_http, verify_connection, handle_backend,
  connect, Reach, here, next,
}
use litetlog.Bastion.Routing.{serve_http-authentic}
use litetlog.Bastion.Replace.{IsDigest, Kept, serve_http-handle_backend, Reach-Kept}

abbrev demo_hash : Bytes
demo_hash = replicate 32 7

abbrev demo_config : Config
demo_config = record { sha256 = λ m. demo_hash; allowed_backend = λ h. bytes_eq h demo_hash }

demo-IsDigest : IsDigest demo_config
demo-IsDigest = record { bytes = λ m. bytes_of; size = λ m. refl }
  where
    bytes_of : All IsByte demo_hash
    bytes_of = ground arith

abbrev demo_conn : Conn
demo_conn = record { id = 0; peer = codes "k" }

-- The same backend connects again.
abbrev again : Conn
again = record { id = 1; peer = codes "k" }

abbrev rest : Bytes
rest = codes "add-checkpoint"

abbrev demo_request : Request
demo_request = record {
  path = codes "/" ++ (encode_hex demo_hash ++ (codes "/" ++ rest));
  query = [];
  host = codes "bastion.example";
}

abbrev demo_out : Request
demo_out = record { path = codes "/" ++ rest; query = []; host = encode_hex demo_hash }

abbrev demo_pool : Pool
demo_pool = handle_backend demo_config demo_conn true true new_pool

verified : verify_connection demo_config (some (codes "k")) ≡ inr tt
unfolding verify_connection bytes_eq
verified = refl

reached : Reach demo_config new_pool demo_pool
reached = next here (connect demo_conn true true verified)

demo_forwards : serve_http demo_pool demo_request ≡ forwarded demo_conn demo_out
demo_forwards =
    serve_http-handle_backend demo_config demo-IsDigest demo_conn new_pool rest []
      (codes "bastion.example")

serve_http-handle_backend_example : serve_http demo_pool demo_request ≡ forwarded demo_conn demo_out
serve_http-handle_backend_example =
    serve_http-handle_backend demo_config demo-IsDigest demo_conn new_pool rest []
      (codes "bastion.example")

serve_http-authentic_example :
    (demo_request.path ≡ codes "/" ++ (demo_out.host ++ demo_out.path))
    × (demo_out.query ≡ demo_request.query)
    × (decode_hex demo_out.host ≡ some demo_hash)
    × (demo_config.allowed_backend demo_hash ≡ true)
serve_http-authentic_example = serve_http-authentic demo_config demo_request reached demo_forwards

Reach-Kept_example : Kept demo_hash demo_conn (handle_backend demo_config again true true demo_pool)
Reach-Kept_example =
    Reach-Kept demo_config demo_conn new_pool (next here (connect again true true verified))
