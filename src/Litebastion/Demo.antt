-- ===== src/Litebastion/Demo.antt =====
-- A list of cmd/litebastion/litebastion.go that drops a backend while it is connected.
use litetlog.Prelude.{
  ◌≡◌, refl, inr, true, some, [], ◌∷◌, ◌++◌, replicate, Bytes, codes, bytes_eq, arith,
}
use litetlog.Std.Strings.{split, cut, cut_prefix}
use litetlog.Std.Hex.{decode_hex, encode_hex}
use litetlog.Std.Trim.{trim_space, trim_from, space_size, space_size_back, reverse}
use litetlog.Bastion.{
  Conn, new_pool, Request, forwarded, serve_http, route, round_trip, cut_backend, live_conn, served,
  find_conn, put_conn, register, verify_connection, handle_backend, connect,
}
use litetlog.Litebastion.{
  Backends, load_backends, reload_backends, read_backend, read_backends, add_backend, no_backends,
  State, start, config, reload, serve, Reach, here, next,
}
use litetlog.Litebastion.Load.{listed, backends_file, load_backends-backends_file}
use litetlog.Litebastion.Serve.{Admitted, serve_http-Admitted}

abbrev digest : Bytes → Bytes
digest m = replicate 32 7

abbrev first : Bytes
first = replicate 32 7

abbrev other : Bytes
other = replicate 32 8

load_backends-backends_file_example :
    (loaded : Backends) × (load_backends (some (backends_file (first ∷ other ∷ []))) ≡ some loaded)
    × ((j : Bytes) → loaded j ≡ listed j (first ∷ other ∷ []))
load_backends-backends_file_example = load_backends-backends_file first (other ∷ []) (ground arith)

abbrev demo_file : Bytes
demo_file = codes "0707070707070707070707070707070707070707070707070707070707070707\n"

abbrev other_file : Bytes
other_file = codes "0808080808080808080808080808080808080808080808080808080808080808\n"

abbrev started : State
started = record { backends = add_backend first no_backends; pool = new_pool }

demo_starts : start (some demo_file) ≡ some started
unfolding start load_backends read_backends read_backend decode_hex split trim_space trim_from
    space_size space_size_back reverse
demo_starts = refl

abbrev demo_conn : Conn
demo_conn = record { id = 0; peer = codes "k" }

abbrev connected : State
connected = record started {
  pool = handle_backend (config digest started.backends) demo_conn true true new_pool;
}

verified : verify_connection (config digest started.backends) (some (codes "k")) ≡ inr tt
unfolding verify_connection bytes_eq
verified = refl

-- The backend connects, and then the list is replaced.
abbrev steps :
    Reach digest started
      (record connected { backends = reload_backends (some other_file) started.backends })
steps = next (next here (serve (connect demo_conn true true verified))) (reload (some other_file))

abbrev demo_request : Request
demo_request = record {
  path = codes "/" ++ (encode_hex first ++ codes "/x");
  query = [];
  host = codes "bastion.example";
}

abbrev demo_out : Request
demo_out = record { path = codes "/x"; query = []; host = encode_hex first }

demo_forwards : serve_http connected.pool demo_request ≡ forwarded demo_conn demo_out
unfolding serve_http route round_trip cut_backend live_conn served find_conn put_conn register
    handle_backend encode_hex decode_hex cut cut_prefix bytes_eq
demo_forwards = refl

serve_http-Admitted_example :
    (demo_request.path ≡ codes "/" ++ (demo_out.host ++ demo_out.path))
    × (demo_out.query ≡ demo_request.query)
    × (decode_hex demo_out.host ≡ some first)
    × Admitted digest steps first
serve_http-Admitted_example =
    serve_http-Admitted digest (some demo_file) demo_request demo_starts steps demo_forwards
