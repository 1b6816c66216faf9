-- ===== src/Bastion/Routing.antt =====
-- Where bastion/bastion.go sends a request.
use litetlog.Prelude.{
  ◌≡◌, refl, ap, subst, ◌∙◌, ◌⊎◌, inl, inr, true, some, ◌++◌, arith, length, Bytes, codes,
  Bool-cases, Option-cases, some_injective,
}
use litetlog.Std.Strings.{cut, cut_found, cut_prefix, cut_prefix_sound}
use litetlog.Std.Hex.{decode_hex}
use litetlog.Bastion.{
  Config, Conn, Pool, new_pool, Request, find_conn, live_conn, round_trip, cut_backend, route,
  rewrite, forwarded, served, serve_http, verify_connection, Step, connect, close, Reach, here,
  next,
}
use litetlog.Bastion.Conns.{Entries, find_conn-Entries, handle_backend-Entries}

-- What a request names, and where it goes.
pub record Routed (p : Pool) (r : Request) (cc : Conn) (out : Request) : Type 0 where
  pub hash : Bytes
  pub names : decode_hex out.host ≡ some hash
  pub size : length hash ≡ 32
  pub found : find_conn hash p.conns ≡ some cc
  pub path : r.path ≡ codes "/" ++ (out.host ++ out.path)
  pub query : out.query ≡ r.query

live_conn-found :
    (p : Pool) (kh : Bytes) {cc : Conn}
    → live_conn p kh ≡ inr cc
    → (length kh ≡ 32) × (find_conn kh p.conns ≡ some cc)
unfolding live_conn
live_conn-found p kh h = ground arith

round_trip-found :
    (p : Pool) (r : Request) {cc : Conn}
    → round_trip p r ≡ inr cc
    → (hash : Bytes) × (decode_hex r.host ≡ some hash)
      × (length hash ≡ 32)
      × (find_conn hash p.conns ≡ some cc)
unfolding round_trip
round_trip-found p r h = elim (Option-cases (decode_hex r.host)) [
  | inl e ↦ cc (rw (e, round_trip) at h)
  | inr (kh, e) ↦
      let (size, found) = live_conn-found p kh (rw (e, round_trip) at h) in (kh, e, size, found)
]

cut_backend-path :
    (path : Bytes) (r : Request) {routed : Bytes × Request}
    → cut_backend path r ≡ some routed
    → (path ≡ routed.0 ++ routed.1.path) × (routed.1.query ≡ r.query)
unfolding cut_backend
cut_backend-path path r {routed} h = elim (Bool-cases (cut b'/' path).found) [
  | inl found ↦
      let same : ((cut b'/' path).before, record r { path = codes "/" ++ (cut b'/' path).after })
          ≡ routed =
        some_injective (rw (found, cut_backend) at h) in
      subst (λ (x : Bytes × Request). (path ≡ x.0 ++ x.1.path) × (x.1.query ≡ r.query)) same
        ((cut_found b'/' path found).0, refl)
  | inr missing ↦ cc (rw (missing, cut_backend) at h)
]

route-path :
    (r : Request) {routed : Bytes × Request}
    → route r ≡ some routed
    → (r.path ≡ codes "/" ++ (routed.0 ++ routed.1.path)) × (routed.1.query ≡ r.query)
unfolding route
route-path r {routed} h = elim (Option-cases (cut_prefix (codes "/") r.path)) [
  | inl e ↦ cc (rw (e, route) at h)
  | inr (path, e) ↦
      let (spells, query) = cut_backend-path path r (rw (e, route) at h) in
      (cut_prefix_sound (codes "/") r.path e ∙ ap (λ t. codes "/" ++ t) spells, query)
]

served-inr :
    (x : Bytes ⊎ Conn) (r : Request) {cc : Conn} {out : Request}
    → served x r ≡ forwarded cc out
    → (x ≡ inr cc) × (r ≡ out)
unfolding served
served-inr (inl message) r h = cc
served-inr (inr c) r h = (cc, cc)

pub serve_http-Routed :
    (p : Pool) (r : Request) {conn : Conn} {out : Request}
    → serve_http p r ≡ forwarded conn out
    → Routed p r conn out
unfolding serve_http
serve_http-Routed p r {conn} {out} h = elim (Option-cases (route r)) [
  | inl e ↦ cc (rw (e, serve_http) at h)
  | inr (routed, e) ↦
      let (trip, same) =
        served-inr (round_trip p (rewrite routed)) (rewrite routed) (rw (e, serve_http) at h) in
      let (hash, names, size, found) = round_trip-found p (rewrite routed) trip in
      let (path, query) = route-path r e in
      subst (Routed p r conn) same (record {
        hash = hash;
        names = names;
        size = size;
        found = found;
        path = path;
        query = query;
      })
]

pub verify_connection-ok :
    (c : Config) (pk : Bytes)
    → verify_connection c (some pk) ≡ inr tt
    → c.allowed_backend (c.sha256 pk) ≡ true
unfolding verify_connection
verify_connection-ok c pk h = ground arith

module _ (c : Config) where
  -- The connection is stored under the hash of its own key, which is allowed.
  abbrev pub IsOwn : Bytes → Conn → Type 0
  IsOwn h conn = (h ≡ c.sha256 conn.peer) × (c.allowed_backend h ≡ true)

  Step-Entries : {p q : Pool} → Step c p q → Entries IsOwn p.conns → Entries IsOwn q.conns
  Step-Entries {p} (connect conn converts pings verified) own =
      handle_backend-Entries IsOwn c conn converts pings p
        (refl, verify_connection-ok c conn.peer verified) own
  Step-Entries (close i) own = own

  Reach-Entries : {p : Pool} → Reach c new_pool p → Entries IsOwn p.conns
  unfolding Entries
  Reach-Entries here = tt
  Reach-Entries (next r s) = Step-Entries s (Reach-Entries r)

  -- In every pool that connections and closings reach, a request that is forwarded has a path that
  -- starts with a slash, the host of the forwarded request and its path, the query is passed on,
  -- and the host is hexadecimal for the hash of the key with which the connection has
  -- authenticated, a hash that AllowedBackend, taken as one function throughout, admits.
  pub serve_http-authentic :
      {p : Pool} (r : Request) {conn : Conn} {out : Request}
      → Reach c new_pool p
      → serve_http p r ≡ forwarded conn out
      → (r.path ≡ codes "/" ++ (out.host ++ out.path))
        × (out.query ≡ r.query)
        × (decode_hex out.host ≡ some (c.sha256 conn.peer))
        × (c.allowed_backend (c.sha256 conn.peer) ≡ true)
  serve_http-authentic {p} r {conn} {out} reach h =
      let s = serve_http-Routed p r h in
      let (key, allowed) = find_conn-Entries IsOwn s.hash p.conns s.found (Reach-Entries reach) in
      (
        s.path,
        s.query,
        s.names ∙ ap (λ x. some x) key,
        subst (λ x. c.allowed_backend x ≡ true) key allowed,
      )
