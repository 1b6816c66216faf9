-- ===== src/Litebastion/Serve.antt =====
-- Where cmd/litebastion/litebastion.go sends requests while its list of backends changes.
use litetlog.Prelude.{
  ◌≡◌, refl, sym, ap, subst, ◌∙◌, ◌⊎◌, inl, inr, true, Option, some, some_injective, >>=-eq-some,
  ◌++◌, Bytes, codes,
}
use litetlog.Std.Hex.{decode_hex}
use litetlog.Bastion.{Conn, Pool, new_pool, Request, forwarded, serve_http, connect, close}
use litetlog.Bastion.Conns.{Entries, Entries-map, find_conn-Entries, handle_backend-Entries}
use litetlog.Bastion.Routing.{serve_http-Routed, verify_connection-ok}
use litetlog.Litebastion.{load_backends, State, start, config, reload, serve, Reach, here, next}

module _ (sha256 : Bytes → Bytes) where
  -- The hash was in the list at the start, or behind one of the steps.
  abbrev pub Admitted : {s t : State} → Reach sha256 s t → Bytes → Type 0
  Admitted {s} here h = s.backends h ≡ true
  Admitted (next {u = u} r step) h = Admitted r h ⊎ (u.backends h ≡ true)

  now-Admitted :
      {s t : State} (r : Reach sha256 s t) (h : Bytes) → t.backends h ≡ true → Admitted r h
  now-Admitted here h e = e
  now-Admitted (next r step) h e = inr e

  -- The connection is stored under the hash of its own key, which has been admitted.
  abbrev IsKnown : {s t : State} → Reach sha256 s t → Bytes → Conn → Type 0
  IsKnown r h conn = (h ≡ sha256 conn.peer) × Admitted r h

  Reach-Entries :
      {s t : State} (r : Reach sha256 s t) → s.pool ≡ new_pool → Entries (IsKnown r) t.pool.conns
  unfolding Entries
  Reach-Entries {s} here fresh =
      subst (λ (p : Pool). Entries (IsKnown {s = s} {t = s} here) p.conns) (sym fresh) tt
  Reach-Entries (next {t = t} r (reload file)) fresh =
      Entries-map (IsKnown r) (IsKnown (next r (reload file))) (λ h conn (own, a). (own, inl a))
        t.pool.conns (Reach-Entries r fresh)
  Reach-Entries (next {t = t} r (serve (close i))) fresh =
      Entries-map (IsKnown r) (IsKnown (next r (serve (close i)))) (λ h conn (own, a). (own, inl a))
        t.pool.conns (Reach-Entries r fresh)
  Reach-Entries (next {t = t} r (serve (connect conn converts pings verified))) fresh =
      let step = serve (connect conn converts pings verified) in
      let admitted = verify_connection-ok (config sha256 t.backends) conn.peer verified in
      Entries-map (IsKnown r) (IsKnown (next r step)) (λ h conn (own, a). (own, inl a)) _
        (handle_backend-Entries (IsKnown r) (config sha256 t.backends) conn converts pings t.pool
          (refl, now-Admitted r (sha256 conn.peer) admitted) (Reach-Entries r fresh))

  -- Whatever backends connect and disconnect and however often the list of backends is reloaded
  -- since the start, with a file that can be read or not, a request that the bastion forwards has
  -- a path that starts with a slash, the host of the forwarded request and its path, the query is
  -- passed on, the host is hexadecimal for the hash of the key with which the connection has
  -- authenticated, and that hash was in the list at the start or behind one of the steps.
  pub serve_http-Admitted :
      (file : Option Bytes) {s t : State} (r : Request) {conn : Conn} {out : Request}
      → start file ≡ some s
      → (steps : Reach sha256 s t) → serve_http t.pool r ≡ forwarded conn out
      → (r.path ≡ codes "/" ++ (out.host ++ out.path))
        × (out.query ≡ r.query)
        × (decode_hex out.host ≡ some (sha256 conn.peer))
        × Admitted steps (sha256 conn.peer)
  unfolding start
  serve_http-Admitted file {s} {t} r starts steps h =
      let (backends, loads, made) = >>=-eq-some (load_backends file) _ starts in
      let fresh : s.pool ≡ new_pool = sym (ap (λ (x : State). x.pool) (some_injective made)) in
      let d = serve_http-Routed t.pool r h in
      let (key, admitted) =
        find_conn-Entries (IsKnown steps) d.hash t.pool.conns d.found (Reach-Entries steps fresh) in
      (d.path, d.query, d.names ∙ ap some key, subst (Admitted steps) key admitted)
