-- ===== src/Bastion/Replace.antt =====
-- What becomes of the connections that bastion/bastion.go accepts.
use litetlog.Prelude.{
  ℕ, ◌≡◌, refl, ap, ◌∙◌, ◌⊎◌, inl, inr, Bool, true, false, some, ◌++◌, arith, if◌then◌else◌, length,
  Bytes, codes, bytes_eq, bytes_eq_iff, bytes_eq_refl, All, Bool-cases, Option-cases,
}
use litetlog.Std.Strings.{cut-append, cut_prefix}
use litetlog.Std.Hex.{decode_hex, encode_hex, decode_hex-encode_hex, encode_hex-Lacks}
use litetlog.Std.Base64.{IsByte}
use litetlog.Bastion.{
  Config, Conn, Pool, Request, find_conn, set_bit, live_conn, round_trip, cut_backend, route,
  forwarded, served, serve_http, register, handle_backend, Step, connect, close, Reach, here, next,
}
use litetlog.Bastion.Conns.{find_conn-put_conn}

-- A digest is 32 bytes.
pub record IsDigest (c : Config) : Type 0 where
  pub bytes : (m : Bytes) → All IsByte (c.sha256 m)
  pub size : (m : Bytes) → length (c.sha256 m) ≡ 32

find_conn-register :
    (j h : Bytes) (conn : Conn) (p : Pool)
    → find_conn j (register h conn p).conns
      ≡ (if bytes_eq h j then some conn else find_conn j p.conns)
unfolding register
find_conn-register j h conn p = elim (Option-cases (find_conn h p.conns)) [
  | inl e ↦ rw (e, register) (find_conn-put_conn j h conn p.conns)
  | inr (old, e) ↦ rw (e, register) (find_conn-put_conn j h conn p.conns)
]

module _ (c : Config) (digest : IsDigest c) (conn : Conn) (p : Pool) where
  abbrev hex_hash : Bytes
  hex_hash = encode_hex (c.sha256 conn.peer)

  routes :
      (rest query host : Bytes)
      → route (record {
        path = codes "/" ++ (hex_hash ++ (codes "/" ++ rest));
        query = query;
        host = host;
      })
        ≡ some (hex_hash, record { path = codes "/" ++ rest; query = query; host = host })
  unfolding route cut_backend cut_prefix
  routes rest query host = rw (
    cut-append b'/' hex_hash rest (encode_hex-Lacks b'/' (c.sha256 conn.peer) (omega arith)),
    cut_backend,
  )

  trips :
      (r : Request)
      → r.host ≡ hex_hash
      → round_trip (handle_backend c conn true true p) r ≡ inr conn
  unfolding round_trip live_conn handle_backend
  trips r e = rw (
    ap decode_hex e ∙ decode_hex-encode_hex (c.sha256 conn.peer) (digest.bytes conn.peer),
    round_trip,
    digest.size conn.peer,
    find_conn-register,
    bytes_eq_refl (c.sha256 conn.peer),
  )

  -- Where a digest is 32 bytes, after a backend that answers the PING has connected, whatever was
  -- connected before, a request for its hash in hexadecimal is forwarded to its connection with
  -- the rest of the path and the same query.
  pub serve_http-handle_backend :
      (rest query host : Bytes)
      → serve_http (handle_backend c conn true true p) (record {
        path = codes "/" ++ (hex_hash ++ (codes "/" ++ rest));
        query = query;
        host = host;
      })
        ≡ forwarded conn (record { path = codes "/" ++ rest; query = query; host = hex_hash })
  unfolding serve_http served
  serve_http-handle_backend rest query host = rw (
    routes rest query host,
    serve_http,
    trips (record { path = codes "/" ++ rest; query = query; host = hex_hash }) refl,
  )

-- A connection that is open is the one of its key, or it is being shut down.
pub record Kept (h : Bytes) (conn : Conn) (p : Pool) : Type 0 where
  pub kept :
      (find_conn h p.conns ≡ some conn) ⊎ ((p.shutdown conn.id ≡ true) ⊎ (p.closed conn.id ≡ true))

set_bit-keeps : (i j : ℕ) (bits : ℕ → Bool) → bits j ≡ true → set_bit i bits j ≡ true
set_bit-keeps i j bits h = ground arith

set_bit-own : (i : ℕ) (bits : ℕ → Bool) → set_bit i bits i ≡ true
set_bit-own i bits = ground arith

-- What is being shut down or closed stays so.
register-shutdown :
    (h : Bytes) (conn : Conn) (p : Pool) (i : ℕ)
    → p.shutdown i ≡ true
    → (register h conn p).shutdown i ≡ true
unfolding register
register-shutdown h conn p i e = elim (Option-cases (find_conn h p.conns)) [
  | inl none_old ↦ rw (none_old, register) e
  | inr (old, found) ↦ rw (found, register) (ground (arith, set_bit-keeps old.id i p.shutdown e))
]

register-closed : (h : Bytes) (conn : Conn) (p : Pool) → (register h conn p).closed ≡ p.closed
unfolding register
register-closed h conn p = elim (Option-cases (find_conn h p.conns)) [
  | inl none_old ↦ rw (none_old, register)
  | inr (old, found) ↦ rw (found, register)
]

-- The connection that is replaced is shut down unless it is closed.
register-old :
    (h : Bytes) (conn old : Conn) (p : Pool)
    → find_conn h p.conns ≡ some old
    → ((register h conn p).shutdown old.id ≡ true) ⊎ (p.closed old.id ≡ true)
unfolding register
register-old h conn old p found = elim (Bool-cases (p.closed old.id)) [
  | inl closed ↦ inr closed
  | inr is_open ↦ inl (rw (found, register, is_open) (set_bit-own old.id p.shutdown))
]

register-Kept : (h j : Bytes) (conn x : Conn) (p : Pool) → Kept j x p → Kept j x (register h conn p)
register-Kept h j conn x p k = elim k.kept [
  | inl found ↦ elim (Bool-cases (bytes_eq h j)) [
    | inl own ↦
        let there = ap (λ o. find_conn o p.conns) ((bytes_eq_iff h j).0 own) ∙ found in
        record {
          kept = inr (elim (register-old h conn x p there) [
            | inl shut ↦ inl shut
            | inr closed ↦ inr (rw register-closed closed)
          ]);
        }
    | inr other ↦ record { kept = inl (rw (find_conn-register, other) found) }
  ]
  | inr (inl shut) ↦ record { kept = inr (inl (register-shutdown h conn p x.id shut)) }
  | inr (inr closed) ↦ record { kept = inr (inr (rw register-closed closed)) }
]

module _ (c : Config) where
  Step-Kept : {p q : Pool} (j : Bytes) (x : Conn) → Step c p q → Kept j x p → Kept j x q
  unfolding handle_backend
  Step-Kept j x (connect conn false pings v) k = k
  Step-Kept j x (connect conn true false v) k = k
  Step-Kept {p} j x (connect conn true true v) k = register-Kept (c.sha256 conn.peer) j conn x p k
  Step-Kept {p} j x (close i) k = record {
    kept = elim k.kept [
      | inl found ↦ inl found
      | inr (inl shut) ↦ inr (inl shut)
      | inr (inr closed) ↦ inr (inr (set_bit-keeps i x.id p.closed closed))
    ];
  }

  Reach-keeps : {p q : Pool} (j : Bytes) (x : Conn) → Reach c p q → Kept j x p → Kept j x q
  Reach-keeps j x here k = k
  Reach-keeps j x (next r s) k = Step-Kept j x s (Reach-keeps j x r k)

  -- A connection that has been accepted is, after any further connections and closings, still the
  -- one for its hash, or it is being shut down, or it is closed: none is left open and out of
  -- reach.
  pub Reach-Kept :
      {q : Pool} (conn : Conn) (p : Pool)
      → Reach c (handle_backend c conn true true p) q
      → Kept (c.sha256 conn.peer) conn q
  unfolding handle_backend
  Reach-Kept conn p r =
      Reach-keeps (c.sha256 conn.peer) conn r
        (record { kept = inl (rw (find_conn-register, bytes_eq_refl (c.sha256 conn.peer))) })
