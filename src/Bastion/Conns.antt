-- ===== src/Bastion/Conns.antt =====
-- The map of connections of bastion/bastion.go.
use litetlog.Prelude.{
  ◌≡◌, refl, subst, some, List, [], ◌∷◌, arith, if◌then◌else◌, Bytes, bytes_eq, bytes_eq_iff, All,
  Bool-cases, Bool, true, false, Option-cases, inl, inr,
}
use litetlog.Bastion.{Config, Conn, Pool, find_conn, put_conn, register, handle_backend}

pub find_conn-put_conn :
    (j h : Bytes) (cc : Conn) (conns : List (Bytes × Conn))
    → find_conn j (put_conn h cc conns) ≡ (if bytes_eq h j then some cc else find_conn j conns)
unfolding find_conn put_conn
find_conn-put_conn j h cc [] = refl
find_conn-put_conn j h cc ((k, x) ∷ conns) =
    ground
      (arith, find_conn-put_conn j h cc conns, bytes_eq_iff k h, bytes_eq_iff h j, bytes_eq_iff k j)

module _ {ℓ} (P : Bytes → Conn → Type ℓ) where
  unfoldable pub Entries : List (Bytes × Conn) → Type ℓ
  Entries conns = All (λ (e : Bytes × Conn). P e.0 e.1) conns

  pub Entries-put_conn :
      (h : Bytes) (cc : Conn) (conns : List (Bytes × Conn))
      → P h cc
      → Entries conns
      → Entries (put_conn h cc conns)
  unfolding Entries put_conn
  Entries-put_conn h cc [] p all = (p, tt)
  Entries-put_conn h cc ((k, x) ∷ conns) p (q, all) = elim (Bool-cases (bytes_eq k h)) [
    | inl own ↦ rw own (p, all)
    | inr other ↦ rw other (q, Entries-put_conn h cc conns p all)
  ]

  pub find_conn-Entries :
      (h : Bytes) (conns : List (Bytes × Conn)) {found : Conn}
      → find_conn h conns ≡ some found
      → Entries conns
      → P h found
  unfolding Entries find_conn
  find_conn-Entries h [] e all = cc
  find_conn-Entries h ((k, x) ∷ conns) {found} e (q, all) = elim (Bool-cases (bytes_eq k h)) [
    | inl own ↦
        let key = (bytes_eq_iff k h).0 own in
        let conn : x ≡ found = cc (rw (own, find_conn) at e) in
        subst (λ y. P y found) key (subst (P k) conn q)
    | inr other ↦ find_conn-Entries h conns (rw (other, find_conn) at e) all
  ]

  pub handle_backend-Entries :
      (c : Config) (conn : Conn) (converts pings : Bool) (p : Pool)
      → P (c.sha256 conn.peer) conn
      → Entries p.conns
      → Entries (handle_backend c conn converts pings p).conns
  unfolding handle_backend register
  handle_backend-Entries c conn false pings p own all = all
  handle_backend-Entries c conn true false p own all = all
  handle_backend-Entries c conn true true p own all =
      let put = Entries-put_conn (c.sha256 conn.peer) conn p.conns own all in
      elim (Option-cases (find_conn (c.sha256 conn.peer) p.conns)) [
        | inl e ↦ rw (e, register) put
        | inr (old, e) ↦ rw (e, register) put
      ]

pub Entries-map {ℓ κ} :
    (P : Bytes → Conn → Type ℓ) (Q : Bytes → Conn → Type κ)
    → ((h : Bytes) (conn : Conn) → P h conn → Q h conn)
    → (conns : List (Bytes × Conn)) → Entries P conns
    → Entries Q conns
unfolding Entries
Entries-map P Q f [] all = tt
Entries-map P Q f ((h, conn) ∷ conns) (p, all) = (f h conn p, Entries-map P Q f conns all)
