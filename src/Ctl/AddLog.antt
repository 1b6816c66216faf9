-- ===== src/Ctl/AddLog.antt =====
-- What `addLog` of cmd/witnessctl/witnessctl.go does to the tables.
use litetlog.Prelude.{
  ◌≡◌, ◌≢◌, refl, sym, ap, ◌∙◌, ◌⊎◌, inl, inr, true, Option, none, some, List, [], ◌∷◌, ◌++◌, arith,
  if◌then◌else◌, Bytes, bytes_eq, bytes_eq_iff, bytes_eq_refl, bytes_eq_ne, All, All-append,
  append-nil, Bool-cases, Option-cases,
}
use litetlog.Std.Base64.{encode}
use litetlog.Witness.Library.{ok, err, unknown_log, Library}
use litetlog.Witness.Db.{LogRow, KeyRow, Db, World, quiet, lift, exec, exec_on, find_log, find_keys}
use litetlog.Witness.Db.Laws.{IsUnique}
use litetlog.Witness.Process.{get_keys, some_keys}
use litetlog.Witness.Process.Bind.{>>=-keeps, exec-db, lift-world}
use litetlog.Ctl.{Keys, try_insert, exec_insert, insert_log, insert_key, add_log}

bytes_eq_of : (a b : Bytes) → a ≡ b → bytes_eq a b ≡ true
bytes_eq_of a b e = (bytes_eq_iff a b).1 e

find_log-none :
    (o : Bytes) (rows : List LogRow)
    → find_log o rows ≡ none
    → All (λ (s : LogRow). s.origin ≢ o) rows
unfolding find_log
find_log-none o [] h = tt
find_log-none o (r ∷ rows) h = elim (Option-cases (find_log o rows)) [
  | inl e ↦
      (λ same. cc (rw (e, bytes_eq_of r.origin o same, find_log) at h), find_log-none o rows e)
  | inr (x, e) ↦ cc (rw (e, find_log) at h)
]

IsUnique-append :
    (rows : List LogRow) (r : LogRow)
    → IsUnique rows
    → All (λ (s : LogRow). s.origin ≢ r.origin) rows
    → IsUnique (rows ++ (r ∷ []))
IsUnique-append [] r u h = (tt, tt)
IsUnique-append (s ∷ rows) r (fresh, u) (ne, h) = (
  All-append (λ (x : LogRow). x.origin ≢ s.origin) rows (r ∷ []) fresh ((λ e. ne (sym e)), tt),
  IsUnique-append rows r u h,
)

find_log-append :
    (o : Bytes) (rows : List LogRow) (r : LogRow)
    → find_log o (rows ++ (r ∷ [])) ≡ (if bytes_eq r.origin o then some r else find_log o rows)
unfolding find_log
find_log-append o [] r = refl
find_log-append o (s ∷ rows) r = rw (find_log-append o rows r) (ground arith)

find_keys-append :
    (o : Bytes) (rows : List KeyRow) (r : KeyRow)
    → find_keys o (rows ++ (r ∷ []))
      ≡ find_keys o rows ++ (if bytes_eq r.origin o then r.key ∷ [] else [])
unfolding find_keys
find_keys-append o [] r = refl
find_keys-append o (s ∷ rows) r = rw (find_keys-append o rows r) (ground arith)

module _ (origin : Bytes) where
  -- No row of a known log has changed, and no key of another log.
  pub record Added (db db' : Db) : Type 0 where
    pub unique : IsUnique db.logs → IsUnique db'.logs
    pub logs : (j : Bytes) (r : LogRow) → find_log j db.logs ≡ some r → find_log j db'.logs ≡ some r
    pub keys : (j : Bytes) → j ≢ origin → find_keys j db'.keys ≡ find_keys j db.keys

  Added-refl : (db : Db) → Added db db
  Added-refl db = record { unique = λ u. u; logs = λ j r e. e; keys = λ j ne. refl }

  Added-trans : (a b c : Db) → Added a b → Added b c → Added a c
  Added-trans a b c p q = record {
    unique = λ u. q.unique (p.unique u);
    logs = λ j r e. q.logs j r (p.logs j r e);
    keys = λ j ne. q.keys j ne ∙ p.keys j ne;
  }

  insert_log-Added : (hash : Bytes) (db : Db) → Added db (try_insert (insert_log origin hash) db).1
  unfolding insert_log
  insert_log-Added hash db = elim (Option-cases (find_log origin db.logs)) [
    | inr (r, e) ↦ rw (e, try_insert) (Added-refl db)
    | inl e ↦
        rw (e, try_insert)
          (record {
            unique = λ u. IsUnique-append db.logs _ u (find_log-none origin db.logs e);
            logs = λ j r known. added_other j r e known;
            keys = λ j ne. refl;
          })
  ]
    where
      added_other :
          (j : Bytes) (r : LogRow)
          → find_log origin db.logs ≡ none
          → find_log j db.logs ≡ some r
          → find_log j
              (db.logs ++ (record { origin = origin; tree_size = 0; tree_hash = hash } ∷ []))
            ≡ some r
      added_other j r e known = elim (Bool-cases (bytes_eq origin j)) [
        | inl same ↦ cc (ap (λ o. find_log o db.logs) ((bytes_eq_iff origin j).0 same), e, known)
        | inr other ↦ rw (find_log-append, other) known
      ]

  insert_key-Added : (key : Bytes) (db : Db) → Added db (try_insert (insert_key origin key) db).1
  unfolding insert_key
  insert_key-Added key db = elim (Option-cases (find_log origin db.logs)) [
    | inl e ↦ rw (e, try_insert) (Added-refl db)
    | inr (r, e) ↦
        rw (e, try_insert)
          (record { unique = λ u. u; logs = λ j r known. known; keys = λ j ne. added_key j ne })
  ]
    where
      added_key :
          (j : Bytes)
          → j ≢ origin
          → find_keys j (db.keys ++ (record { origin = origin; key = key } ∷ []))
            ≡ find_keys j db.keys
      added_key j ne = rw (find_keys-append, bytes_eq_ne origin j (λ e. ne (sym e)), append-nil)

  pub exec_insert-Added :
      (insert : Db → Bytes ⊎ Db) (w : World)
      → ((db : Db) → Added db (try_insert insert db).1)
      → Added w.db (exec_insert insert w).1.db
  exec_insert-Added insert w h =
      >>=-keeps (λ (v : World). Added w.db v.db) (exec (try_insert insert)) (λ done. lift done) w
        (elim (exec-db (try_insert insert) w) [
          | inl e ↦ rw e (Added-refl w.db)
          | inr e ↦ rw e (h w.db)
        ])
        λ done ran. rw lift-world (elim (exec-db (try_insert insert) w) [
          | inl e ↦ rw e (Added-refl w.db)
          | inr e ↦ rw e (h w.db)
        ])

inserts-quiet :
    (insert : Db → Bytes ⊎ Db) (db : Db) {db' : Db}
    → insert db ≡ inr db'
    → exec_insert insert (quiet db) ≡ (ok tt, quiet db')
unfolding exec exec_on
inserts-quiet insert db e = rw (e, try_insert)

inserts_next :
    (insert : Db → Bytes ⊎ Db) (db : Db) (faults : List (Option Bytes)) {db' : Db}
    → insert db ≡ inr db'
    → exec_insert insert (record { db = db; faults = none ∷ faults })
      ≡ (ok tt, record { db = db'; faults = faults })
unfolding exec exec_on
inserts_next insert db faults e = rw (e, try_insert)

module _ (keys : Keys) where
  -- Whatever addLog returns and whichever of its statements fail, no two logs have one origin
  -- afterwards if none had before, the row of every known log is as it was, so that adding a log
  -- again cannot reset it, and so are the keys of every other log.
  pub add_log-Added :
      (origin key : Bytes) (w : World) → Added origin w.db (add_log keys origin key w).1.db
  unfolding add_log
  add_log-Added origin key w =
      let first = exec_insert (insert_log origin (encode keys.empty_hash)) in
      let w1 = (first w).1 in
      let made = exec_insert-Added origin _ w (insert_log-Added origin (encode keys.empty_hash)) in
      >>=-keeps (λ (v : World). Added origin w.db v.db) first _ w made
        λ _ _.
          >>=-keeps (λ (v : World). Added origin w.db v.db) (lift (keys.verifier_key origin key)) _
            w1 (rw lift-world made)
            λ k _. rw lift-world (
              Added-trans origin w.db w1.db _ made
                (exec_insert-Added origin _ w1 (insert_key-Added origin k)))

  -- The row of a log that was added, and its keys.
  pub record Known (origin k : Bytes) (db db' : Db) : Type 0 where
    pub row :
        find_log origin db'.logs
        ≡ some (record { origin = origin; tree_size = 0; tree_hash = encode keys.empty_hash })
    pub has_keys : find_keys origin db'.keys ≡ find_keys origin db.keys ++ (k ∷ [])

  module _ (origin key k : Bytes) (db : Db) (new : find_log origin db.logs ≡ none)
      (made : keys.verifier_key origin key ≡ inr k) where
    abbrev row : LogRow
    row = record { origin = origin; tree_size = 0; tree_hash = encode keys.empty_hash }

    abbrev with_row : Db
    with_row = record db { logs = db.logs ++ (row ∷ []) }

    row_known : find_log origin with_row.logs ≡ some row
    row_known = rw (find_log-append, bytes_eq_refl origin)

    inserts_log : insert_log origin (encode keys.empty_hash) db ≡ inr with_row
    unfolding insert_log
    inserts_log = rw (new, insert_log)

    inserts_key :
        insert_key origin k with_row
        ≡ inr (record with_row { keys = db.keys ++ (record { origin = origin; key = k } ∷ []) })
    unfolding insert_key
    inserts_key = rw (row_known, insert_key)

    -- Where no statement fails, the origin is new and the key makes a verifier key, addLog
    -- succeeds, the log has a row of size 0 with the hash of the empty tree, and the verifier key
    -- is added behind the keys of its origin.
    pub add_log-Known :
        ((add_log keys origin key (quiet db)).0 ≡ ok tt)
        × Known origin k db (add_log keys origin key (quiet db)).1.db
    unfolding add_log
    add_log-Known =
        rw (inserts-quiet _ db inserts_log, made, inserts-quiet _ with_row inserts_key)
          (refl, record { row = row_known; has_keys = rw (find_keys-append, bytes_eq_refl origin) })

    -- If the origin is new and has no keys, its key makes a verifier key, and the second INSERT
    -- fails, addLog still reports a success: the log has its row, but no key, and the witness does
    -- not know it.
    pub add_log_keyless :
        (lib : Library) (message : Bytes)
        → find_keys origin db.keys ≡ []
        → (let answer =
              add_log keys origin key (record { db = db; faults = none ∷ some message ∷ [] }) in
            (answer.0 ≡ ok tt)
            × (find_log origin answer.1.db.logs ≡ some row)
            × ((get_keys lib origin answer.1).0 ≡ err unknown_log))
    unfolding add_log exec exec_on get_keys some_keys
    add_log_keyless lib message no_keys =
        rw (inserts_next _ db (some message ∷ []) inserts_log, made, no_keys)
          (refl, row_known, refl)
