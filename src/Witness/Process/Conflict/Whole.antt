-- ===== src/Witness/Process/Conflict/Whole.antt =====
-- The conflicts of `processAddCheckpointRequest` of internal/witness/witness.go as a whole.
use litetlog.Prelude.{
  ℕ, ◌≡◌, refl, sym, ap, subst, Option-cases, ◌∙◌, codes, inl, inr, some, List, [], ◌∷◌, Bytes,
}
use litetlog.Std.Strings.{cut, before-append}
use litetlog.Tlogx.Checkpoint.{newline, Checkpoint, parse_checkpoint}
use litetlog.Witness.Library.{
  conflict, internal, err, Opened, opened, unverified, invalid, malformed, Library, Signer,
}
use litetlog.Witness.Db.{Db, World, ◌>>=◌, ◌>>◌, some_or, lift, pure, exec, find_keys}
use litetlog.Witness.Request.{Request, parse_request}
use litetlog.Witness.Process.{
  parse_key, new_verifiers, some_keys, get_keys, check_consistency, persist_tree_head, opened_text,
  split_signatures, cosign, process_checkpoint, process_text, process_request,
  process_add_checkpoint,
}
use litetlog.Tlogx.Checkpoint.Parse.{first_line-origin}
use litetlog.Witness.Process.Bind.{some_or-ok}
use litetlog.Witness.Process.Cosign.{opened_text-ok}
use litetlog.Witness.Process.Endorse.{OpensPrefix}
use litetlog.Witness.Process.Conflict.{
  Stored, Tells, >>=-Tells, exec-Tells, lift-Tells, internal-Tells, check_consistency-Tells,
  persist_tree_head-Tells,
}

module _ (lib : Library) where
  new_verifiers-Tells :
      {o : Bytes} (keys : List Bytes) (w : World)
      → Tells o (new_verifiers lib keys w).0 (new_verifiers lib keys w).1
  unfolding new_verifiers
  new_verifiers-Tells [] w = λ n h. cc h
  new_verifiers-Tells (k ∷ keys) w =
      let rest =
        λ (v : lib.Verifier). (new_verifiers lib keys >>= λ verifiers. pure (v ∷ verifiers)) in
      >>=-Tells (lift (parse_key lib k)) rest w (lift-Tells (parse_key lib k) w) λ v _.
        let w' = (lift (parse_key lib k) w).1 in
        >>=-Tells (new_verifiers lib keys) (λ verifiers. pure (v ∷ verifiers)) w'
          (new_verifiers-Tells keys w') λ verifiers _ n h. cc h

  some_keys-Tells :
      {o : Bytes} (keys : List Bytes) (w : World)
      → Tells o (some_keys lib keys w).0 (some_keys lib keys w).1
  unfolding some_keys
  some_keys-Tells [] w = λ n h. cc h
  some_keys-Tells (k ∷ keys) w = new_verifiers-Tells (k ∷ keys) w

  get_keys-Tells :
      {o : Bytes} (origin : Bytes) (w : World)
      → Tells o (get_keys lib origin w).0 (get_keys lib origin w).1
  unfolding get_keys
  get_keys-Tells origin w =
      let read : Db → List Bytes × Db = λ db. (find_keys origin db.keys, db) in
      >>=-Tells (exec read) (some_keys lib) w (exec-Tells read w)
        λ keys _. some_keys-Tells keys (exec read w).1

  opened_text-Tells :
      {j : Bytes} (o : Opened) (w : World) → Tells j (opened_text lib o w).0 (opened_text lib o w).1
  unfolding opened_text
  opened_text-Tells (opened text) w n h = cc
  opened_text-Tells unverified w n h = cc
  opened_text-Tells invalid w n h = cc
  opened_text-Tells (malformed message) w n h = cc

  cosign-Tells :
      {o : Bytes} (s : Signer) (text : Bytes) (w : World)
      → Tells o (cosign lib s text w).0 (cosign lib s text w).1
  unfolding cosign
  cosign-Tells s text w =
      let rest =
        λ (signed : Bytes). some_or (internal (codes "invalid note")) (split_signatures signed) in
      >>=-Tells (lift (lib.sign_note text s)) rest w (lift-Tells (lib.sign_note text s) w)
        λ signed _.
          internal-Tells (codes "invalid note") (split_signatures signed)
            (lift (lib.sign_note text s) w).1

  module _ (s : Signer) (r : Request) (prefix : OpensPrefix lib) where
    -- The first line of the note is the origin of its checkpoint.
    first_line :
        (vs : List lib.Verifier) (text : Bytes) (c : Checkpoint)
        → lib.open_note r.note vs ≡ opened text
        → parse_checkpoint text ≡ some c
        → c.origin ≡ (cut newline r.note).before
    first_line vs text c opens parsed =
        let (rest, whole) = prefix r.note vs text opens in
        let (found, first) = first_line-origin text parsed in
        sym (ap (λ t. (cut newline t).before) whole ∙ before-append newline text rest found ∙ first)

    process_checkpoint-Tells :
        (text : Bytes) (c : Checkpoint) (w : World)
        → Tells c.origin
            (process_checkpoint lib s r text c w).0
            (process_checkpoint lib s r text c w).1
    unfolding process_checkpoint
    process_checkpoint-Tells text c w =
        let check = check_consistency lib c.origin r.old_size c.size c.hash r.proof in
        let persist = persist_tree_head lib c.origin r.old_size c.size c.hash in
        let w1 = (check w).1 in
        >>=-Tells check (λ _. persist >> cosign lib s text) w
          (check_consistency-Tells lib c.origin r.old_size c.size c.hash r.proof w)
          λ _ _.
            >>=-Tells persist (λ _. cosign lib s text) w1
              (persist_tree_head-Tells lib c.origin r.old_size c.size c.hash w1)
              λ _ _. cosign-Tells s text (persist w1).1

    process_text-Tells :
        (text : Bytes) (w : World) {o : Bytes}
        → ((c : Checkpoint) → parse_checkpoint text ≡ some c → c.origin ≡ o)
        → Tells o (process_text lib s r text w).0 (process_text lib s r text w).1
    unfolding process_text
    process_text-Tells text w {o} own =
        let parse = some_or (internal (codes "malformed checkpoint")) (parse_checkpoint text) in
        >>=-Tells parse (process_checkpoint lib s r text) w
          (internal-Tells (codes "malformed checkpoint") (parse_checkpoint text) w)
          λ c parsed.
            let same = own c (some_or-ok _ (parse_checkpoint text) w parsed) in
            subst
              (λ x.
                Tells x (process_checkpoint lib s r text c (parse w).1).0
                  (process_checkpoint lib s r text c (parse w).1).1)
              same (process_checkpoint-Tells text c (parse w).1)

    process_request-Tells :
        (w : World)
        → Tells
            (cut newline r.note).before
            (process_request lib s r w).0
            (process_request lib s r w).1
    unfolding process_request
    process_request-Tells w =
        let keys = get_keys lib (cut newline r.note).before in
        let rest = λ (vs : List lib.Verifier).
          (opened_text lib (lib.open_note r.note vs) >>= process_text lib s r) in
        >>=-Tells keys rest w (get_keys-Tells (cut newline r.note).before w) λ vs _.
          let open_it = opened_text lib (lib.open_note r.note vs) in
          >>=-Tells open_it (process_text lib s r) (keys w).1
            (opened_text-Tells (lib.open_note r.note vs) (keys w).1)
            λ text opens. process_text-Tells text (open_it (keys w).1).1 λ c parsed.
              first_line vs text c (opened_text-ok lib (lib.open_note r.note vs) (keys w).1 opens)
                parsed

  -- A conflict tells the size of the log that the request's note names.
  pub process_add_checkpoint-Tells :
      (prefix : OpensPrefix lib) (s : Signer) (body : Bytes) (w : World) (n : ℕ)
      → (process_add_checkpoint lib s body w).0 ≡ err (conflict n)
      → (r : Request) × (parse_request lib.parse_hash body ≡ some r)
        × Stored (cut newline r.note).before n (process_add_checkpoint lib s body w).1.db
  unfolding process_add_checkpoint
  process_add_checkpoint-Tells prefix s body w n h =
      elim (Option-cases (parse_request lib.parse_hash body)) [
        | inl e ↦ cc (rw (e, process_add_checkpoint) at h)
        | inr (r, e) ↦
            rw (e, process_add_checkpoint)
              (r, refl, process_request-Tells s r prefix w n (rw (e, process_add_checkpoint) at h))
      ]
