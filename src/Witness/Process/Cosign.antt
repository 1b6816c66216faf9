-- ===== src/Witness/Process/Cosign.antt =====
-- What it takes to get a cosignature from `processAddCheckpointRequest` of
-- internal/witness/witness.go.
use litetlog.Prelude.{◌≤◌, ◌≡◌, ◌≢◌, inr, sym, ap, subst, ◌∙◌, some, List, [], ◌∷◌, arith, Bytes}
use mathlib.Core.List.{cons-ne-nil}
use litetlog.Std.Strings.{cut}
use litetlog.Tlogx.Checkpoint.{newline, Checkpoint, parse_checkpoint}
use litetlog.Witness.Library.{ok, Opened, opened, Library, Signer}
use litetlog.Witness.Db.{Db, World, ◌>>◌, exec, find_keys, count_rows, some_or, lift}
use litetlog.Witness.Request.{Request}
use litetlog.Witness.Process.{
  Head, split_signatures, new_verifiers, parse_key, some_keys, get_keys, check_consistency,
  persist_tree_head, opened_text, cosign, process_checkpoint, process_text, process_request,
}
use litetlog.Witness.Process.Bind.{>>=-eq-ok, exec-ok, some_or-world, some_or-ok, lift-ok}
use litetlog.Witness.Process.Check.{Known, IsConsistent, check_consistency-db, check_consistency-ok}
use litetlog.Witness.Process.Persist.{update, persist_tree_head-ok}
use litetlog.Witness.Process.Accept.{get_keys-db, opened_text-world, cosign-world}

module _ (lib : Library) where
  -- The keys parse to the verifiers, one for one.
  abbrev pub VerifiersOf : List Bytes → List lib.Verifier → Type 0
  VerifiersOf [] [] = Unit
  VerifiersOf (k ∷ keys) (v ∷ verifiers) = (lib.new_verifier k ≡ inr v) × VerifiersOf keys verifiers
  VerifiersOf _ _ = ⊥

  -- The checkpoint of a request is consistent with the database `db`, and `db'` is what `db` becomes.
  pub record Accepted (c : Checkpoint) (r : Request) (db db' : Db) : Type 0 where
    pub known : Head
    pub row : Known lib c.origin db known
    pub grows : r.old_size ≤ c.size
    pub consistent : IsConsistent lib r.old_size c.size c.hash r.proof known
    pub updated : db' ≡ update lib c.origin r.old_size c.size c.hash db
    pub one_row : count_rows c.origin r.old_size db.logs ≡ 1

  -- The cosignature: the signature lines of the signed text.
  pub record Cosigned (s : Signer) (text sigs : Bytes) : Type 0 where
    pub signed : Bytes
    pub signs : lib.sign_note text s ≡ inr signed
    pub splits : split_signatures signed ≡ some sigs

  cosign-ok :
      (s : Signer) (text : Bytes) (w : World) {sigs : Bytes}
      → (cosign lib s text w).0 ≡ ok sigs
      → Cosigned s text sigs
  unfolding cosign
  cosign-ok s text w h =
      let b = >>=-eq-ok (lift (lib.sign_note text s)) _ w h in
      record {
        signed = b.value;
        signs = lift-ok (lib.sign_note text s) w b.first;
        splits = some_or-ok _ (split_signatures b.value) _ b.second;
      }

  process_checkpoint-ok :
      (s : Signer) (r : Request) (text : Bytes) (c : Checkpoint) (w : World) {sigs : Bytes}
      → (process_checkpoint lib s r text c w).0 ≡ ok sigs
      → Accepted c r w.db (process_checkpoint lib s r text c w).1.db × Cosigned s text sigs
  unfolding process_checkpoint
  process_checkpoint-ok s r text c w h =
      let check = check_consistency lib c.origin r.old_size c.size c.hash r.proof in
      let persist = persist_tree_head lib c.origin r.old_size c.size c.hash in
      let same = check_consistency-db lib c.origin r.old_size c.size c.hash r.proof w in
      let first = >>=-eq-ok check (λ _. persist >> cosign lib s text) w h in
      let (grows, found) =
        check_consistency-ok lib c.origin r.old_size c.size c.hash r.proof w first.first in
      let second = >>=-eq-ok persist (λ _. cosign lib s text) (check w).1 first.second in
      let (updated, one) =
        persist_tree_head-ok lib c.origin r.old_size c.size c.hash (check w).1 second.first in
      (
        record {
          known = found.0;
          row = found.1;
          grows = grows;
          consistent = found.2;
          updated =
              ap (λ (v : World). v.db)
                (first.world ∙ second.world ∙ cosign-world lib s text (persist (check w).1).1)
              ∙ updated
              ∙ ap (update lib c.origin r.old_size c.size c.hash) same;
          one_row = subst (λ (db : Db). count_rows c.origin r.old_size db.logs ≡ 1) same one;
        },
        cosign-ok s text _ second.second,
      )

  -- The signed text is the checkpoint that was checked.
  pub record Checked (s : Signer) (r : Request) (text : Bytes) (db db' : Db) (sigs : Bytes)
      : Type 0 where
    pub checkpoint : Checkpoint
    pub parses : parse_checkpoint text ≡ some checkpoint
    pub accepted : Accepted checkpoint r db db'
    pub cosigned : Cosigned s text sigs

  process_text-ok :
      (s : Signer) (r : Request) (text : Bytes) (w : World) {sigs : Bytes}
      → (process_text lib s r text w).0 ≡ ok sigs
      → Checked s r text w.db (process_text lib s r text w).1.db sigs
  unfolding process_text
  process_text-ok s r text w {sigs} h =
      let b = >>=-eq-ok (some_or _ (parse_checkpoint text)) (process_checkpoint lib s r text) w h in
      let c = b.value in
      let start = some_or-world _ (parse_checkpoint text) w in
      let second : (process_checkpoint lib s r text c w).0 ≡ ok sigs =
        subst (λ v. (process_checkpoint lib s r text c v).0 ≡ ok sigs) start b.second in
      let (accepted, cosigned) = process_checkpoint-ok s r text c w second in
      record {
        checkpoint = c;
        parses = some_or-ok _ (parse_checkpoint text) w b.first;
        accepted =
            subst (λ (v : World). Accepted c r w.db v.db)
              (sym (b.world ∙ ap (λ v. (process_checkpoint lib s r text c v).1) start)) accepted;
        cosigned = cosigned;
      }

  parse_key-ok :
      (k : Bytes) {v : lib.Verifier} → parse_key lib k ≡ inr v → lib.new_verifier k ≡ inr v
  unfolding parse_key
  parse_key-ok k h = ground arith

  new_verifiers-ok :
      (keys : List Bytes) (w : World) {verifiers : List lib.Verifier}
      → (new_verifiers lib keys w).0 ≡ ok verifiers
      → VerifiersOf keys verifiers
  unfolding new_verifiers
  new_verifiers-ok [] w {verifiers} h = let e : [] ≡ verifiers = cc in subst (VerifiersOf []) e tt
  new_verifiers-ok (k ∷ keys) w {verifiers} h =
      let first = >>=-eq-ok (lift (parse_key lib k)) _ w h in
      let second = >>=-eq-ok (new_verifiers lib keys) _ (lift (parse_key lib k) w).1 first.second in
      let e : first.value ∷ second.value ≡ verifiers = cc second.second in
      subst (VerifiersOf (k ∷ keys)) e (
        parse_key-ok k (lift-ok (parse_key lib k) w first.first),
        new_verifiers-ok keys (lift (parse_key lib k) w).1 second.first,
      )

  abbrev pub KeysOf : List Bytes → List lib.Verifier → Type 0
  KeysOf keys verifiers = (keys ≢ []) × VerifiersOf keys verifiers

  some_keys-ok :
      (keys : List Bytes) (w : World) {verifiers : List lib.Verifier}
      → (some_keys lib keys w).0 ≡ ok verifiers
      → KeysOf keys verifiers
  unfolding some_keys
  some_keys-ok [] w h = cc
  some_keys-ok (k ∷ keys) w h = (cons-ne-nil k keys, new_verifiers-ok (k ∷ keys) w h)

  get_keys-ok :
      (origin : Bytes) (w : World) {verifiers : List lib.Verifier}
      → (get_keys lib origin w).0 ≡ ok verifiers
      → KeysOf (find_keys origin w.db.keys) verifiers
  unfolding get_keys
  get_keys-ok origin w {verifiers} h =
      let b = >>=-eq-ok (exec (λ db. (find_keys origin db.keys, db))) (some_keys lib) w h in
      let read = (exec-ok (λ db. (find_keys origin db.keys, db)) w b.first).0 in
      subst (λ keys. KeysOf keys verifiers) (sym read) (some_keys-ok b.value _ b.second)

  pub opened_text-ok :
      (o : Opened) (w : World) {text : Bytes} → (opened_text lib o w).0 ≡ ok text → o ≡ opened text
  unfolding opened_text
  opened_text-ok o w h = ground arith

  -- What stands behind a cosignature of the request `r`.
  pub record Witnessed (s : Signer) (r : Request) (db db' : Db) (sigs : Bytes) : Type 0 where
    pub verifiers : List lib.Verifier
    pub text : Bytes
    pub keys : KeysOf (find_keys (cut newline r.note).before db.keys) verifiers
    pub opens : lib.open_note r.note verifiers ≡ opened text
    pub checked : Checked s r text db db' sigs

  pub process_request-ok :
      (s : Signer) (r : Request) (w : World) {sigs : Bytes}
      → (process_request lib s r w).0 ≡ ok sigs
      → Witnessed s r w.db (process_request lib s r w).1.db sigs
  unfolding process_request
  process_request-ok s r w {sigs} h =
      let origin = (cut newline r.note).before in
      let first = >>=-eq-ok (get_keys lib origin) _ w h in
      let w' = (get_keys lib origin w).1 in
      let o = lib.open_note r.note first.value in
      let second = >>=-eq-ok (opened_text lib o) (process_text lib s r) w' first.second in
      let text = second.value in
      let same : (opened_text lib o w').1 ≡ w' = opened_text-world lib o w' in
      let third : (process_text lib s r text w').0 ≡ ok sigs =
        subst (λ v. (process_text lib s r text v).0 ≡ ok sigs) same second.second in
      let ends : (process_request lib s r w).1 ≡ (process_text lib s r text w').1 =
        first.world ∙ second.world ∙ ap (λ v. (process_text lib s r text v).1) same in
      record {
        verifiers = first.value;
        text = text;
        keys = get_keys-ok origin w first.first;
        opens = opened_text-ok o w' second.first;
        checked =
            subst (λ (db : Db). Checked s r text db (process_request lib s r w).1.db sigs)
              (get_keys-db lib origin w)
              (subst (λ (v : World). Checked s r text w'.db v.db sigs) (sym ends)
                (process_text-ok s r text w' third));
      }
