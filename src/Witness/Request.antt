-- ===== src/Witness/Request.antt =====
-- The body of an add-checkpoint request, as `processAddCheckpointRequest` of
-- internal/witness/witness.go takes it apart.
use litetlog.Prelude.{
  ℕ, Option, none, some, List, [], ◌∷◌, if◌then◌else◌, ◌>>=◌, Bytes, codes, pos, negsuc,
}
use litetlog.Std.Strings.{cut_at, cut_prefix, split}
use litetlog.Std.Strconv.{parse_int}
use litetlog.Tlogx.Checkpoint.{newline}

pub record Request : Type 0 where
  pub old_size : ℕ
  pub proof : List Bytes
  pub note : Bytes

-- `ParseInt` of the size, and the test `oldSize < 0`.
unfoldable pub parse_old_size : Bytes → Option ℕ
parse_old_size size = do n ← parse_int size; elim n [ pos n ↦ some n | negsuc _ ↦ none ]

module _ (parse_hash : Bytes → Option Bytes) where
  unfoldable pub parse_proof : List Bytes → Option (List Bytes)
  parse_proof [] = some []
  parse_proof (line ∷ lines) = do h ← parse_hash line; hs ← parse_proof lines; some (h ∷ hs)

  unfoldable pub parse_lines : Bytes → List Bytes → Option Request
  parse_lines note [] = none
  parse_lines note (line ∷ lines) = do
    size ← cut_prefix (codes "old ") line
    old ← parse_old_size size
    proof ← parse_proof lines
    some (record { old_size = old; proof = proof; note = note })

  -- `none` stands for `errBadRequest`.
  unfoldable pub parse_request : Bytes → Option Request
  unfolding parse_lines parse_proof parse_old_size
  parse_request body =
      let p = cut_at (newline ∷ newline ∷ []) body in
      if p.found then parse_lines p.after (split newline p.before) else none
