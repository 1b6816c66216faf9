-- ===== src/Witness/Demo/Promise.antt =====
-- The promise of internal/witness/witness.go, at the demonstration's requests.
use litetlog.Prelude.{[], ◌∷◌, List, Bytes}
use litetlog.Witness.Db.{quiet}
use litetlog.Witness.Process.{Head, process_add_checkpoint}
use litetlog.Witness.Process.Rollback.{process_all}
use litetlog.Witness.Spec.{Step}
use litetlog.Witness.Spec.Refine.{Answers, view, process_add_checkpoint-Step}
use litetlog.Witness.Spec.Split.{Answered, OneView, process_all-OneView}
use litetlog.Witness.Demo.{demo, demo_signer, demo_db, demo_body}
use litetlog.Witness.Demo.Laws.{demo-OpensPrefix, demo-TreeLaws}

process_add_checkpoint-Step_example :
    (heads : List (Bytes × Head)) × Answers demo demo_signer demo_body
      (process_add_checkpoint demo demo_signer demo_body (quiet demo_db)).0
      heads
    × Step demo
        (view demo demo_db)
        heads
        (view demo (process_add_checkpoint demo demo_signer demo_body (quiet demo_db)).1.db)
process_add_checkpoint-Step_example =
    process_add_checkpoint-Step demo demo-TreeLaws demo-OpensPrefix demo_signer demo_body
      (quiet demo_db)

process_all-OneView_example :
    (heads : List (Bytes × Head)) × Answered demo
      ((demo_signer, demo_body) ∷ (demo_signer, demo_body) ∷ [])
      (quiet demo_db)
      heads
      (process_all demo ((demo_signer, demo_body) ∷ (demo_signer, demo_body) ∷ []) (quiet demo_db))
    × OneView demo heads
process_all-OneView_example =
    process_all-OneView demo demo-TreeLaws demo-OpensPrefix
      ((demo_signer, demo_body) ∷ (demo_signer, demo_body) ∷ []) (quiet demo_db)
