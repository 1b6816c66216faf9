-- ===== src/Witness/Demo/Laws.antt =====
-- What internal/witness/witness.go relies on, for the demonstration library.
use litetlog.Prelude.{
  ◌≡◌, sym, ap, ◌∙◌, inl, inr, [], ◌∷◌, ◌++◌, append_assoc, arith, bytes_eq_iff, Bool-cases,
}
use litetlog.Std.Strings.{cut_at, cut_at_found}
use litetlog.Tlogx.Checkpoint.{newline}
use litetlog.Witness.Db.Laws.{IsUnique}
use litetlog.Witness.Process.Endorse.{OpensPrefix}
use litetlog.Tlogx.Checkpoint.RoundTrip.{parse_hash-encode}
use litetlog.Witness.Race.Fresh.{TreeLaws}
use litetlog.Witness.Demo.{demo, demo_db}

pub demo-OpensPrefix : OpensPrefix demo
demo-OpensPrefix message verifiers text h =
    elim (Bool-cases (cut_at (newline ∷ newline ∷ []) message).found) [
      | inl found ↦
          let p = cut_at (newline ∷ newline ∷ []) message in
          let same : p.before ++ (newline ∷ []) ≡ text = cc (rw found at h) in
          (
            newline ∷ p.after,
            cut_at_found (newline ∷ newline ∷ []) message found
                ∙ sym (append_assoc p.before (newline ∷ []) (newline ∷ p.after))
                ∙ ap (λ t. t ++ (newline ∷ p.after)) same,
          )
      | inr missing ↦ cc (rw missing at h)
    ]

pub demo-TreeLaws : TreeLaws demo
demo-TreeLaws = record {
  same_tree = λ proof n m h h' checked same. ground (arith, bytes_eq_iff h h');
  reads_back = λ h (bytes, size). parse_hash-encode h bytes size;
}

pub demo-IsUnique : IsUnique demo_db.logs
demo-IsUnique = ((λ e. cc e, tt), (tt, tt))
