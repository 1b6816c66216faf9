-- ===== src/Witness/Spec/Split.antt =====
-- No split view: the heads that internal/witness/witness.go cosigns for one log, request after
-- request, lie one behind another.
use litetlog.Prelude.{
  ◌≤◌, ◌≡◌, ◌≢◌, refl, sym, ap, subst, List, [], ◌∷◌, ◌++◌, All, All-append, Bytes, some,
  some_injective, ◌∙◌, bytes_eq_refl,
}
use litetlog.Witness.Library.{Library, Signer}
use litetlog.Witness.Db.{World}
use litetlog.Witness.Process.{Head, process_add_checkpoint}
use litetlog.Witness.Process.Endorse.{OpensPrefix}
use litetlog.Witness.Process.Rollback.{process_all}
use litetlog.Witness.Race.Fresh.{TreeLaws}
use litetlog.Witness.Spec.{View, put, Step, refuse, move, cosign, Run, done, more}
use litetlog.Witness.Spec.Growth.{
  Leads, stay, grow, Leads-trans, Leads-le, Leads-same_size, Step-LeadsTo,
}
use litetlog.Witness.Spec.Refine.{Answers, view, process_add_checkpoint-Step}

module _ (lib : Library) where
  -- The heads that the answers to requests cosign, in the order of the requests.
  pub data Answered : List (Signer × Bytes) → World → List (Bytes × Head) → World → Type 0 where
    idle : {w : World} → Answered [] w [] w
    serve :
        {requests : List (Signer × Bytes)} {w w' : World} {heads later : List (Bytes × Head)}
        (s : Signer) (body : Bytes)
        → Answers lib s body (process_add_checkpoint lib s body w).0 heads
        → Answered requests (process_add_checkpoint lib s body w).1 later w'
        → Answered ((s, body) ∷ requests) w (heads ++ later) w'

  pub process_all-Run :
      TreeLaws lib
      → OpensPrefix lib
      → (requests : List (Signer × Bytes)) (w : World)
      → (heads : List (Bytes × Head)) × Answered requests w heads (process_all lib requests w)
        × Run lib (view lib w.db) heads (view lib (process_all lib requests w).db)
  unfolding process_all
  process_all-Run laws prefix [] w = ([], idle, done)
  process_all-Run laws prefix ((s, body) ∷ requests) w =
      let (heads, answers, step) = process_add_checkpoint-Step lib laws prefix s body w in
      let (later, serves, run) =
        process_all-Run laws prefix requests (process_add_checkpoint lib s body w).1 in
      (heads ++ later, serve s body answers serves, more step run)

  abbrev pub After : Bytes → Head → Bytes × Head → Type 0
  After o h p = p.0 ≡ o → Leads lib h p.1

  abbrev pub InOrder : List (Bytes × Head) → Type 0
  InOrder [] = Unit
  InOrder ((o, h) ∷ heads) = All (After o h) heads × InOrder heads

  Step-After :
      {view view' : View} {heads : List (Bytes × Head)} (o : Bytes) (h : Head)
      → Step lib view heads view'
      → view o ≡ some h
      → All (After o h) heads
  Step-After o h refuse known = tt
  Step-After o h (move _ _ _ _ _) known = tt
  Step-After {view} o h (cosign o' old new here g) known = (
    λ same.
        subst (λ x. Leads lib x new) (some_injective (sym here ∙ ap view same ∙ known))
          (grow stay g),
    tt,
  )

  After-Leads :
      (o : Bytes) {h h' : Head} (heads : List (Bytes × Head))
      → Leads lib h h'
      → All (After o h') heads
      → All (After o h) heads
  After-Leads o [] p q = tt
  After-Leads o (x ∷ heads) p (q, rest) =
      (λ same. Leads-trans lib p (q same), After-Leads o heads p rest)

  Run-After :
      {view view' : View} {heads : List (Bytes × Head)} (o : Bytes) (h : Head)
      → Run lib view heads view'
      → view o ≡ some h
      → All (After o h) heads
  Run-After o h done known = tt
  Run-After o h (more {heads = heads} {later = later} step run) known =
      let (h', known', first) = Step-LeadsTo lib o h step known in
      All-append (After o h) heads later (Step-After o h step known)
        (After-Leads o later first (Run-After o h' run known'))

  Run-InOrder :
      {view view' : View} {heads : List (Bytes × Head)} → Run lib view heads view' → InOrder heads
  Run-InOrder done = tt
  Run-InOrder (more refuse run) = Run-InOrder run
  Run-InOrder (more (move _ _ _ _ _) run) = Run-InOrder run
  Run-InOrder {view} (more (cosign o old new here g) run) =
      let own : put o new view o ≡ some new = rw (bytes_eq_refl o) refl in
      (Run-After o new run own, Run-InOrder run)

  -- One view: of two heads of one log the later is not smaller, and has the same hash at one size.
  abbrev pub OneView : List (Bytes × Head) → Type 0
  OneView [] = Unit
  OneView ((o, h) ∷ heads) =
      All
        (λ p. p.0 ≡ o → (h.size ≤ p.1.size) × (h.size ≢ 0 → h.size ≡ p.1.size → h.hash ≡ p.1.hash))
        heads
      × OneView heads

  module _ (laws : TreeLaws lib) where
    After-OneView :
        (o : Bytes) (h : Head) (heads : List (Bytes × Head))
        → All (After o h) heads
        → All
            (λ p.
              p.0 ≡ o → (h.size ≤ p.1.size) × (h.size ≢ 0 → h.size ≡ p.1.size → h.hash ≡ p.1.hash))
            heads
    After-OneView o h [] q = tt
    After-OneView o h (x ∷ heads) (q, rest) = (
      λ same. (Leads-le lib (q same), Leads-same_size lib laws (q same)),
      After-OneView o h heads rest,
    )

    InOrder-OneView : (heads : List (Bytes × Head)) → InOrder heads → OneView heads
    InOrder-OneView [] q = tt
    InOrder-OneView ((o, h) ∷ heads) (q, rest) =
        (After-OneView o h heads q, InOrder-OneView heads rest)

    -- If CheckTree holds of two trees of one size only where their hashes are equal, ParseHash
    -- reads the text of a hash, which is 32 bytes, back, and note.Open returns a prefix of the
    -- note, then whatever requests are served one after another, of any two cosigned heads of one
    -- log the later is not smaller than the earlier, and where their sizes are equal and not 0, so
    -- are their hashes.
    pub process_all-OneView :
        OpensPrefix lib
        → (requests : List (Signer × Bytes)) (w : World)
        → (heads : List (Bytes × Head)) × Answered requests w heads (process_all lib requests w)
          × OneView heads
    process_all-OneView prefix requests w =
        let (heads, answered, run) = process_all-Run laws prefix requests w in
        (heads, answered, InOrder-OneView heads (Run-InOrder run))
