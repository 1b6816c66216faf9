-- ===== src/Witness/Spec.antt =====
-- What the witness of internal/witness/witness.go promises: a map from logs to tree heads, in which
-- a head is replaced only by one that is checked to extend it, and a head is cosigned only as it
-- becomes the one in the map.
pub mod Growth
pub mod Refine
pub mod Split
use litetlog.Prelude.{
  ℕ, ◌≤◌, ◌≡◌, ◌⊎◌, true, Option, none, some, List, [], ◌∷◌, ◌++◌, if◌then◌else◌, Bytes, bytes_eq,
}
use litetlog.Witness.Library.{Library}
use litetlog.Witness.Process.{Head}

abbrev pub View : Type 0
View = Bytes → Option Head

abbrev pub put : Bytes → Head → View → View
put o h view j = if bytes_eq j o then some h else view j

module _ (lib : Library) where
  abbrev pub Grows : Head → Head → Type 0
  Grows old new =
      (old.size ≤ new.size)
      × ((old.size ≡ 0)
          ⊎ ((proof : List Bytes) × (lib.check_tree proof new.size new.hash old.size old.hash
                ≡ true)))

  -- A request, with the heads that it gets a cosignature for: one or none.
  pub data Step (view : View) : List (Bytes × Head) → View → Type 0 where
    refuse : Step view [] view
    -- The witness fails behind the UPDATE.
    move :
        (o : Bytes) (old new : Head)
        → view o ≡ some old
        → Grows old new
        → Step view [] (put o new view)
    cosign :
        (o : Bytes) (old new : Head)
        → view o ≡ some old
        → Grows old new
        → Step view ((o, new) ∷ []) (put o new view)

  pub data Run : View → List (Bytes × Head) → View → Type 0 where
    done : {view : View} → Run view [] view
    more :
        {view view' view'' : View} {heads later : List (Bytes × Head)}
        → Step view heads view'
        → Run view' later view''
        → Run view (heads ++ later) view''
