-- ===== src/Witness/Spec/Growth.antt =====
-- How heads grow under the promise of internal/witness/witness.go.
use litetlog.Prelude.{
  ◌≤◌, ◌≡◌, ◌≢◌, refl, sym, ap, subst, ◌∙◌, inl, inr, Option, some, List, Bytes, bytes_eq,
  bytes_eq_iff, Bool-cases, some_injective, arith,
}
use litetlog.Witness.Library.{Library}
use litetlog.Witness.Process.{Head}
use litetlog.Witness.Race.Fresh.{TreeLaws}
use litetlog.Witness.Spec.{View, put, Grows, Step, refuse, move, cosign, Run, done, more}

module _ (lib : Library) where
  -- One head after another.
  pub data Leads (h : Head) : Head → Type 0 where
    stay : Leads h h
    grow : {h' h'' : Head} → Leads h h' → Grows lib h' h'' → Leads h h''

  pub Leads-trans : {a b c : Head} → Leads a b → Leads b c → Leads a c
  Leads-trans p stay = p
  Leads-trans p (grow q g) = grow (Leads-trans p q) g

  abbrev pub LeadsTo : Head → Option Head → Type 0
  LeadsTo h o = (h' : Head) × (o ≡ some h') × Leads h h'

  put-LeadsTo :
      (view : View) (o j : Bytes) (old new h : Head)
      → view o ≡ some old
      → Grows lib old new
      → view j ≡ some h
      → LeadsTo h (put o new view j)
  put-LeadsTo view o j old new h known g here = elim (Bool-cases (bytes_eq j o)) [
    | inl own ↦
        let same : old ≡ h =
          some_injective (sym known ∙ ap view (sym ((bytes_eq_iff j o).0 own)) ∙ here) in
        rw own (new, refl, grow stay (subst (λ x. Grows lib x new) same g))
    | inr other ↦ rw other (h, here, stay)
  ]

  pub Step-LeadsTo :
      {view view' : View} {heads : List (Bytes × Head)} (j : Bytes) (h : Head)
      → Step lib view heads view'
      → view j ≡ some h
      → LeadsTo h (view' j)
  Step-LeadsTo j h refuse here = (h, here, stay)
  Step-LeadsTo {view} j h (move o old new known g) here =
      put-LeadsTo view o j old new h known g here
  Step-LeadsTo {view} j h (cosign o old new known g) here =
      put-LeadsTo view o j old new h known g here

  pub Run-LeadsTo :
      {view view' : View} {heads : List (Bytes × Head)} (j : Bytes) (h : Head)
      → Run lib view heads view'
      → view j ≡ some h
      → LeadsTo h (view' j)
  Run-LeadsTo j h done here = (h, here, stay)
  Run-LeadsTo j h (more s r) here =
      let (h', here', first) = Step-LeadsTo j h s here in
      let (h'', here'', later) = Run-LeadsTo j h' r here' in (h'', here'', Leads-trans first later)

  pub Leads-le : {h h' : Head} → Leads h h' → h.size ≤ h'.size
  Leads-le stay = omega arith
  Leads-le (grow p g) = omega (arith, Leads-le p, g.0)

  -- Heads of one size, which is not 0, have one hash.
  pub Leads-same_size :
      TreeLaws lib → {h h' : Head} → Leads h h' → h.size ≢ 0 → h.size ≡ h'.size → h.hash ≡ h'.hash
  Leads-same_size laws stay ne e = refl
  Leads-same_size laws {h} {h'} (grow {h' = h1} p (le, inl zero)) ne e =
      absurd (ne (omega (arith, Leads-le p, zero)))
  Leads-same_size laws {h} {h'} (grow {h' = h1} p (le, inr (proof, checked))) ne e =
      let middle : h.size ≡ h1.size = omega (arith, Leads-le p, le, e) in
      Leads-same_size laws p ne middle
      ∙ sym
          (laws.same_tree proof h'.size h1.size h'.hash h1.hash checked (omega (arith, middle, e)))
