-- ===== src/Matching/Registry/Laws.antt =====
-- What a registration does to the families that the registry resolves.
use sim_trade.Prelude.{
  ◌≡◌, ◌∙◌, ◌≢◌, refl, Bool, true, false, ◌||◌, none, some, List, [], ◌∷◌, arith, Option-cases, inl,
  inr, if◌then◌else◌,
}
use sim_trade.Enums.{ProductFamily}
use sim_trade.Matching.Registry.{same_family, registered, duplicate_family, resolve, register}

-- `family in strategy.families`
abbrev pub has_family : ProductFamily → List ProductFamily → Bool
has_family f [] = false
has_family f (g ∷ rest) = same_family g f || has_family f rest

choose_family :
    {A : Type 0} (b c : Bool) (x y : A)
    → (if c then x else (if b then x else y)) ≡ (if b || c then x else y)
choose_family true true x y = refl
choose_family true false x y = refl
choose_family false true x y = refl
choose_family false false x y = refl

same_family→eq : (f g : ProductFamily) → same_family f g ≡ true → f ≡ g
same_family→eq f g h = ground arith

module _ {S : Type 0} where
  register-free :
      (s : S) (g : ProductFamily) (rest : List ProductFamily)
      (strategies : List (ProductFamily × S))
      → resolve strategies g ≡ none
      → register s (g ∷ rest) strategies ≡ register s rest ((g, s) ∷ strategies)
  unfolding register
  register-free s g rest strategies free = ground arith

  register-taken :
      (s t : S) (g : ProductFamily) (rest : List ProductFamily)
      → (strategies : List (ProductFamily × S)) → resolve strategies g ≡ some t
      → register s (g ∷ rest) strategies ≡ (duplicate_family, strategies)
  unfolding register
  register-taken s t g rest strategies taken = ground arith

  not_registered :
      (s t : S) (g : ProductFamily) (rest : List ProductFamily)
      → (strategies : List (ProductFamily × S)) → resolve strategies g ≡ some t
      → (register s (g ∷ rest) strategies).0 ≢ registered
  not_registered s t g rest strategies taken h =
      let h' = rw (register-taken s t g rest strategies taken) at h in cc

  newer_keeps :
      (s t : S) (g f : ProductFamily) (strategies : List (ProductFamily × S))
      → resolve strategies g ≡ none
      → resolve strategies f ≡ some t
      → resolve ((g, s) ∷ strategies) f ≡ some t
  unfolding resolve
  newer_keeps s t g f strategies free h = ground (arith, same_family→eq g f)

  -- A strategy that was registered is what each of its families resolves to, and the other families
  -- resolve as before. A family that was taken is never overwritten.
  pub resolve-register :
      (s : S) (families : List ProductFamily) (strategies : List (ProductFamily × S))
      → (f : ProductFamily) → (register s families strategies).0 ≡ registered
      → resolve (register s families strategies).1 f
        ≡ (if has_family f families then some s else resolve strategies f)
  unfolding register resolve
  resolve-register s [] strategies f h = refl
  resolve-register s (g ∷ rest) strategies f h = elim (Option-cases (resolve strategies g)) [
    | inl free ↦
        let h' = rw (register-free s g rest strategies free) at h in
        rw (register-free s g rest strategies free) (
          resolve-register s rest ((g, s) ∷ strategies) f h'
          ∙ choose_family (same_family g f) (has_family f rest) (some s) (resolve strategies f)
          ∙ refl)
    | inr (t, taken) ↦ absurd (not_registered s t g rest strategies taken h)
  ]

  -- Whether a registration goes through or not, no family that had a strategy loses it or gets another.
  pub register-keeps :
      (s t : S) (families : List ProductFamily) (strategies : List (ProductFamily × S))
      → (f : ProductFamily) → resolve strategies f ≡ some t
      → resolve (register s families strategies).1 f ≡ some t
  unfolding register
  register-keeps s t [] strategies f h = h
  register-keeps s t (g ∷ rest) strategies f h = elim (Option-cases (resolve strategies g)) [
    | inl free ↦
        rw (register-free s g rest strategies free)
          (register-keeps s t rest ((g, s) ∷ strategies) f (newer_keeps s t g f strategies free h))
    | inr (u, taken) ↦ rw (register-taken s u g rest strategies taken) h
  ]
