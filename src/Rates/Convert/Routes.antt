-- ===== src/Rates/Convert/Routes.antt =====
-- What the resolution of a path guarantees.
pub mod Legs
use grosh.Prelude.{
  refl, Option, ℕ, String, true, false, ◌||◌, none, some, List, [], ◌∷◌, ◌≡◌, subst, ◌⊎◌, inl, inr,
  Option-cases, Bool-cases, All, arith, str_eq,
}
use grosh.Rates.Table.{CurrencyRate}
use grosh.Rates.Lookup.{SourceConfig}
use grosh.Rates.Convert.{
  RateTier, fresh, closest, RatePath, resolve_leg, two_hops, via_pivots, at_tier, resolve_path,
}
use grosh.Rates.Convert.Routes.Legs.{IsLeg, HasNoLeg, resolve_leg-IsLeg, resolve_leg-none}

module _ (rates : List CurrencyRate) (at_time : ℕ) where
  -- A route at one tier: one step, or two that meet in a third currency.
  abbrev pub IsRoute : String → String → List SourceConfig → RateTier → RatePath → Type 0
  IsRoute src tgt chain tier [] = ⊥
  IsRoute src tgt chain tier (step ∷ []) = IsLeg rates at_time src tgt chain tier step
  IsRoute src tgt chain tier (left ∷ right ∷ []) =
      (pivot : String) × IsLeg rates at_time src pivot chain tier left
      × IsLeg rates at_time pivot tgt chain tier right
      × (str_eq pivot src ≡ false)
      × (str_eq pivot tgt ≡ false)
  IsRoute src tgt chain tier (_ ∷ _ ∷ _ ∷ _) = ⊥

  module _ (src tgt : String) (chain : List SourceConfig) (tier : RateTier) where
    two_hops-IsRoute :
        (pivot : String) {path : RatePath}
        → two_hops rates at_time src tgt chain tier pivot ≡ some path
        → str_eq pivot src ≡ false
        → str_eq pivot tgt ≡ false
        → IsRoute src tgt chain tier path
    unfolding two_hops
    two_hops-IsRoute pivot {path} h p q =
        elim (Option-cases (resolve_leg rates at_time src pivot chain tier)) [
          | inl e ↦ absurd (ground (arith, e))
          | inr (left, e) ↦ elim (Option-cases (resolve_leg rates at_time pivot tgt chain tier)) [
            | inl f ↦ absurd (ground (arith, e, f))
            | inr (right, f) ↦
                let same : left ∷ right ∷ [] ≡ path = ground (arith, e, f) in
                subst (IsRoute src tgt chain tier) same (
                  pivot,
                  resolve_leg-IsLeg rates at_time src pivot chain tier e,
                  resolve_leg-IsLeg rates at_time pivot tgt chain tier f,
                  p,
                  q,
                )
          ]
        ]

    via_pivots-IsRoute :
        (pivots : List String) {path : RatePath}
        → via_pivots rates at_time src tgt chain tier pivots ≡ some path
        → IsRoute src tgt chain tier path
    unfolding via_pivots
    via_pivots-IsRoute [] h = cc
    via_pivots-IsRoute (pivot ∷ pivots) {path} h = elim (Bool-cases (str_eq pivot src)) [
      | inl skip ↦ via_pivots-IsRoute pivots {path = path} (ground (arith, skip))
      | inr p ↦ elim (Bool-cases (str_eq pivot tgt)) [
        | inl skip ↦ via_pivots-IsRoute pivots {path = path} (ground (arith, p, skip))
        | inr q ↦ elim (Option-cases (two_hops rates at_time src tgt chain tier pivot)) [
          | inl e ↦ via_pivots-IsRoute pivots {path = path} (ground (arith, p, q, e))
          | inr (found, e) ↦
              let same : found ≡ path = ground (arith, p, q, e) in
              subst (IsRoute src tgt chain tier) same (two_hops-IsRoute pivot e p q)
        ]
      ]
    ]

    at_tier-IsRoute :
        (pivots : List String) {path : RatePath}
        → at_tier rates at_time src tgt chain pivots tier ≡ some path
        → IsRoute src tgt chain tier path
    unfolding at_tier
    at_tier-IsRoute pivots {path} h =
        elim (Option-cases (resolve_leg rates at_time src tgt chain tier)) [
          | inl e ↦ via_pivots-IsRoute pivots {path = path} (ground (arith, e))
          | inr (step, e) ↦
              let same : step ∷ [] ≡ path = ground (arith, e) in
              subst (IsRoute src tgt chain tier) same
                (resolve_leg-IsLeg rates at_time src tgt chain tier e)
        ]

    -- Neither the pair itself nor both legs of a pivot, other than its ends, have a stored row.
    abbrev pub HasNoRoute : List String → Type 0
    HasNoRoute pivots =
        HasNoLeg rates at_time src tgt chain tier
        × All
            (λ pivot.
              (str_eq pivot src || str_eq pivot tgt ≡ true)
              ⊎ HasNoLeg rates at_time src pivot chain tier
              ⊎ HasNoLeg rates at_time pivot tgt chain tier)
            pivots

    via_pivots-none :
        (pivots : List String)
        → via_pivots rates at_time src tgt chain tier pivots ≡ none
        → All
            (λ pivot.
              (str_eq pivot src || str_eq pivot tgt ≡ true)
              ⊎ HasNoLeg rates at_time src pivot chain tier
              ⊎ HasNoLeg rates at_time pivot tgt chain tier)
            pivots
    unfolding via_pivots two_hops
    via_pivots-none [] h = tt
    via_pivots-none (pivot ∷ pivots) h = (
      elim (Bool-cases (str_eq pivot src || str_eq pivot tgt)) [
        | inl skip ↦ inl skip
        | inr kept ↦ elim (Option-cases (resolve_leg rates at_time src pivot chain tier)) [
          | inl e ↦ inr (inl (resolve_leg-none rates at_time src pivot chain tier e))
          | inr (left, e) ↦ inr (
              inr
                (resolve_leg-none rates at_time pivot tgt chain tier (ground (arith, h, kept, e))))
        ]
      ],
      via_pivots-none pivots (ground arith),
    )

    at_tier-none :
        (pivots : List String)
        → at_tier rates at_time src tgt chain pivots tier ≡ none
        → HasNoRoute pivots
    unfolding at_tier
    at_tier-none pivots h = (
      resolve_leg-none rates at_time src tgt chain tier (ground arith),
      via_pivots-none pivots (ground arith),
    )

  resolve_path-IsRoute :
      (src tgt : String) (chain : List SourceConfig) (pivots : List String) {path : RatePath}
      → resolve_path rates at_time src tgt chain pivots ≡ some path
      → IsRoute src tgt chain fresh path
        ⊎ (IsRoute src tgt chain closest path × HasNoRoute src tgt chain fresh pivots)
  unfolding resolve_path
  resolve_path-IsRoute src tgt chain pivots {path} h =
      elim (Option-cases (at_tier rates at_time src tgt chain pivots fresh)) [
        | inr (found, e) ↦
            let same : found ≡ path = ground (arith, e) in
            inl (
              subst (IsRoute src tgt chain fresh) same
                (at_tier-IsRoute src tgt chain fresh pivots e))
        | inl e ↦ inr (
          at_tier-IsRoute src tgt chain closest pivots {path = path} (ground (arith, e)),
          at_tier-none src tgt chain fresh pivots e,
        )
      ]

  resolve_path-none :
      (src tgt : String) (chain : List SourceConfig) (pivots : List String)
      → resolve_path rates at_time src tgt chain pivots ≡ none
      → HasNoRoute src tgt chain fresh pivots × HasNoRoute src tgt chain closest pivots
  unfolding resolve_path
  resolve_path-none src tgt chain pivots h =
      elim (Option-cases (at_tier rates at_time src tgt chain pivots fresh)) [
        | inr (found, e) ↦ absurd (ground (arith, e))
        | inl e ↦ (
          at_tier-none src tgt chain fresh pivots e,
          at_tier-none src tgt chain closest pivots (ground (arith, e)),
        )
      ]

  -- What a resolution answers.
  abbrev pub IsResolved :
      String → String → List SourceConfig → List String → Option RatePath → Type 0
  IsResolved src tgt chain pivots none =
      HasNoRoute src tgt chain fresh pivots × HasNoRoute src tgt chain closest pivots
  IsResolved src tgt chain pivots (some path) =
      IsRoute src tgt chain fresh path
      ⊎ (IsRoute src tgt chain closest path × HasNoRoute src tgt chain fresh pivots)

  -- A path that is resolved is a route at one tier, of nearest rates only where no route of fresh rates
  -- exists. Each step has the rate of a stored row of a source of the chain: of the pair, with its
  -- buying price, or of the reverse pair to divide by, with its selling price, and the middle rate
  -- where that is missing; the row is fresh at the instant, or within seven days of it. That a tier has
  -- no route means that no stored row of a source of the chain offers the pair or its reverse at that
  -- tier, nor, for any pivot, one of its two legs. Where no path is resolved, neither tier has a route.
  pub resolve_path-IsResolved :
      (src tgt : String) (chain : List SourceConfig) (pivots : List String)
      → IsResolved src tgt chain pivots (resolve_path rates at_time src tgt chain pivots)
  resolve_path-IsResolved src tgt chain pivots =
      answered (resolve_path rates at_time src tgt chain pivots) refl
    where
      answered :
          (found : Option RatePath)
          → resolve_path rates at_time src tgt chain pivots ≡ found
          → IsResolved src tgt chain pivots found
      answered none h = resolve_path-none src tgt chain pivots h
      answered (some path) h = resolve_path-IsRoute src tgt chain pivots {path = path} h
