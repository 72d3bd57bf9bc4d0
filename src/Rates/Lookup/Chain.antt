-- ===== src/Rates/Lookup/Chain.antt =====
-- The depth cap of the fallback chain.
use grosh.Prelude.{
  ℕ, zero, suc, ◌≤◌, ◌+◌, String, true, false, none, some, List, [], ◌∷◌, ◌≡◌, refl, ap, inl, inr,
  Option-cases, map, length, arith, Bool-cases, subst, length-map, ◌∙◌,
}
use grosh.Domain.{ok}
use grosh.Rates.Table.{RateSourceConfig}
use grosh.Rates.Lookup.{
  SourceConfig, find_config, walk, is_cut_off, load_source_chain, max_chain_depth, to_source_config,
}

module _ (configs : List RateSourceConfig) where
  walk_missing :
      (depth : ℕ) (source : String)
      → find_config configs source ≡ none
      → walk configs depth source ≡ []
  unfolding walk
  walk_missing zero source e = refl
  walk_missing (suc depth) source e = rw (e, walk)

  walk_last :
      (depth : ℕ) (source : String) (c : RateSourceConfig)
      → find_config configs source ≡ some c
      → c.fallback_source ≡ none
      → walk configs (suc depth) source ≡ c ∷ []
  unfolding walk
  walk_last depth source c e f = ground (arith, e, f)

  walk_next :
      (depth : ℕ) (source : String) (c : RateSourceConfig) (next : String)
      → find_config configs source ≡ some c
      → c.fallback_source ≡ some next
      → walk configs (suc depth) source ≡ c ∷ walk configs depth next
  unfolding walk
  walk_next depth source c next e f = ground (arith, e, f)

  length-walk : (depth : ℕ) (source : String) → length (walk configs depth source) ≤ depth
  unfolding walk
  length-walk zero source = omega arith
  length-walk (suc depth) source = elim (Option-cases (find_config configs source)) [
    | inl e ↦ rw (walk_missing (suc depth) source e) (omega arith)
    | inr (c, e) ↦ elim (Option-cases c.fallback_source) [
      | inl f ↦ rw (walk_last depth source c e f) (omega arith)
      | inr (next, f) ↦
          rw (walk_next depth source c next e f) (omega (arith, length-walk depth next))
    ]
  ]

  not_cut_off-tail :
      (depth : ℕ) (c : RateSourceConfig) (rows : List RateSourceConfig)
      → is_cut_off (suc (suc depth)) (c ∷ rows) ≡ false
      → is_cut_off (suc depth) rows ≡ false
  unfolding is_cut_off
  not_cut_off-tail depth c [] h = refl
  not_cut_off-tail depth c (d ∷ rows) h =
      subst (λ n. is_cut_off n (d ∷ rows) ≡ false) (omega arith) h

  cut_off-one :
      (c : RateSourceConfig) (next : String)
      → c.fallback_source ≡ some next
      → is_cut_off 1 (c ∷ []) ≡ true
  unfolding is_cut_off
  cut_off-one c next f = ground (arith, f)

  -- By induction on the depth: with a fallback at the last depth the walk is cut off.
  walk_further :
      (depth more : ℕ) (source : String)
      → depth ≤ more
      → is_cut_off (suc depth) (walk configs (suc depth) source) ≡ false
      → walk configs (suc more) source ≡ walk configs (suc depth) source
  unfolding walk
  walk_further zero more source h e = elim (Option-cases (find_config configs source)) [
    | inl missing ↦ rw (walk_missing (suc more) source missing, walk_missing 1 source missing)
    | inr (c, found) ↦ elim (Option-cases c.fallback_source) [
      | inl last ↦ rw (walk_last more source c found last, walk_last 0 source c found last)
      | inr (next, f) ↦ cc (
        cut_off-one c next f,
        subst (λ l. is_cut_off 1 l ≡ false) (walk_next 0 source c next found f) e,
      )
    ]
  ]
  walk_further (suc depth) zero source h e = absurd (omega arith)
  walk_further (suc depth) (suc more) source h e =
      elim (Option-cases (find_config configs source)) [
        | inl missing ↦ rw (
          walk_missing (suc (suc more)) source missing,
          walk_missing (suc (suc depth)) source missing,
        )
        | inr (c, found) ↦ elim (Option-cases c.fallback_source) [
          | inl last ↦
              rw (
                walk_last (suc more) source c found last,
                walk_last (suc depth) source c found last,
              )
          | inr (next, f) ↦
              let e' =
                subst (λ l. is_cut_off (suc (suc depth)) l ≡ false)
                  (walk_next (suc depth) source c next found f) e in
              rw
                (
                  walk_next (suc more) source c next found f,
                  walk_next (suc depth) source c next found f,
                )
                (ap (λ l. c ∷ l)
                  (walk_further depth more next (omega arith) (not_cut_off-tail depth c _ e')))
        ]
      ]

nine_more : (more : ℕ) → suc (9 + more) ≡ 10 + more
nine_more more = omega arith

-- A chain of rate sources that is returned has at most ten sources, and a walk with any larger
-- depth finds the same ones.
pub load_source_chain-whole :
    (configs : List RateSourceConfig) (entry_source : String) {chain : List SourceConfig}
    → load_source_chain configs entry_source ≡ ok chain
    → (length chain ≤ 10)
      × ((more : ℕ) → map to_source_config (walk configs (10 + more) entry_source) ≡ chain)
unfolding load_source_chain
load_source_chain-whole configs entry_source {chain} h =
    elim (Bool-cases (is_cut_off max_chain_depth (walk configs max_chain_depth entry_source))) [
      | inl cut ↦ absurd (ground arith)
      | inr whole ↦
          let rows = walk configs max_chain_depth entry_source in
          let known : map to_source_config rows ≡ chain = ground (arith, whole) in
          (
            rw (← known) (
                omega
                  (arith, length-map to_source_config rows, length-walk configs 10 entry_source)),
            λ more.
                ap (map to_source_config) (
                  rw (← nine_more more)
                    (walk_further configs 9 (9 + more) entry_source (omega arith) whole))
                ∙ known,
          )
    ]
