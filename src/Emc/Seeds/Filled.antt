-- ===== src/Emc/Seeds/Filled.antt =====
-- What getTrackingSeeds (L4_HLT/gl3EMC.cxx) files under each sector.
use star_hlt_tofmtd.Prelude.{
  All, ℕ, zero, suc, ◌+◌, ◌-◌, ◌≤◌, ◌<◌, ◌≡◌, refl, sym, ap, ◌∙◌, Bool, true, false, ◌&&◌, List, [],
  ◌∷◌, ◌++◌, Option, none, some, arith, length, take, keep, map, ltb, replicate, if◌then◌else◌,
  Bool-cases, inl, inr, length-append,
}
use mathlib.Core.Bool.{not, true≢false}
use star_hlt_tofmtd.Mtd.Hits.{◌>>=◌}
use star_hlt_tofmtd.Floats.{Floats}
use star_hlt_tofmtd.Decider.State.Entries.{append_assoc}
use star_hlt_tofmtd.Emc.Types.{EmcTower, Emc}
use star_hlt_tofmtd.Emc.Seeds.{
  Seed, max_seeds, seed_of, add_seed, on_side, is_near, seed_sector, seed_sectors, seed_towers,
  get_tracking_seeds,
}

module _ {A : Type 0} where
  take-room : (n : ℕ) (x : A) (xs : List A) → 0 < n → take n (x ∷ xs) ≡ x ∷ take (n - 1) xs
  take-room zero x xs h = absurd (omega (arith, h))
  take-room (suc n) x xs h = ap (λ (k : ℕ). x ∷ take k xs) (omega arith)

  take-nil : (n : ℕ) → take {A = A} n [] ≡ []
  take-nil zero = refl
  take-nil (suc n) = refl

  append_nil : (xs : List A) → xs ++ [] ≡ xs
  append_nil [] = refl
  append_nil (x ∷ xs) = ap (λ (ys : List A). x ∷ ys) (append_nil xs)

  -- One more item into an array with room for n, and the rest.
  more_room :
      (n : ℕ) (front : List A) (x : A) (xs : List A)
      → length front < n
      → (front ++ (x ∷ [])) ++ take (n - length (front ++ (x ∷ []))) xs
        ≡ front ++ take (n - length front) (x ∷ xs)
  more_room n front x xs h =
      let count : n - length (front ++ (x ∷ [])) ≡ n - length front - 1 =
        omega (arith, length-append front (x ∷ [])) in
      ap (λ (k : ℕ). (front ++ (x ∷ [])) ++ take k xs) count
      ∙ append_assoc front (x ∷ []) (take (n - length front - 1) xs)
      ∙ ap (λ (ys : List A). front ++ ys) (sym (take-room (n - length front) x xs (omega arith)))

  no_room :
      (n : ℕ) (front xs ys : List A)
      → n ≤ length front
      → front ++ take (n - length front) xs ≡ front ++ take (n - length front) ys
  no_room n front xs ys h = let full : n - length front ≡ 0 = omega arith in rw full refl

-- The answer of a test that may not return, and whether it does.
abbrev pub answer : Option Bool → Bool
answer none = false
answer (some b) = b

abbrev pub returns : Option Bool → Bool
returns none = false
returns (some b) = true

some-answer : (r : Option Bool) → returns r ≡ true → r ≡ some (answer r)
some-answer none h = absurd (true≢false (sym h))
some-answer (some b) h = refl

module _ (fl : Floats) (fabs : fl.Double → fl.Double) (fuel : ℕ) where
  -- The tower is at the side of the sector and near it in phi.
  abbrev pub points : EmcTower fl → ℕ → Bool
  points t j = on_side fl fabs j t.info.z && answer (is_near fl fabs fuel t.info.phi j)

  -- The loop that brings phiDiff below pi ends for each sector.
  abbrev pub Ends : EmcTower fl → Type 0
  Ends t = (j : ℕ) → j < 24 → returns (is_near fl fabs fuel t.info.phi j) ≡ true

  abbrev step : EmcTower fl → ℕ → List (Seed fl fabs) → List (Seed fl fabs)
  step t j seeds = if points t j then add_seed fl fabs t seeds else seeds

  steps : EmcTower fl → ℕ → List (List (Seed fl fabs)) → List (List (Seed fl fabs))
  steps t j [] = []
  steps t j (seeds ∷ rest) = step t j seeds ∷ steps t (suc j) rest

  seed_sector-step :
      (t : EmcTower fl) (j : ℕ) (seeds : List (Seed fl fabs))
      → returns (is_near fl fabs fuel t.info.phi j) ≡ true
      → seed_sector fl fabs fuel t j seeds ≡ some (step t j seeds)
  unfolding seed_sector
  seed_sector-step t j seeds h = elim (Bool-cases (on_side fl fabs j t.info.z)) [
    | inl e ↦ rw e (
        ap
          (λ (r : Option Bool).
            r >>= λ near. some (if near then add_seed fl fabs t seeds else seeds))
          (some-answer (is_near fl fabs fuel t.info.phi j) h))
    | inr e ↦ rw e refl
  ]

  seed_sectors-steps :
      (t : EmcTower fl) (j : ℕ) (all : List (List (Seed fl fabs)))
      → Ends t
      → j + length all ≤ 24
      → (seed_sectors fl fabs fuel t j all ≡ some (steps t j all))
        × (length (steps t j all) ≡ length all)
  unfolding seed_sectors steps
  seed_sectors-steps t j [] ends h = (refl, refl)
  seed_sectors-steps t j (seeds ∷ rest) ends h =
      let (e, len) = seed_sectors-steps t (suc j) rest ends (omega arith) in
      (rw (seed_sector-step t j seeds (ends j (omega arith))) (rw e refl), omega arith)

  module _ (min : fl.Float) where
    -- The towers of a sector.
    abbrev pub wanted : ℕ → EmcTower fl → Bool
    wanted j t = not (fl.float.lt t.energy min) && points t j

    abbrev pub seeds_of : ℕ → List (EmcTower fl) → List (Seed fl fabs)
    seeds_of j ts = map (seed_of fl fabs) (keep (wanted j) ts)

    abbrev more : List (EmcTower fl) → ℕ → List (Seed fl fabs) → List (Seed fl fabs)
    more ts j seeds = seeds ++ take (max_seeds - length seeds) (seeds_of j ts)

    fill : List (EmcTower fl) → ℕ → List (List (Seed fl fabs)) → List (List (Seed fl fabs))
    fill ts j [] = []
    fill ts j (seeds ∷ rest) = more ts j seeds ∷ fill ts (suc j) rest

    more-low :
        (t : EmcTower fl) (ts : List (EmcTower fl)) (j : ℕ) (all : List (List (Seed fl fabs)))
        → fl.float.lt t.energy min ≡ true
        → fill ts j all ≡ fill (t ∷ ts) j all
    unfolding fill
    more-low t ts j [] h = refl
    more-low t ts j (seeds ∷ rest) h = rw h (
        ap (λ (r : List (List (Seed fl fabs))). more ts j seeds ∷ r) (more-low t ts (suc j) rest h))

    more-step :
        (t : EmcTower fl) (ts : List (EmcTower fl)) (j : ℕ) (seeds : List (Seed fl fabs))
        → fl.float.lt t.energy min ≡ false
        → more ts j (step t j seeds) ≡ more (t ∷ ts) j seeds
    unfolding add_seed
    more-step t ts j seeds h = elim (Bool-cases (points t j)) [
      | inr e ↦ rw h (rw e refl)
      | inl e ↦ elim (Bool-cases (ltb (length seeds) max_seeds)) [
        | inl room ↦ rw h (
            rw e (
              rw room
                (more_room max_seeds seeds (seed_of fl fabs t) (seeds_of j ts) (ground arith))))
        | inr full ↦ rw h (
            rw e (
              rw full (
                no_room max_seeds seeds (seeds_of j ts) (seed_of fl fabs t ∷ seeds_of j ts)
                  (ground arith))))
      ]
    ]

    fill-steps :
        (t : EmcTower fl) (ts : List (EmcTower fl)) (j : ℕ) (all : List (List (Seed fl fabs)))
        → fl.float.lt t.energy min ≡ false
        → fill ts j (steps t j all) ≡ fill (t ∷ ts) j all
    unfolding fill steps
    fill-steps t ts j [] h = refl
    fill-steps t ts j (seeds ∷ rest) h = rw (more-step t ts j seeds h) (
        ap (λ (r : List (List (Seed fl fabs))). more (t ∷ ts) j seeds ∷ r)
          (fill-steps t ts (suc j) rest h))

    fill-none : (j : ℕ) (all : List (List (Seed fl fabs))) → fill [] j all ≡ all
    unfolding fill
    fill-none j [] = refl
    fill-none j (seeds ∷ rest) =
        let n = max_seeds - length seeds in
        ap (λ (xs : List (Seed fl fabs)). (seeds ++ xs) ∷ fill [] (suc j) rest) (take-nil n)
        ∙ ap (λ (xs : List (Seed fl fabs)). xs ∷ fill [] (suc j) rest) (append_nil seeds)
        ∙ ap (λ (r : List (List (Seed fl fabs))). seeds ∷ r) (fill-none (suc j) rest)

    seed_towers-fill :
        (ts : List (EmcTower fl)) (all : List (List (Seed fl fabs)))
        → All Ends ts
        → length all ≤ 24
        → seed_towers fl fabs fuel min ts all ≡ some (fill ts 0 all)
    unfolding seed_towers
    seed_towers-fill [] all ends h =
        ap (λ (a : List (List (Seed fl fabs))). some a) (sym (fill-none 0 all))
    seed_towers-fill (t ∷ ts) all (end, ends) h = elim (Bool-cases (fl.float.lt t.energy min)) [
      | inl low ↦ rw low (
          seed_towers-fill ts all ends h
          ∙ ap (λ (a : List (List (Seed fl fabs))). some a) (more-low t ts 0 all low))
      | inr high ↦
          let (e, len) = seed_sectors-steps t 0 all end (omega arith) in
          rw high (
            rw e (
              seed_towers-fill ts (steps t 0 all) ends (omega arith)
              ∙ ap (λ (a : List (List (Seed fl fabs))). some a) (fill-steps t ts 0 all high)))
    ]

    -- The seeds of n sectors from j on.
    unfoldable pub sector_seeds : List (EmcTower fl) → ℕ → ℕ → List (List (Seed fl fabs))
    sector_seeds ts j zero = []
    sector_seeds ts j (suc n) = take max_seeds (seeds_of j ts) ∷ sector_seeds ts (suc j) n

    fill-replicate :
        (ts : List (EmcTower fl)) (j n : ℕ) → fill ts j (replicate n []) ≡ sector_seeds ts j n
    unfolding fill sector_seeds
    fill-replicate ts j zero = refl
    fill-replicate ts j (suc n) =
        ap (λ (r : List (List (Seed fl fabs))). take max_seeds (seeds_of j ts) ∷ r)
          (fill-replicate ts (suc j) n)

  -- Where the loop that brings phiDiff below pi ends for each tower in use and each sector, every sector
  -- gets the first 200 seeds of the towers that have the energy, are at its side and are near it in
  -- phi, in order.
  pub get_tracking_seeds-first :
      (s : Emc fl)
      → All Ends (take s.n_barrel_towers s.tower)
      → get_tracking_seeds fl fabs fuel s
        ≡ some (sector_seeds s.min_energy_for_tracking_seed (take s.n_barrel_towers s.tower) 0 24)
  unfolding get_tracking_seeds
  get_tracking_seeds-first s ends =
      let ts = take s.n_barrel_towers s.tower in
      seed_towers-fill s.min_energy_for_tracking_seed ts (replicate 24 []) ends (omega arith)
      ∙ ap (λ (a : List (List (Seed fl fabs))). some a)
          (fill-replicate s.min_energy_for_tracking_seed ts 0 24)
