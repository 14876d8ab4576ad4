-- ===== src/Emc/Read/Kept.antt =====
-- What readRawBtowers (L4_HLT/gl3EMC.cxx) leaves in the array of towers.
use star_hlt_tofmtd.Prelude.{
  ℕ, zero, suc, ◌+◌, ◌≤◌, ◌<◌, ◌≡◌, refl, Bool, List, [], ◌∷◌, ◌++◌, Option, some, arith, ap, ◌∙◌,
  length, get_elem?, set, take, keep, ltb, sym, length-append, length-set, All, if◌then◌else◌,
  Bool-cases, inl, inr,
}
use star_hlt_tofmtd.Decider.State.Entries.{append_assoc}
use star_hlt_tofmtd.Prelude.Int.{ℤ, pos}
use star_hlt_tofmtd.Floats.{Floats}
use star_hlt_tofmtd.Emc.Types.{
  TowerInfo, EmcCalibration, EmcTower, Emc, tower_info, set_adc, set_tower_info,
}
use star_hlt_tofmtd.Emc.Read.{
  read_tower, read_crate, read_fees, read_raw_btowers, crate_number, bad_crate, above_half,
}

module _ {A : Type 0} where
  -- A write at the end of the first n items.
  take-set_end :
      (n : ℕ) (xs : List A) (v : A)
      → n < length xs
      → take (suc n) (set xs n v) ≡ take n xs ++ (v ∷ [])
  take-set_end n [] v h = elim h [ ]
  take-set_end zero (x ∷ xs) v h = refl
  take-set_end (suc n) (x ∷ xs) v h =
      ap (λ (ys : List A). x ∷ ys) (take-set_end n xs v (omega arith))

  take-set : (n : ℕ) (xs : List A) (v : A) → take n (set xs n v) ≡ take n xs
  take-set n [] v = refl
  take-set zero (x ∷ xs) v = refl
  take-set (suc n) (x ∷ xs) v = ap (λ (ys : List A). x ∷ ys) (take-set n xs v)

  get_elem?-some : (n : ℕ) (xs : List A) → n < length xs → (x : A) × (get_elem? xs n ≡ some x)
  get_elem?-some n [] h = elim h [ ]
  get_elem?-some zero (x ∷ xs) h = (x, refl)
  get_elem?-some (suc n) (x ∷ xs) h = get_elem?-some n xs (omega arith)

  append_nil : (xs : List A) → xs ++ [] ≡ xs
  append_nil [] = refl
  append_nil (x ∷ xs) = ap (λ (ys : List A). x ∷ ys) (append_nil xs)

  keep-append : (p : A → Bool) (xs ys : List A) → keep p (xs ++ ys) ≡ keep p xs ++ keep p ys
  keep-append p [] ys = refl
  keep-append p (x ∷ xs) ys = elim (Bool-cases (p x)) [
    | inl e ↦ rw e (ap (λ (zs : List A). x ∷ zs) (keep-append p xs ys))
    | inr e ↦ rw e (keep-append p xs ys)
  ]

module _ (fl : Floats) where
  -- A tower that is given its calibration and its ADC value.
  abbrev pub reading : TowerInfo fl → ℤ → EmcTower fl
  reading info adc =
      set_adc fl adc (record { adc = pos 0; energy = fl.float.of_int (pos 0); info = info })

  abbrev pub energetic : EmcTower fl → Bool
  energetic t = above_half fl t.energy

  -- The list of towers from s to t: the energetic ones of `ts` are new.
  record Grown (ts : List (EmcTower fl)) (s t : Emc fl) : Type 0 where
    same_size : length t.tower ≡ length s.tower
    kept : take t.n_barrel_towers t.tower ≡ take s.n_barrel_towers s.tower ++ keep energetic ts
    few : t.n_barrel_towers ≤ s.n_barrel_towers + length ts

  Grown-append :
      (ts us : List (EmcTower fl)) (s t u : Emc fl)
      → Grown ts s t
      → Grown us t u
      → Grown (ts ++ us) s u
  Grown-append ts us s t u g h = record {
    same_size = h.same_size ∙ g.same_size;
    kept =
        h.kept
        ∙ ap (λ (xs : List (EmcTower fl)). xs ++ keep energetic us) g.kept
        ∙ append_assoc (take s.n_barrel_towers s.tower) (keep energetic ts) (keep energetic us)
        ∙ ap (λ (xs : List (EmcTower fl)). take s.n_barrel_towers s.tower ++ xs)
            (sym (keep-append energetic ts us));
    few = omega (arith, length-append ts us, g.few, h.few);
  }

  module _ (cal : EmcCalibration fl) (info : ℕ → ℕ → TowerInfo fl) where
    -- The calibration has an entry for every place of every crate.
    abbrev pub IsComplete : Type 0
    IsComplete = (c j : ℕ) → 1 ≤ c → c ≤ 30 → j < 160 → tower_info fl cal c j ≡ some (info c j)

    abbrev Adds : List (EmcTower fl) → Emc fl → Option (Emc fl) → Type 0
    Adds ts s r = (t : Emc fl) × (r ≡ some t) × Grown ts s t

    read_tower-Adds :
        IsComplete
        → (c j : ℕ) (adc : ℤ) (s : Emc fl) → 1 ≤ c
        → c ≤ 30
        → j < 160
        → s.n_barrel_towers < length s.tower
        → Adds (reading (info c j) adc ∷ []) s (read_tower fl cal (above_half fl) c j adc s)
    unfolding read_tower set_adc set_tower_info
    read_tower-Adds all c j adc s lo hi jh free =
        let n = s.n_barrel_towers in
        let (old, at) = get_elem?-some n s.tower free in
        let new = reading (info c j) adc in
        rw (all c j lo hi jh) (
          rw at (elim (Bool-cases (energetic new)) [
            | inl e ↦ (
              _,
              refl,
              record {
                same_size = length-set s.tower n new;
                kept = rw e (take-set_end n s.tower new free);
                few = rw e (omega arith);
              },
            )
            | inr e ↦ (
              _,
              refl,
              record {
                same_size = length-set s.tower n new;
                kept = rw e (take-set n s.tower new ∙ sym (append_nil (take n s.tower)));
                few = rw e (omega arith);
              },
            )
          ]))

    -- The towers of one crate, from place j on.
    unfoldable pub readings : ℕ → ℕ → List ℤ → List (EmcTower fl)
    readings c j [] = []
    readings c j (adc ∷ adcs) = reading (info c j) adc ∷ readings c (suc j) adcs

    length-readings : (c j : ℕ) (adcs : List ℤ) → length (readings c j adcs) ≡ length adcs
    unfolding readings
    length-readings c j [] = refl
    length-readings c j (adc ∷ adcs) = ap suc (length-readings c (suc j) adcs)

    Grown-refl : (s : Emc fl) → Grown [] s s
    Grown-refl s = record {
      same_size = refl;
      kept = sym (append_nil (take s.n_barrel_towers s.tower));
      few = omega arith;
    }

    -- A step to t, and what is done from there.
    Adds-bind :
        (ts us : List (EmcTower fl)) (s t : Emc fl) (r : Option (Emc fl))
        → Grown ts s t
        → Adds us t r
        → Adds (ts ++ us) s r
    Adds-bind ts us s t r g (u, e, h) = (u, e, Grown-append ts us s t u g h)

    -- The array is full after the last value only.
    Grown-full :
        (c j : ℕ) (new : EmcTower fl) (adcs : List ℤ) (s t : Emc fl)
        → length adcs ≡ 0
        → Grown (new ∷ []) s t
        → Grown (new ∷ readings c (suc j) adcs) s t
    unfolding readings
    Grown-full c j new [] s t h g = g
    Grown-full c j new (adc ∷ adcs) s t h g = absurd (omega (arith, h))

    read_crate-Adds :
        IsComplete
        → (c j : ℕ) (adcs : List ℤ) (s : Emc fl) → 1 ≤ c
        → c ≤ 30
        → j + length adcs ≤ 160
        → s.n_barrel_towers + length adcs ≤ length s.tower
        → Adds (readings c j adcs) s (read_crate fl cal c j adcs s)
    unfolding read_crate readings
    read_crate-Adds all c j [] s lo hi jh free = (s, refl, Grown-refl s)
    read_crate-Adds all c j (adc ∷ adcs) s lo hi jh free =
        let (t, e, g) = read_tower-Adds all c j adc s lo hi (omega arith) (omega arith) in
        let few = g.few in
        let size = g.same_size in
        rw e (elim (Bool-cases (ltb t.n_barrel_towers (length t.tower))) [
          | inl more ↦ rw more (
              Adds-bind (reading (info c j) adc ∷ []) (readings c (suc j) adcs) s t
                (read_crate fl cal c (suc j) adcs t) g
                (read_crate-Adds all c (suc j) adcs t lo hi (omega arith) (omega arith)))
          | inr full ↦
              let done : length t.tower ≤ t.n_barrel_towers = ground arith in
              rw full (t, refl, Grown-full c j (reading (info c j) adc) adcs s t (omega arith) g)
        ])

    -- The towers of all front ends with a crate number from 1 to 30.
    unfoldable pub fee_readings : List (ℕ × List ℤ) → List (EmcTower fl)
    fee_readings [] = []
    fee_readings (fee ∷ fees) =
        if bad_crate (crate_number fee.0)
        then fee_readings fees
        else readings (crate_number fee.0) 0 fee.1 ++ fee_readings fees

    -- The number of ADC values.
    unfoldable pub entries : List (ℕ × List ℤ) → ℕ
    entries [] = 0
    entries (fee ∷ fees) = length fee.1 + entries fees

    abbrev pub Short : List (ℕ × List ℤ) → Type 0
    Short fees = All (λ fee. length fee.1 ≤ 160) fees

    read_fees-Adds :
        IsComplete
        → (fees : List (ℕ × List ℤ)) (s : Emc fl) → Short fees
        → s.n_barrel_towers + entries fees ≤ length s.tower
        → Adds (fee_readings fees) s (read_fees fl cal fees s)
    unfolding read_fees fee_readings entries bad_crate
    read_fees-Adds all [] s short free = (s, refl, Grown-refl s)
    read_fees-Adds all (fee ∷ fees) s (len, short) free =
        elim (Bool-cases (bad_crate (crate_number fee.0))) [
          | inl bad ↦ rw bad (read_fees-Adds all fees s short (omega arith))
          | inr good ↦
              let c = crate_number fee.0 in
              let (t, e, g) =
                read_crate-Adds all c 0 fee.1 s (ground arith) (ground arith) (omega arith)
                  (omega arith) in
              let few = g.few in
              let size = g.same_size in
              let count = length-readings c 0 fee.1 in
              rw good (
                rw e (
                  Adds-bind (readings c 0 fee.1) (fee_readings fees) s t (read_fees fl cal fees t) g
                    (read_fees-Adds all fees t short (omega arith))))
        ]

    -- Where the calibration has all places of the 30 crates, no front end has more than 160 values, and
    -- the array has room for all of them, readRawBtowers returns: it reads and writes inside its
    -- arrays, and its towers are those of the good front ends whose energy is above 0.5, in order.
    pub read_raw_btowers-kept :
        IsComplete
        → (fees : List (ℕ × List ℤ)) (s : Emc fl) → Short fees
        → entries fees ≤ length s.tower
        → (t : Emc fl) × (read_raw_btowers fl cal fees s ≡ some t)
          × (take t.n_barrel_towers t.tower ≡ keep energetic (fee_readings fees))
          × (length t.tower ≡ length s.tower)
    unfolding read_raw_btowers
    read_raw_btowers-kept all fees s short free =
        let (t, e, g) =
          read_fees-Adds all fees (record s { n_barrel_towers = 0 }) short (omega arith) in
        (t, e, g.kept, g.same_size)
