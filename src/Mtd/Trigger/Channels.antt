-- ===== src/Mtd/Trigger/Channels.antt =====
-- Where read_mtd_trigger finds the TAC and ADC values of a channel of a QT board.
use star_hlt_tofmtd.Prelude.{
  ℕ, Bool, arith, List, [], ◌∷◌, false, ◌&&◌, ◌||◌, subst, ◌==◌, ◌+◌, ◌*◌, ◌/◌, ◌%◌, ◌<◌, ◌≡◌, refl,
  true, false, leb, ◌==◌, map, All, Bool-cases, inl, inr, All-map_in,
}
use star_hlt_tofmtd.Prelude.Finite.{iota, agree_below}
use star_hlt_tofmtd.Mtd.Qt.{Table}
use star_hlt_tofmtd.Mtd.Trigger.{boards, Readout, store_qt}

-- Channel m of a QT board: four ADC values and their four TAC values alternate.
abbrev pub adc_channel : ℕ → ℕ
adc_channel m = m / 4 * 8 + m % 4

abbrev pub tac_channel : ℕ → ℕ
tac_channel m = m / 4 * 8 + m % 4 + 4

-- Row n of the readout is the board at address b of the decoded block.
abbrev IsRow : Table → Readout → ℕ → ℕ → Type 0
IsRow mxq r n b =
    (m : ℕ) → m < 16 → (r.tac n m ≡ mxq b (tac_channel m)) × (r.adc n m ≡ mxq b (adc_channel m))

abbrev SameRow : Table → Readout → ℕ × ℕ → Type 0
SameRow mxq r p =
    (map (r.tac p.0) (iota 0 16) ≡ map (λ m. mxq p.1 (tac_channel m)) (iota 0 16))
    × (map (r.adc p.0) (iota 0 16) ≡ map (λ m. mxq p.1 (adc_channel m)) (iota 0 16))

same_row : (mxq : Table) (r : Readout) (p : ℕ × ℕ) → SameRow mxq r p → IsRow mxq r p.0 p.1
same_row mxq r p (t, a) m lt = (
  agree_below 16 (r.tac p.0) (λ k. mxq p.1 (tac_channel k)) t m lt,
  agree_below 16 (r.adc p.0) (λ k. mxq p.1 (adc_channel k)) a m lt,
)

abbrev SameRows : Table → Readout → ℕ → Type 0
SameRows mxq r y = All (SameRow mxq (store_qt y mxq r)) (boards y)

rows15 : (y : ℕ) (mxq : Table) (r : Readout) → leb y 15 ≡ true → SameRows mxq r y
unfolding iota store_qt
rows15 y mxq r e = rw e ((refl, refl), ((refl, refl), ((refl, refl), ((refl, refl), tt))))

rows16 :
    (y : ℕ) (mxq : Table) (r : Readout) → leb y 15 ≡ false → (y == 16) ≡ true → SameRows mxq r y
unfolding iota store_qt
rows16 y mxq r e k =
    rw (e, k)
      (
        (refl, refl),
        (
          (refl, refl),
          (
            (refl, refl),
            ((refl, refl), ((refl, refl), ((refl, refl), ((refl, refl), ((refl, refl), tt))))),
          ),
        ),
      )

rows17 :
    (y : ℕ) (mxq : Table) (r : Readout) → leb y 15 ≡ false → (y == 16) ≡ false → SameRows mxq r y
unfolding iota store_qt
rows17 y mxq r e k = rw (e, k) ((refl, refl), ((refl, refl), ((refl, refl), ((refl, refl), tt))))

store_qt-IsRow :
    (y : ℕ) (mxq : Table) (r : Readout) → All (λ p. IsRow mxq (store_qt y mxq r) p.0 p.1) (boards y)
store_qt-IsRow y mxq r =
    let rows : SameRows mxq r y = elim (Bool-cases (leb y 15)) [
      | inl e ↦ rows15 y mxq r e
      | inr e ↦ elim (Bool-cases (y == 16)) [
        | inl k ↦ rows16 y mxq r e k
        | inr k ↦ rows17 y mxq r e k
      ]
    ] in
    All-map_in (SameRow mxq (store_qt y mxq r)) (λ p. IsRow mxq (store_qt y mxq r) p.0 p.1)
      (boards y) (same_row mxq (store_qt y mxq r)) rows

-- Whether row n is read from the board at address b.
abbrev pub is_row : ℕ → ℕ → List (ℕ × ℕ) → Bool
is_row n b [] = false
is_row n b (p ∷ ps) = p.0 == n && p.1 == b || is_row n b ps

All-is_row :
    (mxq : Table) (r : Readout) (n b : ℕ) (ps : List (ℕ × ℕ))
    → All (λ p. IsRow mxq r p.0 p.1) ps
    → is_row n b ps ≡ true
    → IsRow mxq r n b
All-is_row mxq r n b [] v e = absurd cc
All-is_row mxq r n b (p ∷ ps) (v, vs) e = elim (Bool-cases (p.0 == n && p.1 == b)) [
  | inl here ↦
      let row : p.0 ≡ n = ground arith in
      let board : p.1 ≡ b = ground arith in
      subst (λ (k : ℕ). IsRow mxq r k b) row (subst (λ (k : ℕ). IsRow mxq r p.0 k) board v)
  | inr there ↦ All-is_row mxq r n b ps vs (ground arith)
]

-- In every run year, after the decoded QT block is stored, entry m of row n is the TAC value of channel
-- m/4*8 + m%4 + 4 and the ADC value of channel m/4*8 + m%4 of the board that the row is read from.
pub store_qt-is_row :
    (y : ℕ) (mxq : Table) (r : Readout) (n b m : ℕ)
    → is_row n b (boards y) ≡ true
    → m < 16
    → ((store_qt y mxq r).tac n m ≡ mxq b (tac_channel m))
      × ((store_qt y mxq r).adc n m ≡ mxq b (adc_channel m))
store_qt-is_row y mxq r n b m e lt =
    All-is_row mxq (store_qt y mxq r) n b (boards y) (store_qt-IsRow y mxq r) e m lt
