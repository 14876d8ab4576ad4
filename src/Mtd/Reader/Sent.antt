-- ===== src/Mtd/Reader/Sent.antt =====
-- What do_event of mtd_hlt_reader writes beside the hits.
use star_hlt_tofmtd.Prelude.{
  ℕ, zero, suc, ◌+◌, ◌-◌, ◌*◌, ◌/◌, ◌%◌, ◌^◌, ◌≤◌, ◌≡◌, refl, sym, ap, ◌∙◌, Bool, List, ◌∷◌, arith,
  ◌==◌, length, keep, Bool-cases, inl, inr,
}
use native.Mathlib.Nat.{add-mul}
use star_hlt_tofmtd.Prelude.Finite.{iota}
use star_hlt_tofmtd.Mtd.Reader.{muon_bits, muons, bytes_used}

-- The bits from 4 to 11 of a trigger word that are set.
abbrev pub set_in : ℕ → ℕ → Bool
set_in tf k = tf / 2 ^ k % 2 == 1

unfoldable pub signals : ℕ → List ℕ
signals tf = keep (set_in tf) (iota 4 8)

length-keep_cons :
    (tf k : ℕ) (ks : List ℕ)
    → length (keep (set_in tf) (k ∷ ks)) ≡ tf / 2 ^ k % 2 + length (keep (set_in tf) ks)
length-keep_cons tf k ks = elim (Bool-cases (set_in tf k)) [
  | inl e ↦ rw e (let one : tf / 2 ^ k % 2 ≡ 1 = ground arith in rw one (omega arith))
  | inr e ↦ rw e (
      let none : tf / 2 ^ k % 2 ≡ 0 = ground arith in
      let add : length (keep (set_in tf) ks) ≡ 0 + length (keep (set_in tf) ks) = omega arith in
      rw none add)
]

muon_bits-length :
    (left i tf : ℕ) → muon_bits left i tf ≡ length (keep (set_in tf) (iota (i * 2 + 4) (left * 2)))
unfolding muon_bits iota
muon_bits-length zero i tf = refl
muon_bits-length (suc left) i tf =
    let low = i * 2 + 4 in
    let rest = iota (suc (suc low)) (left * 2) in
    let more : suc left * 2 ≡ suc (suc (left * 2)) = omega arith in
    let odd : i * 2 + 1 + 4 ≡ suc low = omega arith in
    let next : (i + 1) * 2 + 4 ≡ suc (suc low) = omega arith in
    let ih : muon_bits left (i + 1) tf ≡ length (keep (set_in tf) rest) =
      muon_bits-length left (i + 1) tf
      ∙ ap (λ (k : ℕ). length (keep (set_in tf) (iota k (left * 2)))) next in
    let high : tf / 2 ^ (i * 2 + 1 + 4) % 2 ≡ tf / 2 ^ suc low % 2 =
      ap (λ (k : ℕ). tf / 2 ^ k % 2) odd in
    omega (
      arith,
      ih,
      high,
      length-keep_cons tf low (suc low ∷ rest),
      length-keep_cons tf (suc low) rest,
    )
    ∙ sym (ap (λ (k : ℕ). length (keep (set_in tf) (iota low k))) more)

-- The number of muon signals that do_event counts is the number of bits from 4 to 11 that are set in
-- the two trigger words.
pub muons-length : (tf tf2 : ℕ) → muons tf tf2 ≡ length (signals tf) + length (signals tf2)
unfolding muons signals
muons-length tf tf2 = rw (muon_bits-length 4 0 tf, muon_bits-length 4 0 tf2) refl

-- With a header of `head` bytes before the room for 10000 hits, the bytes used are the header and the
-- hits in use, and no more than the whole.
pub bytes_used-le :
    (head one n : ℕ)
    → n ≤ 10000
    → (bytes_used (head + 10000 * one) one n ≡ head + n * one)
      × (head + n * one ≤ head + 10000 * one)
unfolding bytes_used
bytes_used-le head one n h =
    let whole : 10000 ≡ 10000 - n + n = omega arith in
    let split : 10000 * one ≡ (10000 - n) * one + n * one =
      ap (λ (k : ℕ). k * one) whole ∙ add-mul (10000 - n) n one in
    (omega (arith, split), omega (arith, split))
