-- ===== src/Mtd/Singles/Filed.antt =====
-- Under which strips the hits of an RDO can be filed, whatever its words are.
use star_hlt_tofmtd.Prelude.{
  ℕ, zero, suc, ◌%◌, ◌≤◌, ◌<◌, ◌≡◌, ◌≢◌, refl, sym, ap, ◌∙◌, ◌⊎◌, inl, inr, Bool, true, false, ◌||◌,
  List, [], ◌∷◌, Option, none, some, arith, ◌==◌, Bool-cases, All,
}
use star_hlt_tofmtd.Prelude.Int.{ℤ, pos, ◌+ℤ◌, ◌-ℤ◌, div_trunc, mod_trunc}
use star_hlt_tofmtd.Prelude.Finite.{all_below, all_below_sound}
use star_hlt_tofmtd.Mtd.Types.{RawHit, SingleHit}
use star_hlt_tofmtd.Mtd.Rdo.{tray_of, global_strip}
use star_hlt_tofmtd.Mtd.Rdo.Strips.{global_strip-mod}
use star_hlt_tofmtd.Mtd.Rdo.Bounds.{IsRaw}
use star_hlt_tofmtd.Mtd.Singles.{
  Side, leading, trailing, Place, slot, checked_place, place_of, same_strip, push_time, new_hit,
  add_time, Slots, add_at, fill_edges, fill_single_hits,
}

-- A module that some TDIG reads.
pub record IsRead (b tray : ℕ) : Type 0 where
  pub low : 1 ≤ b
  pub high : b ≤ 30
  pub not_nine : b ≢ 9
  pub tdig : ℕ
  pub tdig_lt : tdig < 8
  pub tray_eq : tray_of b tdig ≡ tray

-- A strip of a module that is read, or channel 22 of any, where the channels without a strip go.
abbrev pub IsFiled : ℕ → ℕ → ℕ → Type 0
IsFiled b tray c = IsRead b tray ⊎ (c ≡ 22)

some_tdig : ℕ → ℕ → ℕ → Bool
some_tdig b tray zero = false
some_tdig b tray (suc t) = tray_of b t == tray || some_tdig b tray t

filed : ℕ → Option Place → Bool
filed b none = true
filed b (some p) = p.channel == 22 || some_tdig b p.tray 8

place_at_strip : ℕ → ℤ → Option Place
place_at_strip b s =
    checked_place b (div_trunc (s -ℤ pos 1) 24 +ℤ pos 1) (mod_trunc (s -ℤ pos 1) 24)

filed_at : ℕ → ℕ → ℕ → ℕ → Bool
filed_at b t q c = filed b (place_at_strip b (global_strip (tray_of b t) t q c))

filed_table :
    all_below 31 (λ b. all_below 8 λ t. all_below 4 λ q. all_below 8 λ c. filed_at b t q c) ≡ true
unfolding all_below filed_at filed some_tdig place_at_strip global_strip tray_of checked_place
    div_trunc mod_trunc ◌+ℤ◌ ◌-ℤ◌
filed_table = refl

some_tdig_sound :
    (b tray n : ℕ) → n ≤ 8 → some_tdig b tray n ≡ true → (t : ℕ) × (t < 8) × (tray_of b t ≡ tray)
unfolding some_tdig
some_tdig_sound b tray zero h e = cc
some_tdig_sound b tray (suc t) h e = elim (Bool-cases (tray_of b t == tray)) [
  | inl k ↦ (t, omega arith, ground arith)
  | inr k ↦ some_tdig_sound b tray t (omega arith) (ground arith)
]

-- The backleg of a place is that of the hit, and not the ninth.
checked_place-backleg :
    (b : ℕ) (itray ichan : ℤ) (p : Place)
    → checked_place b itray ichan ≡ some p
    → (p.backleg ≡ b) × (b ≢ 9) × (1 ≤ b) × (b ≤ 30)
unfolding checked_place
checked_place-backleg b itray ichan p e = ground arith

filed-IsFiled :
    (b : ℕ) (p : Place)
    → b ≢ 9
    → 1 ≤ b
    → b ≤ 30
    → filed b (some p) ≡ true
    → IsFiled b p.tray p.channel
unfolding filed
filed-IsFiled b p nine low high e = elim (Bool-cases (p.channel == 22)) [
  | inl k ↦ inr (ground arith)
  | inr k ↦
      let (t, lt, eq) = some_tdig_sound b p.tray 8 (omega arith) (ground arith) in
      inl (record { low = low; high = high; not_nine = nine; tdig = t; tdig_lt = lt; tray_eq = eq })
]

place_of-IsFiled :
    (rdo : ℕ) (h : RawHit) (p : Place)
    → IsRaw rdo h
    → place_of h ≡ some p
    → IsFiled p.backleg p.tray p.channel
unfolding place_of
place_of-IsFiled rdo h p v e =
    let b = h.backleg in
    let k = v.channel in
    let s = global_strip (tray_of b k.tdig) k.tdig (k.chip % 4) k.chan in
    let same : s ≡ h.globaltdcchan = global_strip-mod _ k.tdig k.chip k.chan ∙ sym k.strip_eq in
    let (eq, nine, low, high) = checked_place-backleg b _ _ p e in
    let there : place_at_strip b s ≡ some p = unfold place_at_strip in rw same e in
    let checked : filed_at b k.tdig (k.chip % 4) k.chan ≡ true =
      all_below_sound 8 _ k.chan
        (all_below_sound 4 _ (k.chip % 4)
          (all_below_sound 8 _ k.tdig (all_below_sound 31 _ b filed_table (omega arith)) k.tdig_lt)
          (omega arith))
        k.chan_lt in
    rw eq (filed-IsFiled b p nine low high (ap (filed b) (sym there) ∙ unfold filed_at in checked))

-- Single hits under such strips only.
abbrev pub AllFiled : List SingleHit → Type 0
AllFiled = All (λ s. IsFiled s.backleg s.tray s.channel)

module _ (side : Side) where
  IsFiled-push_time :
      (t : ℕ) (s : SingleHit)
      → IsFiled s.backleg s.tray s.channel
      → AllFiled (push_time side t s ∷ [])
  IsFiled-push_time t s v = elim side as (λ k. AllFiled (push_time k t s ∷ [])) [
    | leading ↦ (v, tt)
    | trailing ↦ (v, tt)
  ]

  add_time-AllFiled :
      (p : Place) (fiber t : ℕ) (ss : List SingleHit)
      → IsFiled p.backleg p.tray p.channel
      → AllFiled ss
      → AllFiled (add_time side p fiber t ss)
  unfolding add_time
  add_time-AllFiled p fiber t [] v vs = IsFiled-push_time t (new_hit p fiber) v
  add_time-AllFiled p fiber t (s ∷ ss) v (w, ws) = elim (Bool-cases (same_strip p s)) [
    | inl e ↦ rw e ((IsFiled-push_time t s w).0, ws)
    | inr e ↦ rw e (w, add_time-AllFiled p fiber t ss v ws)
  ]

  add_at-AllFiled :
      (h : RawHit) (o : Option Place) (f : Slots)
      → ((p : Place) → o ≡ some p → IsFiled p.backleg p.tray p.channel)
      → ((i : ℕ) → AllFiled (f i))
      → (i : ℕ) → AllFiled (add_at side h o f i)
  unfolding add_at
  add_at-AllFiled h none f ok v i = v i
  add_at-AllFiled h (some p) f ok v i = elim (Bool-cases (slot p == i)) [
    | inl e ↦ rw e (add_time-AllFiled p h.fiberid h.tdc (f (slot p)) (ok p refl) (v (slot p)))
    | inr e ↦ rw e (v i)
  ]

  -- Raw hits of any RDO.
  fill_edges-AllFiled :
      (hs : List RawHit) (f : Slots)
      → All (λ h. (rdo : ℕ) × IsRaw rdo h) hs
      → ((i : ℕ) → AllFiled (f i))
      → (i : ℕ) → AllFiled (fill_edges side hs f i)
  unfolding fill_edges
  fill_edges-AllFiled [] f raw v = v
  fill_edges-AllFiled (h ∷ hs) f ((rdo, r), raw) v =
      fill_edges-AllFiled hs (add_at side h (place_of h) f) raw
        (add_at-AllFiled h (place_of h) f (λ p. place_of-IsFiled rdo h p r) v)

-- Raw hits as read_rdo_event makes them are filed under modules that are read out, or, in error, under
-- channel 22 of some other.
pub fill_single_hits-AllFiled :
    (lead trail : List RawHit) (f : Slots)
    → All (λ h. (rdo : ℕ) × IsRaw rdo h) lead
    → All (λ h. (rdo : ℕ) × IsRaw rdo h) trail
    → ((i : ℕ) → AllFiled (f i))
    → (i : ℕ) → AllFiled (fill_single_hits lead trail f i)
unfolding fill_single_hits
fill_single_hits-AllFiled lead trail f l t v =
    fill_edges-AllFiled trailing trail (fill_edges leading lead f) t
      (fill_edges-AllFiled leading lead f l v)
