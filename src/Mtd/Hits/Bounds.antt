-- ===== src/Mtd/Hits/Bounds.antt =====
-- That fillMtdHits stays inside its arrays: the lookup of the trigger positions and the hit buffer.
use star_hlt_tofmtd.Prelude.{
  ℕ, zero, suc, ◌+◌, ◌-◌, ◌*◌, ◌≤◌, ◌<◌, ◌≡◌, ◌≢◌, refl, subst, Bool, true, ◌&&◌, ◌||◌, List, [],
  ◌∷◌, ◌++◌, Option, some, arith, ltb, if◌then◌else◌, length, length-append, All, All-append,
  Bool-cases, inl, inr, ◌⊎◌,
}
use star_hlt_tofmtd.Prelude.Int.{◌==ℤ◌}
use star_hlt_tofmtd.Prelude.Pigeonhole.{Distinct}
use star_hlt_tofmtd.Floats.{Floats}
use star_hlt_tofmtd.Mtd.Types.{SingleHit}
use star_hlt_tofmtd.Mtd.Config.{Config}
use star_hlt_tofmtd.Mtd.Config.Wiring.{IsWired}
use star_hlt_tofmtd.Mtd.Singles.{Slots}
use star_hlt_tofmtd.Mtd.Singles.Distinct.{channels, IsSlots, InSlot, length-IsSlot-le}
use star_hlt_tofmtd.Mtd.Hits.{
  join, TrigPos, trig_match, is_mtd_hit_fired_trigger, is_hit_in_trig_win, MtdHit, complete,
  twelve_apart, make_hit, pair_hits, with_partners, slot_hits, slots_hits, fill_mtd_hits,
}

-- The module of a single hit has a place on a QT board, or the single hit is of channel 22, where
-- channels without a strip are filed.
abbrev pub Fit : Config → SingleHit → Type 0
Fit c s = IsWired c (s.backleg - 1) (s.tray - 1) ⊎ (s.channel ≡ 22)

-- Of two single hits of a tray whose channels are 12 apart one has a place, so the tray has one.
both-IsWired :
    (c : Config) (i : ℕ) (j k : SingleHit)
    → InSlot i j
    → InSlot i k
    → Fit c j
    → Fit c k
    → twelve_apart j.channel k.channel ≡ true
    → IsWired c (j.backleg - 1) (j.tray - 1)
both-IsWired c i j k vj vk (inl w) fk t = w
both-IsWired c i j k vj vk (inr e) (inl w) t =
    let same_backleg : k.backleg ≡ j.backleg =
      omega (arith, vj.inside, vk.inside, vj.here, vk.here) in
    let same_tray : k.tray ≡ j.tray = omega (arith, vj.inside, vk.inside, vj.here, vk.here) in
    subst (λ (n : ℕ). IsWired c (n - 1) (j.tray - 1)) same_backleg
      (subst (λ (n : ℕ). IsWired c (k.backleg - 1) (n - 1)) same_tray w)
both-IsWired c i j k vj vk (inr e) (inr e') t = absurd (ground arith)

fired-some :
    (c : Config) (trig : TrigPos) (b m : ℕ)
    → IsWired c (b - 1) (m - 1)
    → (f : Bool) × (is_mtd_hit_fired_trigger c trig b m ≡ some f)
unfolding is_mtd_hit_fired_trigger trig_match
fired-some c trig b m w =
    let inside : ltb w.qt 8 ≡ true = ground (arith, w.qt_lt) in
    let place = c.module_to_qt_pos (b - 1) (m - 1) in
    (place ==ℤ trig w.qt 0 || place ==ℤ trig w.qt 1, rw (w.qt_eq, inside))

-- A hit of a strip inside the detector.
pub record IsMtdHit (fl : Floats) (h : MtdHit fl) : Type 0 where
  pub backleg_low : 1 ≤ h.backleg
  pub backleg_high : h.backleg ≤ 30
  pub tray_low : 1 ≤ h.tray
  pub tray_high : h.tray ≤ 5
  pub channel_lt : h.channel < 12

module _ (fl : Floats) (c : Config) (trig : TrigPos) where
  -- A result that is there, no longer than n, of hits inside the detector.
  abbrev Within : ℕ → Option (List (MtdHit fl)) → Type 0
  Within n r = (hs : List (MtdHit fl)) × (r ≡ some hs) × (length hs ≤ n) × All (IsMtdHit fl) hs

  Within-join :
      (m n k : ℕ) (a b : Option (List (MtdHit fl)))
      → m + n ≤ k
      → Within m a
      → Within n b
      → Within k (join a b)
  Within-join m n k a b le (xs, ea, la, va) (ys, eb, lb, vb) = (
    xs ++ ys,
    rw (ea, eb) refl,
    omega (arith, length-append xs ys),
    All-append (IsMtdHit fl) xs ys va vb,
  )

  make_hit-IsMtdHit :
      (i : ℕ) (j k : SingleHit) (fired : Bool)
      → InSlot i j
      → InSlot i k
      → twelve_apart j.channel k.channel ≡ true
      → IsMtdHit fl (make_hit fl j k fired)
  unfolding make_hit
  make_hit-IsMtdHit i j k fired vj vk t =
      let p = vj.inside in
      elim (Bool-cases (ltb j.channel 12)) [
        | inl e ↦ rw e (record {
          backleg_low = p.backleg_low;
          backleg_high = p.backleg_high;
          tray_low = p.tray_low;
          tray_high = p.tray_high;
          channel_lt = ground arith;
        })
        | inr e ↦ rw e (record {
          backleg_low = p.backleg_low;
          backleg_high = p.backleg_high;
          tray_low = p.tray_low;
          tray_high = p.tray_high;
          channel_lt = ground (arith, p.channel_lt, vk.inside.channel_lt);
        })
      ]

  pair_hits-Within :
      (i : ℕ) (j k : SingleHit)
      → InSlot i j
      → InSlot i k
      → twelve_apart j.channel k.channel ≡ true
      → IsWired c (j.backleg - 1) (j.tray - 1)
      → Within 1 (pair_hits fl c trig j k)
  unfolding pair_hits is_hit_in_trig_win
  pair_hits-Within i j k vj vk t w =
      let (f, e) = fired-some c trig j.backleg j.tray w in
      (make_hit fl j k f ∷ [], rw e refl, omega arith, (make_hit-IsMtdHit i j k f vj vk t, tt))

  -- The channel of the other end of the strip.
  other_end : ℕ → ℕ
  other_end n = if ltb n 12 then n + 12 else n - 12

  twelve_apart_other : (j k : ℕ) → j < 24 → k < 24 → twelve_apart j k ≡ true → k ≡ other_end j
  unfolding other_end
  twelve_apart_other j k hj hk e = ground arith

  no_partner :
      (j : SingleHit) (ks : List SingleHit)
      → j.channel < 24
      → All (λ k. k.channel < 24) ks
      → All (λ n. n ≢ other_end j.channel) (channels ks)
      → Within 0 (with_partners fl c trig j ks)
  unfolding with_partners
  no_partner j [] hj hk ne = ([], refl, omega arith, tt)
  no_partner j (k ∷ ks) hj (hk, hks) (ne, nes) =
      elim (Bool-cases (twelve_apart j.channel k.channel && complete k)) [
        | inl t ↦ absurd (ne (twelve_apart_other j.channel k.channel hj hk (ground arith)))
        | inr t ↦ rw t (no_partner j ks hj hks nes)
      ]

  channels_below : (i : ℕ) (ss : List SingleHit) → All (InSlot i) ss → All (λ s. s.channel < 24) ss
  channels_below i [] v = tt
  channels_below i (s ∷ ss) (v, vs) = (v.inside.channel_lt, channels_below i ss vs)

  one_partner :
      (i : ℕ) (j : SingleHit) (ks : List SingleHit)
      → InSlot i j
      → All (InSlot i) ks
      → Fit c j
      → All (Fit c) ks
      → Distinct (channels ks)
      → Within 1 (with_partners fl c trig j ks)
  unfolding with_partners
  one_partner i j [] vj vs w ws d = ([], refl, omega arith, tt)
  one_partner i j (k ∷ ks) vj (vk, vs) w (wk, ws) (f, d) =
      elim (Bool-cases (twelve_apart j.channel k.channel && complete k)) [
        | inl t ↦
            let hj = vj.inside.channel_lt in
            let hk = vk.inside.channel_lt in
            let apart : twelve_apart j.channel k.channel ≡ true = ground (arith, t) in
            let e = twelve_apart_other j.channel k.channel hj hk apart in
            rw t (
              Within-join 1 0 1 (pair_hits fl c trig j k) (with_partners fl c trig j ks)
                (omega arith)
                (pair_hits-Within i j k vj vk apart (both-IsWired c i j k vj vk w wk apart))
                (no_partner j ks hj (channels_below i ks vs)
                  (subst (λ (n : ℕ). All (λ m. m ≢ n) (channels ks)) e f)))
        | inr t ↦ rw t (one_partner i j ks vj vs w ws d)
      ]

  slot_hits-Within :
      (i : ℕ) (ss : List SingleHit)
      → All (Fit c) ss
      → All (InSlot i) ss
      → Distinct (channels ss)
      → Within (length ss) (slot_hits fl c trig ss)
  unfolding slot_hits
  slot_hits-Within i [] w h d = ([], refl, omega arith, tt)
  slot_hits-Within i (j ∷ ks) (w, ws) (hj, hks) (f, d) = elim (Bool-cases (complete j)) [
    | inl t ↦ rw t (
        Within-join 1 (length ks) (suc (length ks)) (with_partners fl c trig j ks)
          (slot_hits fl c trig ks) (omega arith) (one_partner i j ks hj hks w ws d)
          (slot_hits-Within i ks ws hks d))
    | inr t ↦ let (hs, e, le, v) = slot_hits-Within i ks ws hks d in rw t (hs, e, omega arith, v)
  ]

  slots_hits-Within :
      (left i : ℕ) (f : Slots)
      → IsSlots f
      → ((k : ℕ) → All (Fit c) (f k))
      → Within (left * 24) (slots_hits fl c trig left i f)
  unfolding slots_hits
  slots_hits-Within zero i f v w = ([], refl, omega arith, tt)
  slots_hits-Within (suc left) i f v w =
      Within-join (length (f i)) (left * 24) (suc left * 24) (slot_hits fl c trig (f i))
        (slots_hits fl c trig left (i + 1) f) (omega (arith, length-IsSlot-le i (f i) (v i)))
        (slot_hits-Within i (f i) (w i) (v i).members (v i).apart)
        (slots_hits-Within left (i + 1) f v w)

  -- On slots as fillMtdSingleHits builds them, with every module on a QT board save for single hits of
  -- channel 22, fillMtdHits looks up trigger positions inside their array only, and makes at most 3600
  -- hits, each of a strip inside the detector: the buffer of 10000 is never exceeded, though the code
  -- does not check it.
  pub fill_mtd_hits-Within :
      (f : Slots)
      → IsSlots f
      → ((k : ℕ) → All (Fit c) (f k))
      → (hs : List (MtdHit fl)) × (fill_mtd_hits fl c trig f ≡ some hs)
        × (length hs ≤ 3600)
        × All (IsMtdHit fl) hs
  unfolding fill_mtd_hits
  fill_mtd_hits-Within f v w = slots_hits-Within 150 0 f v w
