-- ===== src/Mtd/Reader/Total.antt =====
-- That do_event of mtd_hlt_reader returns, on every state that an object can be in.
use star_hlt_tofmtd.Prelude.{
  ℕ, suc, ◌-◌, ◌≤◌, ◌<◌, ◌≡◌, refl, sym, ◌∙◌, subst, ◌⊎◌, inl, inr, List, [], ◌∷◌, ◌++◌, some,
  arith, All, length, Bool-cases,
}
use star_hlt_tofmtd.Prelude.Int.{ℤ}
use star_hlt_tofmtd.Floats.{Floats}
use star_hlt_tofmtd.Mtd.Types.{SingleHit}
use star_hlt_tofmtd.Mtd.Rdo.{tray_of}
use star_hlt_tofmtd.Mtd.Singles.{fill_single_hits}
use star_hlt_tofmtd.Mtd.Singles.Distinct.{InSlot}
use star_hlt_tofmtd.Mtd.Singles.Filed.{IsRead, AllFiled}
use star_hlt_tofmtd.Mtd.Config.{Config, init}
use star_hlt_tofmtd.Mtd.Config.Wiring.{init-IsWired}
use star_hlt_tofmtd.Mtd.Hits.{MtdHit}
use star_hlt_tofmtd.Mtd.Hits.Bounds.{Fit, IsMtdHit, fill_mtd_hits-Within}
use star_hlt_tofmtd.Mtd.Sectors.{
  sectors_for_tracking, phi_bin, mtd_hit_global_phi, fired_sectors, tracking_mask, tpc_sector_mask,
}
use star_hlt_tofmtd.Mtd.Reader.{Reader, year_of, MtdSend, sent, do_event}
use star_hlt_tofmtd.Mtd.Reader.Events.{Reached, Reached-IsReader, filled-IsReader}

Fit-filed :
    (y i : ℕ) (s : SingleHit)
    → 14 ≤ y
    → InSlot i s
    → IsRead s.backleg s.tray ⊎ (s.channel ≡ 22)
    → Fit (init y) s
Fit-filed y i s h v (inr e) = inr e
Fit-filed y i s h v (inl k) =
    let e : tray_of s.backleg k.tdig ≡ suc (s.tray - 1) =
      k.tray_eq ∙ omega (arith, v.inside.tray_low) in
    inl (init-IsWired y s.backleg k.tdig (s.tray - 1) h k.low k.high k.not_nine k.tdig_lt e)

All-Fit :
    (y i : ℕ) (ss : List SingleHit)
    → 14 ≤ y
    → All (InSlot i) ss
    → AllFiled ss
    → All (Fit (init y)) ss
All-Fit y i [] h v w = tt
All-Fit y i (s ∷ ss) h (v, vs) (w, ws) = (Fit-filed y i s h v w, All-Fit y i ss h vs ws)

module _ (fl : Floats) (fuel : ℕ) where
  open fl use {Double}

  -- The fuel is enough for the angle of every strip.
  abbrev pub Turns : Type 0
  Turns =
      (b m c : ℕ)
      → 1 ≤ b
      → b ≤ 30
      → 1 ≤ m
      → m ≤ 5
      → c < 12
      → (phi : Double) × (mtd_hit_global_phi fl fuel b m c ≡ some phi)

  fired_sectors-some :
      Turns
      → (hs : List (MtdHit fl)) → All (IsMtdHit fl) hs
      → (ss : List ℤ) × (fired_sectors fl fuel hs ≡ some ss)
  unfolding fired_sectors
  fired_sectors-some turns [] v = ([], refl)
  fired_sectors-some turns (h ∷ hs) (v, vs) =
      let (ss, e) = fired_sectors-some turns hs vs in
      let (phi, ep) =
        turns h.backleg h.tray h.channel v.backleg_low v.backleg_high v.tray_low v.tray_high
          v.channel_lt in
      elim (Bool-cases h.is_trigger) [
        | inl t ↦ (sectors_for_tracking (phi_bin fl phi) h.tray ++ ss, rw (t, ep, e) refl)
        | inr t ↦ (ss, rw t e)
      ]

  -- From run year 14 on, with fuel enough to rotate the angle of every strip, do_event returns on every
  -- state that the object can be in, whatever the words and the trigger blocks were: no lookup of a
  -- trigger position leaves its array, and at most 3600 hits, each of a strip of the detector, go to the
  -- buffer of 10000.
  pub do_event-Reached :
      (run whole one : ℕ) (r : Reader)
      → Turns
      → 14 ≤ year_of run
      → Reached fl run r
      → (n : ℕ) × (send : MtdSend fl) × (r' : Reader) × (do_event fl fuel whole one r
          ≡ some (n, send, r'))
        × (length send.mtd_hits ≤ 3600)
        × All (IsMtdHit fl) send.mtd_hits
  unfolding do_event tpc_sector_mask sent
  do_event-Reached run whole one r turns h p =
      let v = Reached-IsReader fl run r p in
      let w = filled-IsReader run r v in
      let slots = fill_single_hits r.scan.leading r.scan.trailing r.single_hits in
      let fit = λ (i : ℕ).
        subst (λ (c : Config). All (Fit c) (slots i)) (sym v.config_eq)
          (All-Fit (year_of run) i (slots i) h (w.slots i).members (w.filed i)) in
      let (hits, e, le, inside) = fill_mtd_hits-Within fl r.config r.trig slots w.slots fit in
      let (ss, es) = fired_sectors-some turns hits inside in
      let (n, send, r') = sent fl whole one r slots hits (tracking_mask ss) in
      (n, send, r', rw (e, es) refl, le, inside)
