-- ===== src/Mtd/Reader/Events.antt =====
-- Runs of mtd_hlt_reader: any sequence of calls on one object, and what holds at each point of it.
use star_hlt_tofmtd.Prelude.{
  ℕ, ◌≡◌, refl, sym, ap, subst, inl, inr, List, [], ◌++◌, Option, none, some, All, All-append,
  All-map_in,
}
use star_hlt_tofmtd.Prelude.Int.{ℤ}
use star_hlt_tofmtd.Floats.{Floats}
use star_hlt_tofmtd.Mtd.Types.{RawHit, Scan}
use star_hlt_tofmtd.Mtd.Rdo
use star_hlt_tofmtd.Mtd.Rdo.Bounds.{IsRaw, read_rdo_event-Grows}
use star_hlt_tofmtd.Mtd.Rdo.{tray_of}
use star_hlt_tofmtd.Mtd.Singles.{fill_single_hits}
use star_hlt_tofmtd.Mtd.Singles.Distinct.{IsSlots, fill_single_hits-IsSlots}
use star_hlt_tofmtd.Mtd.Singles.Filed.{AllFiled, fill_single_hits-AllFiled}
use star_hlt_tofmtd.Mtd.Config.{init}
use star_hlt_tofmtd.Mtd.Hits.{◌>>=◌, MtdHit, fill_mtd_hits}
use star_hlt_tofmtd.Mtd.Sectors.{tpc_sector_mask}
use star_hlt_tofmtd.Mtd.Reader.{
  Reader, year_of, construct, new_event, read_rdo_event, TriggerBlock, read_mxq, read_mtd_trigger,
  MtdSend, sent, do_event,
}

-- The states of an object made for a run, after any calls of its functions that return.
pub data Reached (fl : Floats) (run : ℕ) : Reader → Type 0 where
  made : (garbage : ℕ) → Reached fl run (construct run garbage)
  cleared : {r : Reader} → Reached fl run r → Reached fl run (new_event r).1
  read :
      {r : Reader} (rdo : ℕ) (ws : List ℕ)
      → Reached fl run r
      → Reached fl run (read_rdo_event rdo ws r).1
  triggered :
      {r : Reader} (block : TriggerBlock) (ret : ℤ) (r' : Reader)
      → read_mtd_trigger block r ≡ some (ret, r')
      → Reached fl run r
      → Reached fl run r'
  done :
      {r : Reader} (fuel whole one n : ℕ) (send : MtdSend fl) (r' : Reader)
      → do_event fl fuel whole one r ≡ some (n, send, r')
      → Reached fl run r
      → Reached fl run r'

abbrev AllRaw : List RawHit → Type 0
AllRaw = All (λ h. (rdo : ℕ) × IsRaw rdo h)

-- What holds of every such state.
pub record IsReader (run : ℕ) (r : Reader) : Type 0 where
  pub year_eq : r.run_year ≡ year_of run
  pub config_eq : r.config ≡ init (year_of run)
  pub leading_raw : AllRaw r.scan.leading
  pub trailing_raw : AllRaw r.scan.trailing
  pub slots : IsSlots r.single_hits
  pub filed : (i : ℕ) → AllFiled (r.single_hits i)

bind-some {ℓ κ} :
    {A : Type ℓ} {B : Type κ} (m : Option A) (f : A → Option B) (b : B)
    → (m >>= f) ≡ some b
    → (a : A) × (m ≡ some a) × (f a ≡ some b)
bind-some none f b e = absurd cc
bind-some (some a) f b e = (a, refl, e)

some_inj {ℓ} : {A : Type ℓ} (a b : A) → some a ≡ some b → a ≡ b
some_inj a b e = cc

empty-IsSlots : IsSlots (λ i. [])
empty-IsSlots i = record { members = tt; apart = tt }

construct-IsReader : (run garbage : ℕ) → IsReader run (construct run garbage)
unfolding construct
construct-IsReader run garbage = record {
  year_eq = refl;
  config_eq = refl;
  leading_raw = tt;
  trailing_raw = tt;
  slots = empty-IsSlots;
  filed = λ i. tt;
}

module _ (run : ℕ) (r : Reader) (v : IsReader run r) where
  new_event-IsReader : IsReader run (new_event r).1
  unfolding new_event
  new_event-IsReader = record {
    year_eq = v.year_eq;
    config_eq = v.config_eq;
    leading_raw = tt;
    trailing_raw = tt;
    slots = empty-IsSlots;
    filed = λ i. tt;
  }

  scanned : (t : Scan) → AllRaw t.leading → AllRaw t.trailing → IsReader run (record r { scan = t })
  scanned t l k = record {
    year_eq = v.year_eq;
    config_eq = v.config_eq;
    leading_raw = l;
    trailing_raw = k;
    slots = v.slots;
    filed = v.filed;
  }

  raws :
      (rdo : ℕ) (xs ys zs : List RawHit)
      → zs ≡ xs ++ ys
      → AllRaw xs
      → All (IsRaw rdo) ys
      → AllRaw zs
  raws rdo xs ys zs e p q = subst (AllRaw) (sym e) (
      All-append (λ h. (rdo' : ℕ) × IsRaw rdo' h) xs ys p
        (All-map_in (IsRaw rdo) (λ h. (rdo' : ℕ) × IsRaw rdo' h) ys (λ h w. (rdo, w)) q))

  read_rdo_event-IsReader : (rdo : ℕ) (ws : List ℕ) → IsReader run (read_rdo_event rdo ws r).1
  unfolding read_rdo_event
  read_rdo_event-IsReader rdo ws = elim (read_rdo_event-Grows rdo ws r.scan) [
    | inl (k, ret, g) ↦
        scanned (Rdo.read_rdo_event rdo ws r.scan).1
          (raws rdo r.scan.leading g.lead _ g.leading_eq v.leading_raw g.lead_raw)
          (raws rdo r.scan.trailing g.trail _ g.trailing_eq v.trailing_raw g.trail_raw)
    | inr (a, b, ret, e) ↦ rw e (scanned r.scan v.leading_raw v.trailing_raw)
  ]

  read_mtd_trigger-IsReader :
      (block : TriggerBlock) (ret : ℤ) (r' : Reader)
      → read_mtd_trigger block r ≡ some (ret, r')
      → IsReader run r'
  unfolding read_mtd_trigger
  read_mtd_trigger-IsReader block ret r' e =
      let (q, eq, last) = bind-some (read_mxq r.run_year block.mxq r.readout) _ (ret, r') e in
      subst (IsReader run) (ap (λ (p : ℤ × Reader). p.1) (some_inj _ (ret, r') last)) (record {
        year_eq = v.year_eq;
        config_eq = v.config_eq;
        leading_raw = v.leading_raw;
        trailing_raw = v.trailing_raw;
        slots = v.slots;
        filed = v.filed;
      })

  pub filled-IsReader :
      IsReader run
        (record r { single_hits = fill_single_hits r.scan.leading r.scan.trailing r.single_hits })
  filled-IsReader = record {
    year_eq = v.year_eq;
    config_eq = v.config_eq;
    leading_raw = v.leading_raw;
    trailing_raw = v.trailing_raw;
    slots = fill_single_hits-IsSlots r.scan.leading r.scan.trailing r.single_hits v.slots;
    filed =
        fill_single_hits-AllFiled r.scan.leading r.scan.trailing r.single_hits v.leading_raw
          v.trailing_raw v.filed;
  }

  do_event-IsReader :
      (fl : Floats) (fuel whole one n : ℕ) (send : MtdSend fl) (r' : Reader)
      → do_event fl fuel whole one r ≡ some (n, send, r')
      → IsReader run r'
  unfolding do_event sent
  do_event-IsReader fl fuel whole one n send r' e =
      let slots = fill_single_hits r.scan.leading r.scan.trailing r.single_hits in
      let send_mask = λ (hits : List (MtdHit fl)).
        tpc_sector_mask fl fuel hits >>= λ mask. some (sent fl whole one r slots hits mask) in
      let (hits, eh, e1) =
        bind-some (fill_mtd_hits fl r.config r.trig slots) send_mask (n, send, r') e in
      let (mask, em, e2) =
        bind-some (tpc_sector_mask fl fuel hits) (λ k. some (sent fl whole one r slots hits k))
          (n, send, r') e1 in
      subst (IsReader run)
        (ap (λ (p : ℕ × MtdSend fl × Reader). p.2)
          (some_inj (sent fl whole one r slots hits mask) (n, send, r') e2))
        filled-IsReader

-- Whatever words, trigger blocks and orders of calls led to it, a state holds only raw hits of channels of
-- the detector, and each slot of single hits belongs to one backleg and tray, has no strip twice, and has
-- strips of modules that are read out, or channel 22, alone; the wiring is that of the run year.
pub Reached-IsReader : (fl : Floats) (run : ℕ) (r : Reader) → Reached fl run r → IsReader run r
Reached-IsReader fl run r (made garbage) = construct-IsReader run garbage
Reached-IsReader fl run r (cleared {r = q} p) =
    new_event-IsReader run q (Reached-IsReader fl run q p)
Reached-IsReader fl run r (read {r = q} rdo ws p) =
    read_rdo_event-IsReader run q (Reached-IsReader fl run q p) rdo ws
Reached-IsReader fl run r (triggered {r = q} block ret r' e p) =
    read_mtd_trigger-IsReader run q (Reached-IsReader fl run q p) block ret r e
Reached-IsReader fl run r (done {r = q} fuel whole one n send r' e p) =
    do_event-IsReader run q (Reached-IsReader fl run q p) fl fuel whole one n send r e
