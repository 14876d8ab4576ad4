-- ===== src/Mtd/Reader.antt =====
-- The class mtd_hlt_reader of HLT_MTD/mtd_hlt_reader.cxx as a whole: its members and the functions that
-- the HLT calls, in terms of the other files of this directory. The clock readings and the log are left
-- out. The members that no function reads after the constructor are left out too: run_number,
-- trigWinCut_low and trigWinCut_high.
use star_hlt_tofmtd.Prelude.{
  ℕ, zero, suc, ◌+◌, ◌-◌, ◌*◌, ◌/◌, ◌%◌, ◌^◌, Bool, true, false, List, [], ◌∷◌, Option, none, some,
  ltb, ◌==◌, if◌then◌else◌, length, map,
}
use star_hlt_tofmtd.Prelude.Int.{ℤ, pos, negsuc}
use star_hlt_tofmtd.Floats.{Floats}
use star_hlt_tofmtd.Mtd.Types.{RawHit, SingleHit, Scan}
use star_hlt_tofmtd.Mtd.Rdo
use star_hlt_tofmtd.Mtd.Singles.{Slots, fill_single_hits}
use star_hlt_tofmtd.Mtd.Config.{Config, init}
use star_hlt_tofmtd.Mtd.Hits.{◌>>=◌, TrigPos, MtdHit, fill_mtd_hits}
use star_hlt_tofmtd.Mtd.Sectors.{tpc_sector_mask}
use star_hlt_tofmtd.Mtd.Qt.{Table, decode_qt}
use star_hlt_tofmtd.Mtd.Trigger.{Readout, store_qt, board_sum, trig_positions}
use star_hlt_tofmtd.Mtd.Swap.{swap_i, short_at}
pub mod Events
pub mod Total
pub mod Sent

pub record Reader : Type 0 where
  pub run_year : ℕ
  pub evt_counter : ℕ
  -- trigger_time, mtdLeadingHits and mtdTrailingHits.
  pub scan : Scan
  pub single_hits : Slots
  pub config : Config
  pub tf201 : ℕ
  pub tf201_2 : ℕ
  pub readout : Readout
  pub trig : TrigPos

abbrev pub no_table : Table
no_table i j = 0

abbrev pub no_scan : Scan
no_scan = record {
  geo = none;
  trigger_time = (2 ^ 32 - 1) ∷ (2 ^ 32 - 1) ∷ [];
  leading = [];
  trailing = [];
}

-- run/1000000 - 1, in an unsigned int.
abbrev pub year_of : ℕ → ℕ
year_of run = (run / 1000000 + 2 ^ 32 - 1) % 2 ^ 32

-- The constructor. It does not set evt_counter, which holds what was in memory.
unfoldable pub construct : ℕ → ℕ → Reader
construct run garbage = record {
  run_year = year_of run;
  evt_counter = garbage;
  scan = no_scan;
  single_hits = λ i. [];
  config = init (year_of run);
  tf201 = 0;
  tf201_2 = 0;
  readout = record { tac = no_table; adc = no_table };
  trig = λ q j. pos 0;
}

-- clear, and one event more; the counter is returned.
unfoldable pub new_event : Reader → ℕ × Reader
new_event r =
    let n = (r.evt_counter + 1) % 2 ^ 32 in
    (n, record r { evt_counter = n; scan = no_scan; single_hits = λ i. [] })

unfoldable pub read_rdo_event : ℕ → List ℕ → Reader → ℤ × Reader
read_rdo_event rdo ws r =
    let (ret, t) = Rdo.read_rdo_event rdo ws r.scan in (ret, record r { scan = t })

-- The parts of the trigger data block that are read: the words of L1_DSM->TOF and the words of the QT
-- block, `none` if its length is not above 0. Both are in the order of the network.
pub record TriggerBlock : Type 0 where
  pub tof : List ℕ
  pub mxq : Option (List ℕ)

-- mtdQTtac and mtdQTadc with the decoded block, and the value returned. Without a block they keep the
-- values of an earlier event.
unfoldable pub read_mxq : ℕ → Option (List ℕ) → Readout → Option (ℤ × Readout)
read_mxq run_year none q = some (negsuc 0, q)
read_mxq run_year (some ws) q = decode_qt (map swap_i ws) no_table no_table >>= λ decoded.
    some (pos 0, store_qt run_year decoded.0 q)

unfoldable pub read_mtd_trigger : TriggerBlock → Reader → Option (ℤ × Reader)
read_mtd_trigger block r =
    let tf = short_at block.tof 3 in
    let tf2 = if r.run_year == 16 then short_at block.tof 5 else 0 in
    read_mxq r.run_year block.mxq r.readout >>= λ read.
    let sums = board_sum r.run_year r.config read.1 in
    some (
      read.0,
      record r {
        tf201 = tf;
        tf201_2 = tf2;
        readout = read.1;
        trig = trig_positions r.run_year sums tf tf2;
      },
    )

-- The muon signals of a trigger word, for i and j of the loops over `4 - left` to 3 and 0 to 1.
muon_bits : ℕ → ℕ → ℕ → ℕ
muon_bits zero i tf = 0
muon_bits (suc left) i tf =
    tf / 2 ^ (i * 2 + 4) % 2 + tf / 2 ^ (i * 2 + 1 + 4) % 2 + muon_bits left (i + 1) tf

unfoldable pub muons : ℕ → ℕ → ℕ
unfolding muon_bits
muons tf tf2 = muon_bits 4 0 tf + muon_bits 4 0 tf2

-- The bytes used of a buffer of `whole` bytes with room for 10000 hits of `one` byte each.
unfoldable pub bytes_used : ℕ → ℕ → ℕ → ℕ
bytes_used whole one n = whole - (10000 - n) * one

module _ (fl : Floats) where
  -- Mtdsend, without the entries of mtdhits that are not in use.
  pub record MtdSend : Type 0 where
    pub is_dimuon : Bool
    pub tpc_mask : ℕ
    pub mtd_hits : List (MtdHit fl)

  -- What do_event leaves behind and returns.
  unfoldable pub sent : ℕ → ℕ → Reader → Slots → List (MtdHit fl) → ℕ → ℕ × MtdSend × Reader
  sent whole one r slots hits mask = (
    bytes_used whole one (length hits),
    record { is_dimuon = ltb 1 (muons r.tf201 r.tf201_2); tpc_mask = mask; mtd_hits = hits },
    record r { single_hits = slots },
  )

  -- do_event with sizeof(Mtdsend) and sizeof(MtdHit); `none` is a read outside mTrigQTpos or too little
  -- fuel for the rotation of an angle.
  unfoldable pub do_event : ℕ → ℕ → ℕ → Reader → Option (ℕ × MtdSend × Reader)
  do_event fuel whole one r =
      let slots = fill_single_hits r.scan.leading r.scan.trailing r.single_hits in
      fill_mtd_hits fl r.config r.trig slots >>= λ hits.
      tpc_sector_mask fl fuel hits >>= λ mask. some (sent whole one r slots hits mask)
