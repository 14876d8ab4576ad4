-- ===== src/Tests/Singles.antt =====
-- The single hits of two raw hits of one strip, and the hits of a tray.
use star_hlt_tofmtd.Prelude.{
  ℕ, zero, suc, ◌≤◌, ◌<◌, ◌≡◌, refl, false, ◌&&◌, List, [], ◌∷◌, ◌++◌, some, arith, length, All,
  inl,
}
use star_hlt_tofmtd.Prelude.Int.{ℤ, pos, negsuc, div_trunc, mod_trunc, ◌+ℤ◌, ◌-ℤ◌}
use star_hlt_tofmtd.Mtd.Types.{RawHit, SingleHit}
use star_hlt_tofmtd.Mtd.Config.{Config, blank}
use star_hlt_tofmtd.Mtd.Config.Wiring.{IsWired}
use star_hlt_tofmtd.Mtd.Singles.{
  leading, trailing, Place, place_of, checked_place, add_time, add_at, Slots, fill_edges,
  fill_single_hits,
}
use star_hlt_tofmtd.Mtd.Singles.Gather.{times_of, times_at, times_in, times_of-fill_single_hits}
use star_hlt_tofmtd.Mtd.Singles.Distinct.{InSlot, IsSlots, fill_single_hits-IsSlots}
use star_hlt_tofmtd.Mtd.Hits.{
  TrigPos, trig_match, is_mtd_hit_fired_trigger, is_hit_in_trig_win, MtdHit, make_hit, pair_hits,
  with_partners, slot_hits, fill_mtd_hits,
}
use star_hlt_tofmtd.Mtd.Hits.Strips.{fired_strip, has_channel, has_channel-slot_hits}
use star_hlt_tofmtd.Mtd.Hits.Bounds.{Fit, IsMtdHit, fill_mtd_hits-Within}
use star_hlt_tofmtd.Tests.Fixed.{fixed}

abbrev raw : ℕ → ℤ → RawHit
raw tdc strip = record { tdc = tdc; fiberid = 0; backleg = 1; globaltdcchan = strip }

abbrev strip_one : Place
strip_one = record { backleg = 1; tray = 1; channel = 0 }

abbrev lead_hits : List RawHit
lead_hits = raw 1000 (pos 1) ∷ raw 2000 (pos 2) ∷ raw 1020 (pos 1) ∷ []

abbrev trail_hits : List RawHit
trail_hits = raw 1010 (pos 1) ∷ raw 9 (negsuc 4) ∷ []

abbrev no_hits : Slots
no_hits i = []

no_hits-IsSlots : IsSlots no_hits
no_hits-IsSlots i = record { members = tt; apart = tt }

times_of-fill_single_hits_example :
    (times_of leading strip_one (fill_single_hits lead_hits trail_hits no_hits)
      ≡ times_of leading strip_one no_hits ++ times_at strip_one lead_hits)
    × (times_of trailing strip_one (fill_single_hits lead_hits trail_hits no_hits)
        ≡ times_of trailing strip_one no_hits ++ times_at strip_one trail_hits)
times_of-fill_single_hits_example = times_of-fill_single_hits strip_one lead_hits trail_hits no_hits

two_times :
    times_of leading strip_one (fill_single_hits lead_hits trail_hits no_hits) ≡ 1000 ∷ 1020 ∷ []
unfolding times_of times_in fill_single_hits fill_edges add_at add_time place_of checked_place
    div_trunc mod_trunc ◌+ℤ◌ ◌-ℤ◌
two_times = refl

fill_single_hits-IsSlots_example : IsSlots (fill_single_hits lead_hits trail_hits no_hits)
fill_single_hits-IsSlots_example =
    fill_single_hits-IsSlots lead_hits trail_hits no_hits no_hits-IsSlots

-- The two ends of strip 3 of a tray, both complete.
abbrev end_hit : ℕ → SingleHit
end_hit channel = record {
  fiber_id = 0;
  backleg = 1;
  tray = 1;
  channel = channel;
  leading_edge_time = 1000 ∷ [];
  trailing_edge_time = 1010 ∷ [];
}

abbrev ends : List SingleHit
ends = end_hit 3 ∷ end_hit 15 ∷ []

-- Module 1 of backleg 1 on the first place of the first board.
abbrev one_board : Config
one_board = record blank {
  module_to_qt = λ i j. pos 1;
  module_to_qt_pos = λ i j. pos 1;
  qt_to_module = λ i j. pos 1;
}

abbrev no_trig : TrigPos
no_trig q j = negsuc 0

ends_hits : List (MtdHit fixed)
ends_hits = make_hit fixed (end_hit 3) (end_hit 15) false ∷ []

has_channel-slot_hits_example :
    has_channel fixed 3 ends_hits ≡ (fired_strip 3 ends && fired_strip 15 ends)
has_channel-slot_hits_example =
    has_channel-slot_hits fixed one_board no_trig 3 ends ends_hits (omega arith)
      (omega arith, (omega arith, tt)) made
  where
    made : slot_hits fixed one_board no_trig ends ≡ some ends_hits
    made =
        unfold ends_hits slot_hits with_partners pair_hits is_mtd_hit_fired_trigger trig_match
          is_hit_in_trig_win in
        refl

abbrev one_tray : Slots
one_tray zero = ends
one_tray (suc i) = []

one_tray-IsSlots : IsSlots one_tray
one_tray-IsSlots zero = record {
  members = (inside 3 (omega arith), (inside 15 (omega arith), tt));
  apart = ((omega arith, tt), (tt, tt));
}
  where
    inside : (c : ℕ) → c < 24 → InSlot 0 (end_hit c)
    inside c h = record {
      inside = record {
        backleg_low = omega arith;
        backleg_high = omega arith;
        tray_low = omega arith;
        tray_high = omega arith;
        channel_lt = h;
      };
      here = refl;
    }
one_tray-IsSlots (suc i) = record { members = tt; apart = tt }

one_board-IsWired : IsWired one_board 0 0
one_board-IsWired = record {
  qt = 0;
  place = 0;
  qt_eq = refl;
  place_eq = refl;
  qt_lt = omega arith;
  place_lt = omega arith;
  back = refl;
}

one_tray-Fit : (k : ℕ) → All (Fit one_board) (one_tray k)
one_tray-Fit zero = (inl one_board-IsWired, (inl one_board-IsWired, tt))
one_tray-Fit (suc k) = tt

fill_mtd_hits-Within_example :
    (hs : List (MtdHit fixed)) × (fill_mtd_hits fixed one_board no_trig one_tray ≡ some hs)
    × (length hs ≤ 3600)
    × All (IsMtdHit fixed) hs
fill_mtd_hits-Within_example =
    fill_mtd_hits-Within fixed one_board no_trig one_tray one_tray-IsSlots one_tray-Fit
