-- ===== src/Tests/Rdo.antt =====
-- RDO words of backleg 1, decoded, and the strips of its channels.
use star_hlt_tofmtd.Prelude.{
  ℕ, ◌-◌, ◌%◌, ◌≤◌, ◌<◌, ◌≡◌, ◌≢◌, refl, ◌⊎◌, inl, inr, List, [], ◌∷◌, map, some, none, arith,
}
use star_hlt_tofmtd.Prelude.Int.{pos, negsuc}
use star_hlt_tofmtd.Mtd.Types.{Geo, Scan}
use star_hlt_tofmtd.Mtd.Rdo.{
  tray_of, tdig_of, global_strip, read_words, read_word, read_tdc, read_rdo_event,
}
use star_hlt_tofmtd.Mtd.Rdo.Strips.{global_strip-injective}
use star_hlt_tofmtd.Mtd.Rdo.Decode.{
  Edge, IsEdge, tdc_word, geo_word, hit_of, read_rdo_event-tdc_word,
}
use star_hlt_tofmtd.Mtd.Rdo.Bounds.{Grows, read_rdo_event-Grows}
use star_hlt_tofmtd.Mtd.Config.{init}
use star_hlt_tofmtd.Mtd.Config.Wiring.{IsWired, init-IsWired}
use star_hlt_tofmtd.Mtd.Singles.{place_of}
use star_hlt_tofmtd.Mtd.Singles.Places.{InUse, place_of-hit_of, place_of-hit_of_unmapped}

abbrev empty : Scan
empty = record { geo = none; trigger_time = 0 ∷ 0 ∷ []; leading = []; trailing = [] }

abbrev half_one : Geo
half_one = record { half = 0; backleg = 1 }

-- Channel 1 of chip 1 of TDIG 0, and channel 0 of chip 3 of TDIG 1, which has no strip.
abbrev lead_edge : Edge
lead_edge = record { edge = 4; tdcid = 1; tdcchan = 1; time = 1000 }

abbrev trail_edge : Edge
trail_edge = record { edge = 5; tdcid = 1; tdcchan = 1; time = 1010 }

abbrev stray_edge : Edge
stray_edge = record { edge = 4; tdcid = 7; tdcchan = 0; time = 7 }

abbrev two_edges : List Edge
two_edges = lead_edge ∷ trail_edge ∷ []

lead_edge-IsEdge : IsEdge lead_edge
lead_edge-IsEdge = record {
  edge_in = inl refl;
  tdcid_lt = omega arith;
  tdcchan_lt = omega arith;
  time_lt = omega arith;
}

trail_edge-IsEdge : IsEdge trail_edge
trail_edge-IsEdge = record {
  edge_in = inr refl;
  tdcid_lt = omega arith;
  tdcchan_lt = omega arith;
  time_lt = omega arith;
}

read_rdo_event-tdc_word_example :
    read_rdo_event 1 (geo_word half_one ∷ map tdc_word two_edges) empty ≡ (
      pos 0,
      record {
        geo = some half_one;
        trigger_time = 0 ∷ 0 ∷ [];
        leading = hit_of 1 half_one lead_edge ∷ [];
        trailing = hit_of 1 half_one trail_edge ∷ [];
      },
    )
read_rdo_event-tdc_word_example =
    read_rdo_event-tdc_word 1 half_one two_edges empty (inl refl) (omega arith) (omega arith)
      (omega arith) (lead_edge-IsEdge, (trail_edge-IsEdge, tt))

abbrev second_rdo : ℕ
second_rdo = 2

read_rdo_event-Grows_example :
    let t = read_rdo_event second_rdo (geo_word half_one ∷ map tdc_word two_edges) empty in
    (((second_rdo ≡ 1) ⊎ (second_rdo ≡ 2)) × (t.0 ≡ pos 0) × Grows 2 3 empty t.1)
    ⊎ ((second_rdo ≢ 1) × (second_rdo ≢ 2) × (t.0 ≡ negsuc 0) × (t.1 ≡ empty))
read_rdo_event-Grows_example =
    read_rdo_event-Grows second_rdo (geo_word half_one ∷ map tdc_word two_edges) empty

-- A word with another tag than those of the edges, and a TDC word before any geographical word.
nothing_read : (read_rdo_event 1 (0x60000000 ∷ 0x41200000 ∷ []) empty).1.leading ≡ []
unfolding read_rdo_event read_words read_word read_tdc
nothing_read = refl

strip_of_lead : global_strip (tray_of 1 0) 0 1 1 ≡ pos 1
unfolding global_strip tray_of
strip_of_lead = refl

-- Two chips whose numbers differ in the upper bits, which only the TDIG number uses.
abbrev tdig : ℕ
tdig = 0

abbrev chip : ℕ
chip = 1

abbrev chip_above : ℕ
chip_above = 5

abbrev chan : ℕ
chan = 1

global_strip-injective_example : (tdig ≡ tdig) × (chip % 4 ≡ chip_above % 4) × (chan ≡ chan)
unfolding global_strip
global_strip-injective_example =
    global_strip-injective 1 tdig chip chan tdig chip_above chan (omega arith) (omega arith)
      (omega arith) (omega arith, omega arith) (omega arith, omega arith) one_le one_le refl
  where
    one_le : 1 ≤ tray_of 1 0
    one_le = unfold tray_of in omega arith

place_of-hit_of_example :
    (c : ℕ) × (c < 24)
    × (place_of (hit_of 1 half_one lead_edge)
        ≡ some (record { backleg = 1; tray = tray_of 1 (tdig_of 1 0); channel = c }))
place_of-hit_of_example =
    place_of-hit_of 1 half_one lead_edge in_use (omega arith, omega arith) one_le
  where
    in_use : InUse half_one lead_edge
    in_use = record {
      half_lt = omega arith;
      backleg_low = omega arith;
      backleg_high = omega arith;
      not_nine = omega arith;
      tdcid_lt = omega arith;
      tdcchan_lt = omega arith;
    }

    one_le : 1 ≤ tray_of 1 (tdig_of 1 0)
    one_le = unfold tray_of tdig_of in omega arith

place_of-hit_of_unmapped_example :
    place_of (hit_of 1 half_one stray_edge)
    ≡ some (record { backleg = 1; tray = tray_of 1 (tdig_of 7 0) - 1; channel = 22 })
place_of-hit_of_unmapped_example =
    place_of-hit_of_unmapped 1 half_one stray_edge in_use refl refl two_le
  where
    in_use : InUse half_one stray_edge
    in_use = record {
      half_lt = omega arith;
      backleg_low = omega arith;
      backleg_high = omega arith;
      not_nine = omega arith;
      tdcid_lt = omega arith;
      tdcchan_lt = omega arith;
    }

    two_le : 2 ≤ tray_of 1 (tdig_of 7 0)
    two_le = unfold tray_of tdig_of in omega arith

init-IsWired_example : IsWired (init 17) 0 0
init-IsWired_example =
    init-IsWired 17 1 0 0 (omega arith) (omega arith) (omega arith) (omega arith) (omega arith)
      first_tray
  where
    first_tray : tray_of 1 0 ≡ 1
    first_tray = unfold tray_of in refl
