-- ===== src/Tests/Reader.antt =====
-- An event of run 17000001 with one strip of backleg 1 fired.
use star_hlt_tofmtd.Prelude.{
  ℕ, ◌+◌, ◌*◌, ◌/◌, ◌%◌, ◌^◌, ◌≤◌, ◌<◌, ◌≡◌, refl, Bool, true, false, List, [], ◌∷◌, map, Option,
  none, some, arith, length, All,
}
use star_hlt_tofmtd.Prelude.Finite.{all_below, all_below_sound}
use star_hlt_tofmtd.Mtd.Rdo.Decode.{Edge, tdc_word, geo_word}
use star_hlt_tofmtd.Mtd.Sectors.{mtd_hit_global_phi, rotate_phi, tpc_sector_mask}
use star_hlt_tofmtd.Mtd.Hits.Bounds.{IsMtdHit}
use star_hlt_tofmtd.Mtd.Reader.{
  Reader, muons, construct, new_event, read_rdo_event, MtdSend, do_event, bytes_used, sent,
}
use star_hlt_tofmtd.Mtd.Reader.Events.{Reached, made, cleared, read, IsReader, Reached-IsReader}
use star_hlt_tofmtd.Mtd.Reader.Total.{Turns, do_event-Reached}
use star_hlt_tofmtd.Mtd.Rdo
use star_hlt_tofmtd.Mtd.Hits.{
  fill_mtd_hits, slots_hits, slot_hits, with_partners, is_hit_in_trig_win, is_mtd_hit_fired_trigger,
  make_hit, pair_hits, trig_match,
}
use star_hlt_tofmtd.Mtd.Singles.{
  fill_single_hits, fill_edges, add_at, add_time, place_of, checked_place,
}
use star_hlt_tofmtd.Mtd.Rdo.{
  read_words, read_word, read_tdc, tdig_of, raw_hit, global_strip, tray_of,
}
use star_hlt_tofmtd.Mtd.Config.{init, blank, slewing, wire_rows}
use star_hlt_tofmtd.Mtd.Tables.{
  module2qt_run17, module2chan_run17, module2qt_run16, module2chan_run16,
}
use star_hlt_tofmtd.Prelude.Int.{div_trunc, mod_trunc}
use star_hlt_tofmtd.Mtd.Swap.{swap_i, swap_ss, swap_i-swap_ss}
use star_hlt_tofmtd.Tests.Fixed.{fixed}

abbrev edge_at : ℕ → ℕ → ℕ → ℕ → Edge
edge_at edge tdcid tdcchan time = record {
  edge = edge;
  tdcid = tdcid;
  tdcchan = tdcchan;
  time = time;
}

-- Both edges of strips 1 and 13 of tray 1.
abbrev words : List ℕ
words =
    geo_word (record { half = 0; backleg = 1 })
    ∷ map tdc_word
        (edge_at 4 1 1 1000 ∷ edge_at 5 1 1 1010 ∷ edge_at 4 2 4 1001 ∷ edge_at 5 2 4 1012 ∷ [])

abbrev ready : Reader
ready = (new_event (construct 17000001 5)).1

abbrev filled_reader : Reader
filled_reader = (read_rdo_event 1 words ready).1

filled_reader-Reached : Reached fixed 17000001 filled_reader
filled_reader-Reached = read 1 words (cleared (made 5))

Reached-IsReader_example : IsReader 17000001 filled_reader
Reached-IsReader_example = Reached-IsReader fixed 17000001 filled_reader filled_reader-Reached

is_some : {A : Type 0} → Option A → Bool
is_some none = false
is_some (some a) = true

turn_table :
    all_below 31
      (λ b. all_below 6 λ m. all_below 12 λ c. is_some (mtd_hit_global_phi fixed 10 b m c))
    ≡ true
unfolding all_below is_some mtd_hit_global_phi fixed rotate_phi
turn_table = refl

is_some-elim : {A : Type 0} (o : Option A) → is_some o ≡ true → (a : A) × (o ≡ some a)
unfolding is_some
is_some-elim none e = absurd cc
is_some-elim (some a) e = (a, refl)

fixed-Turns : Turns fixed 10
fixed-Turns b m c bl bh ml mh cl = is_some-elim _ (
    all_below_sound 12 _ c
      (all_below_sound 6 _ m (all_below_sound 31 _ b turn_table (omega arith)) (omega arith)) cl)

do_event-Reached_example :
    (n : ℕ) × (send : MtdSend fixed) × (r' : Reader) × (do_event fixed 10 880016 88 filled_reader
      ≡ some (n, send, r'))
    × (length send.mtd_hits ≤ 3600)
    × All (IsMtdHit fixed) send.mtd_hits
do_event-Reached_example =
    do_event-Reached fixed 10 17000001 880016 88 filled_reader fixed-Turns (omega arith)
      filled_reader-Reached

-- The hits that the event sends.
abbrev count : Option (ℕ × MtdSend fixed × Reader) → ℕ × ℕ
count none = (0, 0)
count (some (n, send, r)) = (n, length send.mtd_hits)

one_hit : count (do_event fixed 10 880016 88 filled_reader) ≡ (104, 1)
unfolding do_event fixed construct new_event read_rdo_event tpc_sector_mask Rdo.read_rdo_event
    tdc_word geo_word fill_mtd_hits slots_hits slot_hits with_partners is_hit_in_trig_win
    is_mtd_hit_fired_trigger make_hit pair_hits trig_match fill_single_hits fill_edges add_at
    add_time place_of checked_place read_words read_word read_tdc tdig_of raw_hit global_strip
    tray_of init blank slewing wire_rows module2qt_run17 module2chan_run17 module2qt_run16
    module2chan_run16 bytes_used sent div_trunc mod_trunc
one_hit = refl

dimuon : muons 48 1 ≡ 2
unfolding muons
dimuon = refl

swap_i-swap_ss_example :
    (swap_i (swap_i 0x01020304) ≡ 0x01020304)
    × (swap_ss (swap_ss 0x01020304) ≡ 0x01020304)
    × (swap_i 0x01020304 < 2 ^ 32)
    × (swap_ss 0x01020304 < 2 ^ 32)
    × (swap_i (swap_ss 0x01020304) ≡ 0x01020304 / 2 ^ 16 + 0x01020304 % 2 ^ 16 * 2 ^ 16)
swap_i-swap_ss_example = swap_i-swap_ss 0x01020304 (omega arith)

swapped : swap_i 0x01020304 ≡ 0x04030201
unfolding swap_i
swapped = refl
