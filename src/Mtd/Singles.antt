-- ===== src/Mtd/Singles.antt =====
-- mtd_hlt_reader::fillMtdSingleHits of HLT_MTD/mtd_hlt_reader.cxx: the edges of each strip are
-- gathered in one single hit, in the slot of its tray. The two loops of the source differ only in
-- the list that they push to, which is the argument of type `Side` here. A place in the vectors
-- `mtdSingleHits[MTD_ALLTRAY]` is an argument of a function.
use star_hlt_tofmtd.Prelude.{
  ℕ, ◌+◌, ◌-◌, ◌*◌, Bool, ◌||◌, ◌&&◌, List, [], ◌∷◌, ◌++◌, Option, none, some, ltb, ◌==◌,
  if◌then◌else◌,
}
use star_hlt_tofmtd.Prelude.Int.{ℤ, pos, pos_part, ◌+ℤ◌, ◌-ℤ◌, ltb_ℤ, div_trunc, mod_trunc}
use star_hlt_tofmtd.Mtd.Types.{RawHit, SingleHit}
pub mod Places
pub mod Gather
pub mod Distinct
pub mod Filed

pub data Side : Type 0 where
  leading trailing : Side

-- The strip that a raw hit belongs to: backleg 1-30, tray 1-5, channel 0-23.
pub record Place : Type 0 where
  pub backleg : ℕ
  pub tray : ℕ
  pub channel : ℕ

-- gtray - 1, the index into the array.
abbrev pub slot : Place → ℕ
slot p = (p.backleg - 1) * 5 + p.tray - 1

-- The checks at the head of both loops, over the numbers that they read; `none` is a hit that is
-- passed over.
unfoldable pub checked_place : ℕ → ℤ → ℤ → Option Place
checked_place b itray ichan =
    if b == 9
    then none
    else if ltb b 1
        || ltb 30 b
        || ltb_ℤ itray (pos 1)
        || ltb_ℤ (pos 5) itray
        || ltb_ℤ ichan (pos 0)
        || ltb_ℤ (pos 23) ichan
    then none
    else some (record { backleg = b; tray = pos_part itray; channel = pos_part ichan })

unfoldable pub place_of : RawHit → Option Place
place_of h =
    checked_place h.backleg (div_trunc (h.globaltdcchan -ℤ pos 1) 24 +ℤ pos 1)
      (mod_trunc (h.globaltdcchan -ℤ pos 1) 24)

abbrev pub same_strip : Place → SingleHit → Bool
same_strip p s = p.backleg == s.backleg && p.tray == s.tray && p.channel == s.channel

abbrev pub times : Side → SingleHit → List ℕ
times leading s = s.leading_edge_time
times trailing s = s.trailing_edge_time

abbrev pub push_time : Side → ℕ → SingleHit → SingleHit
push_time leading t s = record s { leading_edge_time = s.leading_edge_time ++ t ∷ [] }
push_time trailing t s = record s { trailing_edge_time = s.trailing_edge_time ++ t ∷ [] }

abbrev pub new_hit : Place → ℕ → SingleHit
new_hit p fiber = record {
  fiber_id = fiber;
  backleg = p.backleg;
  tray = p.tray;
  channel = p.channel;
  leading_edge_time = [];
  trailing_edge_time = [];
}

-- The search for the strip in its slot, and the push to the hit found or to a new one.
unfoldable pub add_time : Side → Place → ℕ → ℕ → List SingleHit → List SingleHit
add_time side p fiber t [] = push_time side t (new_hit p fiber) ∷ []
add_time side p fiber t (s ∷ ss) =
    if same_strip p s then push_time side t s ∷ ss else s ∷ add_time side p fiber t ss

abbrev pub Slots : Type 0
Slots = ℕ → List SingleHit

abbrev pub at : Slots → ℕ → List SingleHit → Slots
at f i v j = if i == j then v else f j

unfoldable pub add_at : Side → RawHit → Option Place → Slots → Slots
unfolding add_time
add_at side h none f = f
add_at side h (some p) f = at f (slot p) (add_time side p h.fiberid h.tdc (f (slot p)))

unfoldable pub fill_edges : Side → List RawHit → Slots → Slots
fill_edges side [] f = f
fill_edges side (h ∷ hs) f = fill_edges side hs (add_at side h (place_of h) f)

unfoldable pub fill_single_hits : List RawHit → List RawHit → Slots → Slots
unfolding fill_edges
fill_single_hits lead trail f = fill_edges trailing trail (fill_edges leading lead f)
