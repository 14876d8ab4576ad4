-- ===== src/Mtd/Hits.antt =====
-- mtd_hlt_reader::fillMtdHits, isMtdHitFiredTrigger and isHitInTrigWin of HLT_MTD/mtd_hlt_reader.cxx:
-- two single hits of a tray whose channels are 12 apart, the two ends of a strip, make a hit.
-- `none` is a read of `mTrigQTpos` outside the array, which the code does not check for.
use star_hlt_tofmtd.Prelude.{
  ℕ, zero, suc, ◌+◌, ◌-◌, ◌*◌, Bool, true, false, ◌&&◌, ◌||◌, List, [], ◌∷◌, ◌++◌, Option, none,
  some, ltb, ◌==◌, if◌then◌else◌, get_or,
}
use star_hlt_tofmtd.Prelude.Int.{ℤ, pos, negsuc, ◌==ℤ◌}
use star_hlt_tofmtd.Floats.{Arith, Floats}
use star_hlt_tofmtd.Mtd.Types.{SingleHit}
use star_hlt_tofmtd.Mtd.Config.{Config}
use star_hlt_tofmtd.Mtd.Singles.{Slots}
pub mod Strips
pub mod Bounds

infixl 5 ◌>>=◌
abbrev pub ◌>>=◌ {ℓ κ} : {A : Type ℓ} {B : Type κ} → Option A → (A → Option B) → Option B
none >>= f = none
some a >>= f = f a

-- What one part of a loop appends, and then another.
abbrev pub join {ℓ} : {A : Type ℓ} → Option (List A) → Option (List A) → Option (List A)
join a b = a >>= λ xs. b >>= λ ys. some (xs ++ ys)

-- mTrigQTpos: the two positions of each QT board that fired.
abbrev pub TrigPos : Type 0
TrigPos = ℕ → ℕ → ℤ

-- The lookup for a module at a place of the QT board `qt`.
unfoldable pub trig_match : TrigPos → ℤ → ℤ → Option Bool
trig_match trig place (pos (suc q)) =
    if ltb q 8 then some (place ==ℤ trig q 0 || place ==ℤ trig q 1) else none
trig_match trig place (pos zero) = none
trig_match trig place (negsuc q) = none

unfoldable pub is_mtd_hit_fired_trigger : Config → TrigPos → ℕ → ℕ → Option Bool
is_mtd_hit_fired_trigger c trig backleg module' =
    trig_match trig (c.module_to_qt_pos (backleg - 1) (module' - 1))
      (c.module_to_qt (backleg - 1) (module' - 1))

abbrev pub filled : List ℕ → Bool
filled [] = false
filled (t ∷ ts) = true

-- The single hit has a leading and a trailing edge.
abbrev pub complete : SingleHit → Bool
complete s = filled s.leading_edge_time && filled s.trailing_edge_time

-- fabs(jchan - kchan) == 12
abbrev pub twelve_apart : ℕ → ℕ → Bool
twelve_apart j k = j + 12 == k || k + 12 == j

module _ (fl : Floats) where
  open fl use {Double, Float, double, to_float}

  -- MtdHit.
  pub record MtdHit : Type 0 where
    pub fiber_id : ℕ
    pub backleg : ℕ
    pub tray : ℕ
    pub channel : ℕ
    pub leading_edge_time : Double × Double
    pub trailing_edge_time : Double × Double
    pub hlt_track_id : ℤ
    pub delta_z : Float
    pub delta_y : Float
    pub is_trigger : Bool

  -- time * MTD_VHRBIN2PS / 1e3
  unfoldable pub to_ns : ℕ → Double
  to_ns t =
      double.div (double.mul (double.of_int (pos t)) (double.decimal (pos 244140625) 7))
        (double.of_int (pos 1000))

  abbrev pub first : List ℕ → Double
  first ts = to_ns (get_or ts 0 0)

  -- isHitInTrigWin accepts every hit.
  unfoldable pub is_hit_in_trig_win : ℕ → ℕ → ℕ → Double → Bool
  is_hit_in_trig_win thub backleg tray hit_time = true

  -- The hit of the single hits j and k, whose lower channel is that of `low`.
  abbrev pair : SingleHit → SingleHit → SingleHit → Bool → MtdHit
  pair j low high fired = record {
    fiber_id = j.fiber_id;
    backleg = j.backleg;
    tray = j.tray;
    channel = low.channel;
    leading_edge_time = (first low.leading_edge_time, first high.leading_edge_time);
    trailing_edge_time = (first low.trailing_edge_time, first high.trailing_edge_time);
    hlt_track_id = negsuc 0;
    delta_z = to_float (double.of_int (negsuc 998));
    delta_y = to_float (double.of_int (negsuc 998));
    is_trigger = fired;
  }

  unfoldable pub make_hit : SingleHit → SingleHit → Bool → MtdHit
  make_hit j k fired = if ltb j.channel 12 then pair j j k fired else pair j k j fired

  -- 0.5 * (hit.leadingEdgeTime.first + hit.leadingEdgeTime.second)
  abbrev hit_time : MtdHit → Double
  hit_time h =
      double.mul (double.decimal (pos 5) 1) (double.add h.leading_edge_time.0 h.leading_edge_time.1)

  module _ (c : Config) (trig : TrigPos) where
    -- The body of the innermost loop for a pair that passed its tests.
    unfoldable pub pair_hits : SingleHit → SingleHit → Option (List MtdHit)
    pair_hits j k = is_mtd_hit_fired_trigger c trig j.backleg j.tray >>= λ fired.
        let hit = make_hit j k fired in
        if is_hit_in_trig_win hit.fiber_id hit.backleg hit.tray (hit_time hit)
        then some (hit ∷ [])
        else some []

    unfoldable pub with_partners : SingleHit → List SingleHit → Option (List MtdHit)
    with_partners j [] = some []
    with_partners j (k ∷ ks) =
        let rest = with_partners j ks in
        if twelve_apart j.channel k.channel && complete k then join (pair_hits j k) rest else rest

    unfoldable pub slot_hits : List SingleHit → Option (List MtdHit)
    slot_hits [] = some []
    slot_hits (j ∷ ks) =
        let rest = slot_hits ks in if complete j then join (with_partners j ks) rest else rest

    -- Slots i to i + left - 1, in order.
    unfoldable pub slots_hits : ℕ → ℕ → Slots → Option (List MtdHit)
    slots_hits zero i f = some []
    slots_hits (suc left) i f = join (slot_hits (f i)) (slots_hits left (i + 1) f)

    unfoldable pub fill_mtd_hits : Slots → Option (List MtdHit)
    fill_mtd_hits f = slots_hits 150 0 f
