-- ===== src/Mtd/Rdo/Decode.antt =====
-- Writing TDC words and reading them back by read_rdo_event.
use star_hlt_tofmtd.Prelude.{
  ℕ, ◌+◌, ◌-◌, ◌*◌, ◌/◌, ◌%◌, ◌^◌, ◌≤◌, ◌<◌, ◌≡◌, refl, ap, ◌∙◌, ◌⊎◌, inl, inr, Bool, true, false,
  List, [], ◌∷◌, ◌++◌, map, arith, some, none, ◌==◌, if◌then◌else◌, All, keep,
}
use mathlib.Core.List.{append-nil, append_assoc}
use star_hlt_tofmtd.Prelude.Bits.{field}
use star_hlt_tofmtd.Mtd.Types.{RawHit, Geo, Scan}
use star_hlt_tofmtd.Mtd.Rdo.{
  tray_of, tdig_of, global_strip, raw_hit, read_tdc, read_word, read_words, read_rdo_event,
}
use star_hlt_tofmtd.Prelude.Int.{pos}
use mathlib.Core.Bool.{◌||◌}

-- What a TDC word carries: the edge (4 leading, 5 trailing), the chip, its channel and the time.
pub record Edge : Type 0 where
  pub edge : ℕ
  pub tdcid : ℕ
  pub tdcchan : ℕ
  pub time : ℕ

pub record IsEdge (e : Edge) : Type 0 where
  pub edge_in : (e.edge ≡ 4) ⊎ (e.edge ≡ 5)
  pub tdcid_lt : e.tdcid < 16
  pub tdcchan_lt : e.tdcchan < 8
  pub time_lt : e.time < 2 ^ 21

unfoldable pub tdc_word : Edge → ℕ
tdc_word e =
    e.edge * 2 ^ 28 + e.tdcid * 2 ^ 24 + e.tdcchan * 2 ^ 21 + e.time % 4 * 2 ^ 19 + e.time / 4

unfoldable pub geo_word : Geo → ℕ
geo_word g = 0xc * 2 ^ 28 + g.backleg * 2 + g.half

-- The hit that an edge on a half backleg should give.
unfoldable pub hit_of : ℕ → Geo → Edge → RawHit
hit_of rdo g e =
    let t = tdig_of e.tdcid g.half in
    record {
      tdc = e.time;
      fiberid = rdo - 1;
      backleg = g.backleg;
      globaltdcchan = global_strip (tray_of g.backleg t) t e.tdcid e.tdcchan;
    }

record Fields (e : Edge) : Type 0 where
  tag : field (tdc_word e) 28 4 ≡ e.edge
  chip : field (tdc_word e) 24 4 ≡ e.tdcid
  chan : field (tdc_word e) 21 3 ≡ e.tdcchan
  bin : tdc_word e % 2 ^ 19 * 4 + field (tdc_word e) 19 2 ≡ e.time

tdc_word-Fields : (e : Edge) → IsEdge e → Fields e
unfolding tdc_word
tdc_word-Fields e v = omega arith

raw_hit-tdc_word :
    (rdo : ℕ) (g : Geo) (e : Edge) → IsEdge e → raw_hit rdo g (tdc_word e) ≡ hit_of rdo g e
unfolding raw_hit hit_of
raw_hit-tdc_word rdo g e v = let f = tdc_word-Fields e v in rw (f.chip, f.chan, f.bin)

abbrev pub is_leading : Edge → Bool
is_leading e = e.edge == 4

abbrev pub is_trailing : Edge → Bool
is_trailing e = e.edge == 5

-- A scan that has seen a geographical word of a backleg in use.
abbrev pub On : Geo → Scan → Type 0
On g s = (s.geo ≡ some g) × (1 ≤ g.backleg) × (g.backleg ≤ 30)

-- The scan with one more hit of either kind.
abbrev push : Scan → Edge → RawHit → Scan
push s e h =
    if is_leading e
    then record s { leading = s.leading ++ h ∷ [] }
    else record s { trailing = s.trailing ++ h ∷ [] }

read_tdc-tdc_word :
    (rdo : ℕ) (g : Geo) (s : Scan) (e : Edge)
    → 1 ≤ g.backleg
    → g.backleg ≤ 30
    → IsEdge e
    → read_tdc rdo s (some g) (tdc_word e) ≡ push s e (hit_of rdo g e)
unfolding read_tdc
read_tdc-tdc_word rdo g s e low high v =
    let f = tdc_word-Fields e v in rw (raw_hit-tdc_word rdo g e v, f.tag) (ground arith)

read_word-tdc_word :
    (rdo : ℕ) (g : Geo) (s : Scan) (e : Edge)
    → On g s
    → IsEdge e
    → read_word rdo s (tdc_word e) ≡ push s e (hit_of rdo g e)
unfolding read_word
read_word-tdc_word rdo g s e (on, low, high) v =
    let f = tdc_word-Fields e v in
    rw (on, f.tag) (ground (arith, read_tdc-tdc_word rdo g s e low high v))

-- Reading the words of a list of edges appends their hits in order, leading and trailing apart, and
-- leaves the rest of the scan alone.
read_words-tdc_word :
    (rdo : ℕ) (g : Geo) (es : List Edge) (s : Scan)
    → On g s
    → All IsEdge es
    → read_words rdo s (map tdc_word es) ≡ record s {
      leading = s.leading ++ map (hit_of rdo g) (keep is_leading es);
      trailing = s.trailing ++ map (hit_of rdo g) (keep is_trailing es);
    }
unfolding read_words
read_words-tdc_word rdo g [] s on v = simp append-nil
read_words-tdc_word rdo g (e ∷ es) s on (v, vs) =
    let go = λ (k : Scan). read_words rdo k (map tdc_word es) in
    elim v.edge_in [
      | inl p ↦
          let l : is_leading e ≡ true = ground arith in
          let t : is_trailing e ≡ false = ground arith in
          let next : Scan = record s { leading = s.leading ++ hit_of rdo g e ∷ [] } in
          let one : push s e (hit_of rdo g e) ≡ next = rw l in
          rw (l, t)
            (ap go (read_word-tdc_word rdo g s e on v ∙ one)
              ∙ read_words-tdc_word rdo g es next on vs
              ∙ simp append_assoc)
      | inr p ↦
          let l : is_leading e ≡ false = ground arith in
          let t : is_trailing e ≡ true = ground arith in
          let next : Scan = record s { trailing = s.trailing ++ hit_of rdo g e ∷ [] } in
          let one : push s e (hit_of rdo g e) ≡ next = rw l in
          rw (l, t)
            (ap go (read_word-tdc_word rdo g s e on v ∙ one)
              ∙ read_words-tdc_word rdo g es next on vs
              ∙ simp append_assoc)
    ]

record GeoFields (g : Geo) : Type 0 where
  tag : field (geo_word g) 28 4 ≡ 0xc
  half_bit : geo_word g % 2 ≡ g.half
  backleg_bits : field (geo_word g) 1 7 ≡ g.backleg

geo_word-GeoFields : (g : Geo) → g.half < 2 → g.backleg < 128 → GeoFields g
unfolding geo_word
geo_word-GeoFields g h b = omega arith

read_word-geo_word :
    (rdo : ℕ) (g : Geo) (s : Scan)
    → g.half < 2
    → g.backleg < 128
    → read_word rdo s (geo_word g) ≡ record s { geo = some g }
unfolding read_word
read_word-geo_word rdo g s h b =
    let f = geo_word-GeoFields g h b in rw (f.tag, f.half_bit, f.backleg_bits) refl

-- For RDO 1 and 2, reading a geographical word of a backleg from 1 to 30 and then the words of any
-- edges returns 0, appends the hit of each leading edge to the leading hits and of each trailing edge
-- to the trailing hits, in order, and leaves the trigger times alone.
pub read_rdo_event-tdc_word :
    (rdo : ℕ) (g : Geo) (es : List Edge) (s : Scan)
    → (rdo ≡ 1) ⊎ (rdo ≡ 2)
    → g.half < 2
    → 1 ≤ g.backleg
    → g.backleg ≤ 30
    → All IsEdge es
    → read_rdo_event rdo (geo_word g ∷ map tdc_word es) s ≡ (
      pos 0,
      record {
        geo = some g;
        trigger_time = s.trigger_time;
        leading = s.leading ++ map (hit_of rdo g) (keep is_leading es);
        trailing = s.trailing ++ map (hit_of rdo g) (keep is_trailing es);
      },
    )
unfolding read_rdo_event read_words
read_rdo_event-tdc_word rdo g es s r h low high v =
    let known : (rdo == 1 || rdo == 2) ≡ true = ground arith in
    let begun : Scan = record s { geo = none } in
    rw known (
      ap (λ (t : Scan). (pos 0, t))
        (ap (λ (k : Scan). read_words rdo k (map tdc_word es))
            (read_word-geo_word rdo g begun h (omega arith))
          ∙ read_words-tdc_word rdo g es (record s { geo = some g }) (refl, low, high) v))
