-- ===== src/Mtd/Singles/Gather.antt =====
-- Which times end up in which single hit.
use mathlib.Core.List.{append-nil, append_assoc}
use star_hlt_tofmtd.Prelude.{
  ℕ, ◌≡◌, ap, ◌∙◌, Bool, true, false, ◌&&◌, List, [], ◌∷◌, ◌++◌, Option, none, some, inl, inr,
  arith, ◌==◌, if◌then◌else◌, keep, map, Bool-cases,
}
use star_hlt_tofmtd.Mtd.Types.{RawHit, SingleHit}
use star_hlt_tofmtd.Mtd.Singles.{
  Side, leading, trailing, Place, slot, place_of, same_strip, times, add_time, Slots, add_at,
  fill_edges, fill_single_hits,
}

-- The times of one side of a strip in a slot: those of the first single hit of that strip.
unfoldable pub times_in : Side → Place → List SingleHit → List ℕ
times_in side p [] = []
times_in side p (s ∷ ss) = if same_strip p s then times side s else times_in side p ss

-- The same for the whole array.
unfoldable pub times_of : Side → Place → Slots → List ℕ
unfolding times_in
times_of side p f = times_in side p (f (slot p))

abbrev pub same_place : Place → Place → Bool
same_place p q = p.backleg == q.backleg && p.tray == q.tray && p.channel == q.channel

abbrev pub same_side : Side → Side → Bool
same_side leading leading = true
same_side trailing trailing = true
same_side _ _ = false

-- The raw hits that belong to a strip.
abbrev pub belongs : Place → Option Place → Bool
belongs p none = false
belongs p (some q) = same_place p q

abbrev pub times_at : Place → List RawHit → List ℕ
times_at p hs = map (λ h. h.tdc) (keep (λ h. belongs p (place_of h)) hs)

times_in-add_time :
    (side side' : Side) (p q : Place) (fiber t : ℕ) (ss : List SingleHit)
    → times_in side p (add_time side' q fiber t ss)
      ≡ times_in side p ss ++ (if same_side side side' && same_place p q then t ∷ [] else [])
unfolding times_in add_time
times_in-add_time leading leading p q fiber t [] = ground arith
times_in-add_time leading trailing p q fiber t [] = ground arith
times_in-add_time trailing leading p q fiber t [] = ground arith
times_in-add_time trailing trailing p q fiber t [] = ground arith
times_in-add_time leading leading p q fiber t (s ∷ ss) = ground (
  arith,
  times_in-add_time leading leading p q fiber t ss,
  append-nil (times_in leading p ss),
  append-nil s.leading_edge_time,
)
times_in-add_time leading trailing p q fiber t (s ∷ ss) = ground (
  arith,
  times_in-add_time leading trailing p q fiber t ss,
  append-nil (times_in leading p ss),
  append-nil s.leading_edge_time,
)
times_in-add_time trailing leading p q fiber t (s ∷ ss) = ground (
  arith,
  times_in-add_time trailing leading p q fiber t ss,
  append-nil (times_in trailing p ss),
  append-nil s.trailing_edge_time,
)
times_in-add_time trailing trailing p q fiber t (s ∷ ss) = ground (
  arith,
  times_in-add_time trailing trailing p q fiber t ss,
  append-nil (times_in trailing p ss),
  append-nil s.trailing_edge_time,
)

same_place-slot : (p q : Place) → same_place p q ≡ true → slot p ≡ slot q
same_place-slot p q e = ground arith

-- What one raw hit adds to the times of a strip.
abbrev added : Side → Side → Place → RawHit → Option Place → List ℕ
added side side' p h o = if same_side side side' && belongs p o then h.tdc ∷ [] else []

times_of-add_at :
    (side side' : Side) (p : Place) (h : RawHit) (o : Option Place) (f : Slots)
    → times_of side p (add_at side' h o f) ≡ times_of side p f ++ added side side' p h o
unfolding times_of add_at
times_of-add_at side side' p h none f = ground (arith, append-nil (times_in side p (f (slot p))))
times_of-add_at side side' p h (some q) f = elim (Bool-cases (slot q == slot p)) [
  | inl same ↦
      let e : slot q ≡ slot p = ground arith in
      rw (same, e) (times_in-add_time side side' p q h.fiberid h.tdc (f (slot p)))
  | inr other ↦
      let apart : same_place p q ≡ false = ground (arith, same_place-slot p q) in
      rw (other, apart) (ground (arith, append-nil (times_in side p (f (slot p)))))
]

-- What a list of raw hits adds.
abbrev gathered : Side → Side → Place → List RawHit → List ℕ
gathered side side' p hs = if same_side side side' then times_at p hs else []

times_of-fill_edges :
    (side side' : Side) (p : Place) (hs : List RawHit) (f : Slots)
    → times_of side p (fill_edges side' hs f) ≡ times_of side p f ++ gathered side side' p hs
unfolding fill_edges
times_of-fill_edges side side' p [] f = ground (arith, append-nil (times_of side p f))
times_of-fill_edges side side' p (h ∷ hs) f =
    times_of-fill_edges side side' p hs (add_at side' h (place_of h) f)
    ∙ ap (λ (l : List ℕ). l ++ gathered side side' p hs)
        (times_of-add_at side side' p h (place_of h) f)
    ∙ append_assoc (times_of side p f) (added side side' p h (place_of h))
        (gathered side side' p hs)
    ∙ ap (λ (l : List ℕ). times_of side p f ++ l) (ground arith)

-- After fillMtdSingleHits the leading times of a strip are those that it had, then the times of the
-- leading hits that belong to it, in order, and likewise for the trailing times. A hit belongs to no
-- strip if it fails the checks, and no strip gets the time of another.
pub times_of-fill_single_hits :
    (p : Place) (lead trail : List RawHit) (f : Slots)
    → (times_of leading p (fill_single_hits lead trail f) ≡ times_of leading p f ++ times_at p lead)
      × (times_of trailing p (fill_single_hits lead trail f)
          ≡ times_of trailing p f ++ times_at p trail)
unfolding fill_single_hits
times_of-fill_single_hits p lead trail f =
    let after = fill_edges leading lead f in
    (
      times_of-fill_edges leading trailing p trail after
          ∙ append-nil (times_of leading p after)
          ∙ times_of-fill_edges leading leading p lead f,
      times_of-fill_edges trailing trailing p trail after
          ∙ ap (λ (l : List ℕ). l ++ times_at p trail)
              (times_of-fill_edges trailing leading p lead f ∙ append-nil (times_of trailing p f)),
    )
