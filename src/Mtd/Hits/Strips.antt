-- ===== src/Mtd/Hits/Strips.antt =====
-- Which strips fillMtdHits makes hits of.
use star_hlt_tofmtd.Prelude.{
  ℕ, ◌+◌, ◌<◌, ◌≡◌, refl, ◌∙◌, Bool, true, false, ◌&&◌, ◌||◌, List, [], ◌∷◌, ◌++◌, Option, none,
  some, arith, ltb, ◌==◌, if◌then◌else◌, All, Bool-cases, inl, inr, ◌⊎◌,
}
use star_hlt_tofmtd.Floats.{Floats}
use star_hlt_tofmtd.Mtd.Types.{SingleHit}
use star_hlt_tofmtd.Mtd.Config.{Config}
use star_hlt_tofmtd.Mtd.Hits.{
  ◌>>=◌, join, TrigPos, is_mtd_hit_fired_trigger, is_hit_in_trig_win, MtdHit, complete,
  twelve_apart, make_hit, pair_hits, with_partners, slot_hits,
}

-- Some single hit of channel c has edges on both sides.
abbrev pub fired_strip : ℕ → List SingleHit → Bool
fired_strip c [] = false
fired_strip c (s ∷ ss) = s.channel == c && complete s || fired_strip c ss

abbrev In : SingleHit → List SingleHit → Type 0
In s [] = ⊥
In s (x ∷ xs) = (s ≡ x) ⊎ In s xs

module _ (fl : Floats) where
  abbrev pub has_channel : ℕ → List (MtdHit fl) → Bool
  has_channel c [] = false
  has_channel c (h ∷ hs) = h.channel == c || has_channel c hs

  has_channel-append :
      (c : ℕ) (xs ys : List (MtdHit fl))
      → has_channel c (xs ++ ys) ≡ (has_channel c xs || has_channel c ys)
  has_channel-append c [] ys = refl
  has_channel-append c (x ∷ xs) ys = ground (arith, has_channel-append c xs ys)

  -- A joint result, taken apart.
  join-some :
      (a b : Option (List (MtdHit fl))) (hs : List (MtdHit fl))
      → join a b ≡ some hs
      → (xs : List (MtdHit fl)) × (ys : List (MtdHit fl)) × (a ≡ some xs)
        × (b ≡ some ys)
        × (hs ≡ xs ++ ys)
  join-some none b hs e = cc
  join-some (some xs) none hs e = cc
  join-some (some xs) (some ys) hs e = (xs, ys, refl, refl, ground arith)

  module _ (c : Config) (trig : TrigPos) where
    pair_hits-some :
        (j k : SingleHit) (hs : List (MtdHit fl))
        → pair_hits fl c trig j k ≡ some hs
        → (fired : Bool) × (hs ≡ make_hit fl j k fired ∷ [])
    unfolding pair_hits is_hit_in_trig_win
    pair_hits-some j k hs e = after (is_mtd_hit_fired_trigger c trig j.backleg j.tray) e
      where
        after :
            (m : Option Bool)
            → (m >>= λ fired. some (make_hit fl j k fired ∷ [])) ≡ some hs
            → (fired : Bool) × (hs ≡ make_hit fl j k fired ∷ [])
        after none e = cc
        after (some fired) e = (fired, ground arith)

    channel-make_hit :
        (j k : SingleHit) (fired : Bool)
        → (make_hit fl j k fired).channel ≡ (if ltb j.channel 12 then j.channel else k.channel)
    unfolding make_hit
    channel-make_hit j k fired = ground arith

    -- Whether the pair is a hit of strip n.
    pair_channel :
        (n j k : ℕ) (full rest rest' : Bool)
        → n < 12
        → j < 24
        → k < 24
        → (twelve_apart j k && full) ≡ true
        → ((if ltb j 12 then j else k) == n || (j == n && rest || j == n + 12 && rest'))
          ≡ (j == n && (k == n + 12 && full || rest) || j == n + 12 && (k == n && full || rest'))
    pair_channel n j k full rest rest' h hj hk e = ground arith

    other_channel :
        (n j k : ℕ) (full rest rest' : Bool)
        → n < 12
        → (twelve_apart j k && full) ≡ false
        → (j == n && rest || j == n + 12 && rest')
          ≡ (j == n && (k == n + 12 && full || rest) || j == n + 12 && (k == n && full || rest'))
    other_channel n j k full rest rest' h e = ground arith

    -- The hits of j and a partner behind it.
    has_channel-with_partners :
        (n : ℕ) (j : SingleHit) (ks : List SingleHit) (hs : List (MtdHit fl))
        → n < 12
        → j.channel < 24
        → All (λ k. k.channel < 24) ks
        → with_partners fl c trig j ks ≡ some hs
        → has_channel n hs
          ≡ (j.channel == n && fired_strip (n + 12) ks || j.channel == n + 12 && fired_strip n ks)
    unfolding with_partners
    has_channel-with_partners n j [] hs h hj hk e =
        let empty : hs ≡ [] = ground arith in rw empty (ground arith)
    has_channel-with_partners n j (k ∷ ks) hs h hj (hk, hks) e =
        elim (Bool-cases (twelve_apart j.channel k.channel && complete k)) [
          | inl t ↦
              let (xs, ys, ex, ey, eq) =
                join-some (pair_hits fl c trig j k) (with_partners fl c trig j ks) hs (rw t at e) in
              let (fired, one) = pair_hits-some j k xs ex in
              let ih = has_channel-with_partners n j ks ys h hj hks ey in
              rw (eq, one, ih, channel-make_hit j k fired)
                (pair_channel n j.channel k.channel (complete k) (fired_strip (n + 12) ks)
                  (fired_strip n ks) h hj hk t)
          | inr t ↦
              has_channel-with_partners n j ks hs h hj hks (rw t at e)
              ∙ other_channel n j.channel k.channel (complete k) (fired_strip (n + 12) ks)
                  (fired_strip n ks) h t
        ]

    split_first :
        (n j : ℕ) (full a b : Bool)
        → n < 12
        → ((j == n && b || j == n + 12 && a) && full || a && b)
          ≡ ((j == n && full || a) && (j == n + 12 && full || b))
    split_first n j full a b h = ground arith

    -- If the loop over a slot of single hits with channels below 24 returns its hits, then for n
    -- below 12 there is a hit of channel n exactly when both ends of the strip, n and n + 12, have
    -- edges on both sides.
    pub has_channel-slot_hits :
        (n : ℕ) (ss : List SingleHit) (hs : List (MtdHit fl))
        → n < 12
        → All (λ s. s.channel < 24) ss
        → slot_hits fl c trig ss ≡ some hs
        → has_channel n hs ≡ (fired_strip n ss && fired_strip (n + 12) ss)
    unfolding slot_hits
    has_channel-slot_hits n [] hs h hk e = let empty : hs ≡ [] = ground arith in rw empty
    has_channel-slot_hits n (j ∷ ks) hs h (hj, hks) e = elim (Bool-cases (complete j)) [
      | inl t ↦
          let (xs, ys, ex, ey, eq) =
            join-some (with_partners fl c trig j ks) (slot_hits fl c trig ks) hs (rw t at e) in
          let one = has_channel-with_partners n j ks xs h hj hks ex in
          let ih = has_channel-slot_hits n ks ys h hks ey in
          rw eq (
            has_channel-append n xs ys
            ∙ rw (one, ih)
                (ground (
                  arith,
                  t,
                  split_first n j.channel (complete j) (fired_strip n ks) (fired_strip (n + 12) ks)
                      h,
                )))
      | inr t ↦
          let ih = has_channel-slot_hits n ks hs h hks (rw t at e) in
          rw ih (
            ground (
              arith,
              t,
              split_first n j.channel (complete j) (fired_strip n ks) (fired_strip (n + 12) ks) h,
            ))
    ]
