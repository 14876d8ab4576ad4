-- ===== src/Decider/Match/Best.antt =====
-- The tower that the loop for the best one ends with.
use star_hlt_tofmtd.Prelude.{
  ℕ, suc, ◌≡◌, refl, ap, ◌∙◌, ◌⊎◌, inl, inr, true, false, List, [], ◌∷◌, Option, none, some,
  get_elem?, All, Bool-cases, Option-cases,
}
use star_hlt_tofmtd.Prelude.Int.{pos}
use star_hlt_tofmtd.Floats.{Floats}
use star_hlt_tofmtd.Decider.Types.{Track, Tower, Node, Parts}
use star_hlt_tofmtd.Decider.Match.{try_tower, try_towers, best_tower}

module _ (fl : Floats) (IsNumber : fl.Double → Type 0) where
  open fl use {Double, double}

  -- The comparison orders the numbers: it does so for doubles other than NaN.
  pub record IsOrder : Type 0 where
    pub irreflexive : (a : Double) → IsNumber a → double.lt a a ≡ false
    pub asymmetric :
        (a b : Double) → IsNumber a → IsNumber b → double.lt a b ≡ true → double.lt b a ≡ false
    pub descending :
        (a b c : Double)
        → IsNumber a
        → IsNumber b
        → IsNumber c
        → double.lt a b ≡ false
        → double.lt b c ≡ false
        → double.lt a c ≡ false

module _ (fl : Floats) (parts : Parts fl) where
  open fl use {Double, double, to_double}

  -- The tower matches the track.
  abbrev pub match_of : Track fl → Tower fl → Option (Double × Double)
  match_of t tw = parts.match_track tw t (double.decimal (pos 7) 2) (double.of_int (pos 2))

  -- The node with the tower and its match.
  abbrev pub with_tower : ℕ → Double → Double → Node fl → Node fl
  with_tower j phi_diff z_edge n = record n {
    emc_tower = some j;
    emc_match_phi_diff = phi_diff;
    emc_match_z_edge = z_edge;
  }

  -- The result has the energy of a tower of the list that matches, and its node that tower and match.
  pub record IsChosen (t : Track fl) (tws : List (ℕ × Tower fl)) (n : Node fl)
      (r : Double × Node fl) : Type 0 where
    pub place : ℕ
    pub sn : ℕ
    pub tower : Tower fl
    pub phi_diff : Double
    pub z_edge : Double
    pub listed : get_elem? tws place ≡ some (sn, tower)
    pub matches : match_of t tower ≡ some (phi_diff, z_edge)
    pub result : r ≡ (to_double tower.energy, with_tower sn phi_diff z_edge n)

  -- An energy is not below that of a tower that matches.
  abbrev pub NotBelow : Double → Option (Double × Double) → Double → Type 0
  NotBelow best none e = Unit {0}
  NotBelow best (some m) e = double.lt best e ≡ false

  -- One step keeps the state or takes the tower.
  try_tower-cases :
      (t : Track fl) (j : ℕ) (tw : Tower fl) (s : Double × Node fl)
      → (try_tower fl parts t (j, tw) s ≡ s)
        ⊎ ((m : Double × Double) × (match_of t tw ≡ some m)
            × (try_tower fl parts t (j, tw) s ≡ (to_double tw.energy, with_tower j m.0 m.1 s.1)))
  unfolding try_tower
  try_tower-cases t j tw (best, n) = elim (Option-cases (match_of t tw)) [
    | inl e ↦ inl (rw (e, try_tower) refl)
    | inr ((phi, z), e) ↦ elim (Bool-cases (double.lt (to_double tw.energy) best)) [
      | inl below ↦ inl (rw (e, try_tower, below) refl)
      | inr above ↦ inr ((phi, z), e, rw (e, try_tower, above) refl)
    ]
  ]

  -- What was chosen from the rest of the list was chosen from the list.
  later :
      (t : Track fl) (x : ℕ × Tower fl) (tws : List (ℕ × Tower fl)) (n m : Node fl)
      (r : Double × Node fl)
      → ((j : ℕ) (a b : Double) → with_tower j a b m ≡ with_tower j a b n)
      → IsChosen t tws m r
      → IsChosen t (x ∷ tws) n r
  later t x tws n m r same c = record {
    place = suc c.place;
    sn = c.sn;
    tower = c.tower;
    phi_diff = c.phi_diff;
    z_edge = c.z_edge;
    listed = c.listed;
    matches = c.matches;
    result =
        c.result
        ∙ ap (λ (k : Node fl). (to_double c.tower.energy, k)) (same c.sn c.phi_diff c.z_edge);
  }

  try_towers-IsChosen :
      (t : Track fl) (tws : List (ℕ × Tower fl)) (s : Double × Node fl)
      → (try_towers fl parts t tws s ≡ s) ⊎ IsChosen t tws s.1 (try_towers fl parts t tws s)
  unfolding try_towers
  try_towers-IsChosen t [] s = inl refl
  try_towers-IsChosen t ((j, tw) ∷ tws) s =
      let rest = try_towers-IsChosen t tws in
      elim (try_tower-cases t j tw s) [
        | inl same ↦ rw same (elim (rest s) [
          | inl e ↦ inl e
          | inr c ↦ inr (later t (j, tw) tws s.1 s.1 _ (λ i a b. refl) c)
        ])
        | inr (m, e, took) ↦
            let n = with_tower j m.0 m.1 s.1 in
            rw took (elim (rest (to_double tw.energy, n)) [
              | inl last ↦ inr record {
                place = 0;
                sn = j;
                tower = tw;
                phi_diff = m.0;
                z_edge = m.1;
                listed = refl;
                matches = e;
                result = last;
              }
              | inr c ↦ inr (later t (j, tw) tws s.1 n _ (λ i a b. refl) c)
            ])
      ]

  module _ (IsNumber : Double → Type 0) (order : IsOrder fl IsNumber) where
    abbrev pub Energies : List (ℕ × Tower fl) → Type 0
    Energies tws = All (λ x. IsNumber (to_double x.1.energy)) tws

    -- One step does not lower the energy, and leaves it at least that of a tower that matches.
    try_tower-NotBelow :
        (t : Track fl) (j : ℕ) (tw : Tower fl) (s : Double × Node fl)
        → IsNumber s.0
        → IsNumber (to_double tw.energy)
        → let next = try_tower fl parts t (j, tw) s in
          IsNumber next.0
          × (double.lt next.0 s.0 ≡ false)
          × NotBelow next.0 (match_of t tw) (to_double tw.energy)
    unfolding try_tower
    try_tower-NotBelow t j tw (best, n) p q = elim (Option-cases (match_of t tw)) [
      | inl e ↦ rw (e, try_tower) (p, order.irreflexive best p, tt)
      | inr (m, e) ↦ elim (Bool-cases (double.lt (to_double tw.energy) best)) [
        | inl below ↦
            rw (e, try_tower, below)
              (p, order.irreflexive best p, order.asymmetric (to_double tw.energy) best q p below)
        | inr above ↦ rw (e, try_tower, above) (q, above, order.irreflexive (to_double tw.energy) q)
      ]
    ]

    lower :
        (r a e : Double) (o : Option (Double × Double))
        → IsNumber r
        → IsNumber a
        → IsNumber e
        → double.lt r a ≡ false
        → NotBelow a o e
        → NotBelow r o e
    lower r a e none p q u h b = tt
    lower r a e (some m) p q u h b = order.descending r a e p q u h b

    try_towers-NotBelow :
        (t : Track fl) (tws : List (ℕ × Tower fl)) (s : Double × Node fl)
        → IsNumber s.0
        → Energies tws
        → let r = try_towers fl parts t tws s in
          IsNumber r.0
          × (double.lt r.0 s.0 ≡ false)
          × All (λ x. NotBelow r.0 (match_of t x.1) (to_double x.1.energy)) tws
    unfolding try_towers
    try_towers-NotBelow t [] s p es = (p, order.irreflexive s.0 p, tt)
    try_towers-NotBelow t ((j, tw) ∷ tws) s p (q, es) =
        let next = try_tower fl parts t (j, tw) s in
        let (number, up, here) = try_tower-NotBelow t j tw s p q in
        let (last, down, all) = try_towers-NotBelow t tws next number es in
        let r = try_towers fl parts t tws next in
        (
          last,
          order.descending r.0 next.0 s.0 last number p down up,
          (lower r.0 next.0 (to_double tw.energy) (match_of t tw) last number q down here, all),
        )

    -- Where the comparison orders the energies and 0, the loop leaves 0 and the node, or it ends with the
    -- energy of a tower that matches the track and the node with that tower; and in both cases no tower
    -- that matches has more energy than it ends with.
    pub best_tower-best :
        (t : Track fl) (tws : List (ℕ × Tower fl)) (n : Node fl)
        → IsNumber (double.of_int (pos 0))
        → Energies tws
        → let r = best_tower fl parts t tws n in
          ((r ≡ (double.of_int (pos 0), n)) ⊎ IsChosen t tws n r)
          × All (λ x. NotBelow r.0 (match_of t x.1) (to_double x.1.energy)) tws
    unfolding best_tower
    best_tower-best t tws n p es =
        let s : Double × Node fl = (double.of_int (pos 0), n) in
        let (_, _, all) = try_towers-NotBelow t tws s p es in (try_towers-IsChosen t tws s, all)
