-- ===== src/Decider/Settled/Words.antt =====
-- The word of each trigger after its loops: 0 or the trigger's bit. So the bodies of the decisions are
-- quiet.
use star_hlt_tofmtd.Prelude.{
  ℕ, ◌≡◌, refl, ◌⊎◌, inl, inr, Bool, true, false, List, Bool-cases, ◌&&◌, length,
}
use star_hlt_tofmtd.Prelude.Int.{pos, ltb_ℤ}
use star_hlt_tofmtd.Floats.{Floats}
use star_hlt_tofmtd.Decider.Types.{Trigger, Event, Parts, Node, Track}
use star_hlt_tofmtd.Decider.Cuts.{Cuts, trigger_bit}
use star_hlt_tofmtd.Decider.State.{Decider, MuonPair, set_word, update}
use star_hlt_tofmtd.Decider.Simple.{fire_if, low_mult_body}
use star_hlt_tofmtd.Decider.Loops.Kept.{scan-keeps, for_pairs-keeps}
use star_hlt_tofmtd.Decider.Tracks.{
  Found, found, passes_high_pt, high_pt_node, high_pt_body, heavy_fragment_node,
  heavy_fragment_body, passes_fragment, triton_step, he3_step,
}
use star_hlt_tofmtd.Mtd.Hits.{MtdHit}
use star_hlt_tofmtd.Decider.Loops.{scan, for_pairs}
use star_hlt_tofmtd.Decider.Muons.{try_muons, is_quarkonium, quarkonium_body, muon_list}
use star_hlt_tofmtd.Decider.Settled.{Quiet, update_self}

-- The word of what a loop found.
abbrev pub IsWord : {A : Type 0} → ℕ → Found A → Type 0
IsWord bit f = (f.word ≡ 0) ⊎ (f.word ≡ bit)

-- Storing such a word.
pub stored_word :
    (t : Trigger) (bit : ℕ) (g : Trigger → ℕ) (w : ℕ)
    → (w ≡ 0) ⊎ (w ≡ bit)
    → (update g t w t ≡ 0) ⊎ (update g t w t ≡ bit)
stored_word t bit g w h = rw (update_self t g w) h

module _ {A S : Type 0} (bit : ℕ) where
  pub scan-IsWord :
      (body : ℕ → A → Found S → A × Found S) (xs : List A) (f : Found S)
      → ((k : ℕ) (x : A) (r : Found S) → IsWord bit r → IsWord bit (body k x r).1)
      → f.word ≡ 0
      → IsWord bit (scan body 0 xs f).1
  scan-IsWord body xs f keeps zero_word =
      scan-keeps {P = IsWord bit} body 0 xs f keeps (inl zero_word)

  pub for_pairs-IsWord :
      (body : A → A → Found S → Found S) (xs : List A) (f : Found S)
      → ((a b : A) (r : Found S) → IsWord bit r → IsWord bit (body a b r))
      → f.word ≡ 0
      → IsWord bit (for_pairs body xs f)
  for_pairs-IsWord body xs f keeps zero_word =
      for_pairs-keeps {P = IsWord bit} body xs f keeps (inl zero_word)

module _ (fl : Floats) (cuts : Cuts fl) where
  pub fire_if-Quiet :
      (t : Trigger) (condition : Bool) (s : Decider fl)
      → s.triggered t ≡ 0
      → Quiet fl cuts t s (fire_if fl cuts t condition s)
  unfolding fire_if set_word
  fire_if-Quiet t true s none_set = record {
    same_decision = refl;
    same_called = refl;
    same_succeed = refl;
    word = inr (update_self t s.triggered (trigger_bit fl cuts t));
  }
  fire_if-Quiet t false s none_set = record {
    same_decision = refl;
    same_called = refl;
    same_succeed = refl;
    word = inl none_set;
  }

module _ (fl : Floats) (parts : Parts fl) (cuts : Cuts fl) (ev : Event fl) where
  high_pt_node-IsWord :
      (k : ℕ) (n : Node fl) (f : Found ℕ)
      → IsWord (trigger_bit fl cuts Trigger.high_pt) f
      → IsWord (trigger_bit fl cuts Trigger.high_pt) (high_pt_node fl parts cuts ev k n f).1
  unfolding high_pt_node found
  high_pt_node-IsWord k n f w = elim (Bool-cases (passes_high_pt fl parts cuts ev n)) [
    | inl e ↦ rw e (inr refl)
    | inr e ↦ rw e w
  ]

  pub high_pt_body-Quiet :
      (s : Decider fl) → Quiet fl cuts Trigger.high_pt s (high_pt_body fl parts cuts ev s)
  unfolding high_pt_body set_word
  high_pt_body-Quiet s =
      let start : Found ℕ = record { word = 0; bank = s.hlt_hi_pt } in
      let body = high_pt_node fl parts cuts ev in
      let f = (scan body 0 s.nodes start).1 in
      record {
        same_decision = refl;
        same_called = refl;
        same_succeed = refl;
        word =
            stored_word Trigger.high_pt (trigger_bit fl cuts Trigger.high_pt) s.triggered f.word (
              scan-IsWord (trigger_bit fl cuts Trigger.high_pt) body s.nodes start
                high_pt_node-IsWord refl);
      }

  heavy_fragment_node-IsWord :
      (k : ℕ) (n : Node fl) (f : Found ℕ)
      → IsWord (trigger_bit fl cuts Trigger.heavy_fragment) f
      → IsWord
          (trigger_bit fl cuts Trigger.heavy_fragment)
          (heavy_fragment_node fl parts cuts ev k n f).1
  unfolding heavy_fragment_node found
  heavy_fragment_node-IsWord k n f w = elim (Bool-cases (passes_fragment fl parts cuts ev n)) [
    | inr e ↦ rw e w
    | inl e ↦ elim (Bool-cases (triton_step fl parts cuts ev (he3_step fl parts cuts ev n)).0) [
      | inl hit ↦ rw (e, hit) (inr refl)
      | inr hit ↦ rw (e, hit) w
    ]
  ]

  pub heavy_fragment_body-Quiet :
      (s : Decider fl)
      → Quiet fl cuts Trigger.heavy_fragment s (heavy_fragment_body fl parts cuts ev s)
  unfolding heavy_fragment_body set_word
  heavy_fragment_body-Quiet s =
      let start : Found ℕ = record { word = 0; bank = s.hlt_h_f } in
      let body = heavy_fragment_node fl parts cuts ev in
      let f = (scan body 0 s.nodes start).1 in
      record {
        same_decision = refl;
        same_called = refl;
        same_succeed = refl;
        word =
            stored_word Trigger.heavy_fragment (trigger_bit fl cuts Trigger.heavy_fragment)
              s.triggered f.word
              (scan-IsWord (trigger_bit fl cuts Trigger.heavy_fragment) body s.nodes start
                heavy_fragment_node-IsWord refl);
      }

  pub low_mult_body-Quiet :
      (s : Decider fl)
      → s.triggered Trigger.low_mult ≡ 0
      → Quiet fl cuts Trigger.low_mult s (low_mult_body fl parts cuts ev s)
  unfolding low_mult_body set_word
  low_mult_body-Quiet s none_set =
      let n_tracks = pos (length s.nodes) in
      elim (Bool-cases (ltb_ℤ cuts.n_tracks_low n_tracks && ltb_ℤ n_tracks cuts.n_tracks_high)) [
        | inl e ↦ rw e record {
          same_decision = refl;
          same_called = refl;
          same_succeed = refl;
          word =
              inr (update_self Trigger.low_mult s.triggered (trigger_bit fl cuts Trigger.low_mult));
        }
        | inr e ↦ rw e record {
          same_decision = refl;
          same_called = refl;
          same_succeed = refl;
          word = inl none_set;
        }
      ]

  try_muons-IsWord :
      (a b : ℕ × Track fl) (f : Found (MuonPair fl))
      → IsWord (trigger_bit fl cuts Trigger.mtd_quarkonium) f
      → IsWord (trigger_bit fl cuts Trigger.mtd_quarkonium) (try_muons fl parts cuts ev a b f)
  unfolding try_muons found
  try_muons-IsWord a b f w = elim (Bool-cases (is_quarkonium fl parts cuts ev a.1 b.1)) [
    | inl e ↦ rw e (inr refl)
    | inr e ↦ rw e w
  ]

  pub quarkonium_body-Quiet :
      (hits : List (MtdHit fl)) (s : Decider fl)
      → Quiet fl cuts Trigger.mtd_quarkonium s (quarkonium_body fl parts cuts ev hits s)
  unfolding quarkonium_body set_word
  quarkonium_body-Quiet hits s =
      let start : Found (MuonPair fl) = record { word = 0; bank = s.hlt_mtd_qkn } in
      let body = try_muons fl parts cuts ev in
      let muons = muon_list fl parts cuts ev s.nodes hits in
      let f = for_pairs body muons start in
      record {
        same_decision = refl;
        same_called = refl;
        same_succeed = refl;
        word =
            stored_word Trigger.mtd_quarkonium (trigger_bit fl cuts Trigger.mtd_quarkonium)
              s.triggered f.word
              (for_pairs-IsWord (trigger_bit fl cuts Trigger.mtd_quarkonium) body muons start
                try_muons-IsWord refl);
      }
