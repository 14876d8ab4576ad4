-- ===== src/Decider/Match.antt =====
-- A node matched to the other detectors: gl3TOF::matchPrimaryTracks (L4_HLT/gl3TOF.cxx), the loop for
-- the best tower of L4_HLT/gl3TriggerDecider.cxx, and the measures of a track: nSigmaDedx
-- (L4_HLT/gl3Track.cxx) and the momentum.
use star_hlt_tofmtd.Prelude.{ℕ, ◌||◌, List, [], ◌∷◌, none, some, if◌then◌else◌}
use star_hlt_tofmtd.Prelude.Int.{pos, negsuc, ◌==ℤ◌}
use star_hlt_tofmtd.Floats.{Floats}
use star_hlt_tofmtd.Decider.Types.{Particle, Track, Tower, Node, Coordinate, Parts}
pub mod Best

module _ (fl : Floats) (parts : Parts fl) where
  open fl use {Double, Float, double, float, to_float, to_double}

  abbrev whole : ℕ → Double
  whole n = double.of_int (pos n)

  -- track->pt * sqrt(1. + pow(track->tanl, 2))
  unfoldable pub momentum : Track fl → Double
  momentum t = double.mul t.pt (parts.sqrt (double.add (whole 1) (parts.pow t.tanl 2)))

  -- nSigmaDedx
  unfoldable pub n_sigma_dedx : Track fl → Particle → Double → Double
  n_sigma_dedx t particle sigma1 =
      let dedx_bischel = parts.dedx_mean (momentum t) particle in
      let zero_d = whole 0 in
      if double.eq dedx_bischel zero_d
        || double.eq sigma1 zero_d
        || double.eq t.dedx zero_d
        || t.n_dedx ==ℤ pos 0
      then double.of_int (negsuc 998)
      else double.mul (double.div (parts.log (double.div t.dedx dedx_bischel)) sigma1)
          (parts.sqrt (double.of_int t.n_dedx))

  -- c_light, a float
  abbrev c_light : Float
  c_light = float.decimal (pos 299792458) 7

  -- matchPrimaryTracks: it moves the primary track to the vertex, and where the track hits a cell of
  -- the TOF it gives the node that cell, the time and the velocity.
  unfoldable pub match_primary_tracks : Coordinate fl → Node fl → Node fl
  match_primary_tracks vertex n = elim n.primary_track [
    | none ↦ n
    | some t ↦
        let moved =
          parts.update_to_closest_approach (to_float vertex.getx) (to_float vertex.gety) t in
        let at_vertex : Node fl = record n { primary_track = some moved } in
        elim (parts.proj_tray_module_cell moved) [
          | none ↦ at_vertex
          | some hit ↦
              let time =
                double.sub (double.sub (to_double hit.cell_tof) hit.corr_z) (to_double parts.t0) in
              record at_vertex {
                primarytof_cell = some hit.cell;
                tof = time;
                beta = double.div (double.div hit.path_length time) (to_double c_light);
                tof_local_y = to_double hit.local_y;
                tof_local_z = to_double hit.local_z;
                tof_project_channel = hit.channel;
                pathlength = hit.path_length;
              }
        ]
  ]

  -- if(!node->primarytofCell && node->primaryTrack) matchPrimaryTracks(…)
  unfoldable pub with_tof : Coordinate fl → Node fl → Node fl
  with_tof vertex n = elim n.primarytof_cell [
    | some c ↦ n
    | none ↦ elim n.primary_track [ none ↦ n | some t ↦ match_primary_tracks vertex n ]
  ]

  -- One tower of the loop: matchTowerEnergy and the node's match. matchTrack's cuts have their default
  -- values.
  unfoldable pub try_tower : Track fl → ℕ × Tower fl → Double × Node fl → Double × Node fl
  try_tower t (j, tower) (best, n) =
      elim (parts.match_track tower t (double.decimal (pos 7) 2) (whole 2)) [
        | none ↦ (best, n)
        | some (phi_diff, z_edge) ↦
            let energy = to_double tower.energy in
            if double.lt energy best then (best, n) else (
              energy,
              record n {
                emc_tower = some j;
                emc_match_phi_diff = phi_diff;
                emc_match_z_edge = z_edge;
              },
            )
      ]

  -- for(int j = 0; j < nTowers; j++)
  unfoldable pub try_towers : Track fl → List (ℕ × Tower fl) → Double × Node fl → Double × Node fl
  try_towers t [] s = s
  try_towers t (tw ∷ tws) s = try_towers t tws (try_tower t tw s)

  -- matchTowerEnergy at the end of the loop, and the node.
  unfoldable pub best_tower : Track fl → List (ℕ × Tower fl) → Node fl → Double × Node fl
  best_tower t tws n = try_towers t tws (whole 0, n)
