-- ===== src/Emc/Read/Crates.antt =====
-- The numbering of the crates in readFromDaqReader (L4_HLT/gl3EMC.cxx).
use star_hlt_tofmtd.Prelude.{ℕ, ◌≤◌, ◌<◌, ◌≡◌, arith}
use star_hlt_tofmtd.Emc.Read.{crate_of}

-- The 30 front ends have crates from 1 to 30, no two of them the same.
pub crate_of-injective :
    (i j : ℕ)
    → i < 30
    → j < 30
    → (1 ≤ crate_of i) × (crate_of i ≤ 30) × (crate_of i ≡ crate_of j → i ≡ j)
unfolding crate_of
crate_of-injective i j hi hj = (ground arith, ground arith, λ e. ground arith)
