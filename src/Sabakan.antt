-- ===== src/Sabakan.antt =====
-- sabakan/query.go: what sabakan, the registry of machines, tells about them.
pub mod Repairer
use cke.Prelude.{ℕ, String, Bool, List}

pub data State : Type 0 where
  uninitialized healthy unhealthy unreachable updating retiring retired : State

-- The fields of a machine that repairs read. Its duration in the state is a float64, of which only
-- the comparison with a number of seconds is read.
pub record Machine : Type 0 where
  pub serial : String
  pub ipv4 : List String
  pub bmc_type : String
  pub state : State
  pub duration_below : ℕ → Bool
