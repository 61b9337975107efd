-- ===== src/Service/State.antt =====
-- The static variables of vTopGuestAgent/main.cpp, the handles and environment blocks that are open,
-- and the world.
use winservice.Base.{ℕ, Option, ok, Cmd}
use winservice.Service.Env.{Status}
pub use winservice.Base.{plus, minus, holding}

pub record Agent (W : Type 0) : Type 0 where
  pub status : Status
  pub h_status : Option ℕ
  pub exit_event : Option ℕ
  -- How many open handles have a number, and how many environment blocks an address.
  pub handles : ℕ → ℕ
  pub environments : ℕ → ℕ
  pub world : W

abbrev pub AgentCmd : Type 0 → Type 0 → Type 0
AgentCmd W A = Cmd (Agent W) A

module _ {W : Type 0} where
  -- A call that returns a handle, which is then open.
  abbrev pub opening : (W → Option ℕ × W) → AgentCmd W (Option ℕ)
  opening call s =
      let r = call s.world in ok r.0 (record s { handles = holding r.0 s.handles; world = r.1 })

  -- A call that closes a handle.
  abbrev pub closing : (ℕ → W → W) → ℕ → AgentCmd W (Unit {0})
  closing call h s = ok tt (record s { handles = minus h s.handles; world = call h s.world })

  -- A call that returns a value, and one that returns nothing.
  abbrev pub calling : {A : Type 0} → (W → A × W) → AgentCmd W A
  calling call s = let r = call s.world in ok r.0 (record s { world = r.1 })

  abbrev pub doing : (W → W) → AgentCmd W (Unit {0})
  doing call s = ok tt (record s { world = call s.world })
