-- ===== src/Controller/Invariant.antt =====
-- What the controller keeps of the registry.
use webx_engine.Common.{ℕ, List}
use webx_engine.Common.Floats.{Floats}
use webx_engine.Instruction.{Instruction}
use webx_engine.Instruction
use webx_engine.Client.{Client}
use webx_engine.Registry.Invariant.{IsRegistry}
use webx_engine.Controller.{Display, ControllerSettings, Controller}

module _ (fl : Floats) (dp : Display fl) (crc32 : List ℕ → ℕ) (settings : ControllerSettings) where
  abbrev Keeps : Controller fl dp → Type 0
  Keeps s = IsRegistry fl s.registry
