-- ===== src/Daemon/Engine.antt =====
-- The engine as the daemon sees it: crates/vs-engine-webkit/src/engine.rs and the calls of
-- runtime.rs. A browser engine is not in the sources: it is a parameter, whose answer to a call
-- may depend on every call that was made before.
use vibesurfer.Prelude.{ℕ, List, Option}
use vibesurfer.Text.{Text}
use vibesurfer.Protocol.Tree.Nodes.{Forest}
use vibesurfer.Daemon.Error.{EngineError}
use vibesurfer.Daemon.Fallible.{Outcome}

abbrev pub PageHandle : Type 0
PageHandle = ℕ

pub data InputMode : Type 0 where
  human careful robotic : InputMode

pub data Action : Type 0 where
  click scroll submit hover focus : Action
  fill : Text → Action
  key : Text → Action

pub data WaitCondition : Type 0 where
  stable net_idle token_change : WaitCondition
  ref_appears ref_gone : ℕ → WaitCondition
  text : Text → WaitCondition

pub data ConsoleLevel : Type 0 where
  log info warn error debug : ConsoleLevel

pub record ConsoleEntry : Type 0 where
  pub timestamp : ℕ
  pub level : ConsoleLevel
  pub message : Text
  pub stack : Option Text

-- The calls of `EngineRuntime` that the modelled operations make.
pub data EngineCall : Type 0 where
  opens : Text → EngineCall
  navigates : PageHandle → Text → EngineCall
  closes snapshots views : PageHandle → EngineCall
  acts : PageHandle → ℕ → Action → InputMode → EngineCall
  waits : PageHandle → WaitCondition → ℕ → EngineCall

-- What is answered to a call after the calls of the list, the last of them first.
pub record Engine : Type 0 where
  pub on_open : List EngineCall → Text → Outcome EngineError PageHandle
  pub on_navigate : List EngineCall → PageHandle → Text → Outcome EngineError (Unit {0})
  pub on_close : List EngineCall → PageHandle → Outcome EngineError (Unit {0})
  pub on_snapshot : List EngineCall → PageHandle → Outcome EngineError Forest
  pub on_view : List EngineCall → PageHandle → Outcome EngineError (Forest × List ConsoleEntry)
  pub on_act : List EngineCall → PageHandle → ℕ → Action → InputMode → Outcome EngineError Forest
  -- How long the last call of the list takes.
  pub takes : List EngineCall → ℕ
  pub on_wait : List EngineCall → PageHandle → WaitCondition → ℕ → Outcome EngineError (Unit {0})
