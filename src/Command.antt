-- ===== src/Command.antt =====
-- The words and plans of src/mem_sandbox/command_executor/models.py, for the constrained language.
pub mod Tokens
pub mod Expansion
pub mod Grammar
pub mod Output
use mem_sandbox.Base.{Bool, Option, List}
use mem_sandbox.Strings.{Text}

-- A piece of a word, and whether variables in it are expanded.
pub record WordFragment : Type 0 where
  pub text : Text
  pub expands_environment : Bool

pub record CommandWord : Type 0 where
  pub fragments : List WordFragment

pub data Connector : Type 0 where
  always on_success : Connector

pub data RedirectionMode : Type 0 where
  replace_mode append_mode : RedirectionMode

pub record StdoutRedirection : Type 0 where
  pub mode : RedirectionMode
  pub destination : CommandWord

pub record CommandStage : Type 0 where
  pub words : List CommandWord

pub record PlanUnit : Type 0 where
  pub connector : Connector
  pub stages : List CommandStage
  pub redirection : Option StdoutRedirection

pub record ExecutionPlan : Type 0 where
  pub units : List PlanUnit
