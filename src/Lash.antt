-- ===== src/Lash.antt =====
-- The shell lash, user/lash: its parser (src/lib.rs), the execution of a chain of commands, the search
-- for a command and the line editor. Strings are lists of bytes.
pub mod Tokens
pub mod Segments
pub mod System
pub mod Paths
pub mod Commands
pub mod Builtins
pub mod Shell
pub mod Editor
use lazers.Base.{ℕ}

pub data ParseError : Type 0 where
  unmatched_single_quote unmatched_double_quote trailing_backslash invalid_syntax : ParseError
  resource_unavailable : ParseError

pub data SegmentOperator : Type 0 where
  and or sequence : SegmentOperator

pub data ParseState : Type 0 where
  unquoted single_quoted double_quoted : ParseState

abbrev pub line_capacity : ℕ
line_capacity = 256

abbrev pub max_command_args : ℕ
max_command_args = 16

abbrev pub max_chain_segments : ℕ
max_chain_segments = 32
