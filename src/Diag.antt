-- ===== src/Diag.antt =====
-- src/diag.rs: diagnostics and the functions that build them.
pub mod Source
use jwc_lang.Prelude.{Bytes, Option, none, some, String}
use jwc_lang.Token.{Span}

pub data Severity : Type 0 where
  error_level warning_level : Severity

pub record Diagnostic : Type 0 where
  pub severity : Severity
  pub code : String
  pub message : Bytes
  pub span : Span
  pub note : Option Bytes
  pub clause : Option String
  pub fix : Option Bytes

abbrev pub error : String → Span → Bytes → Diagnostic
error code span message = record {
  severity = error_level;
  code = code;
  message = message;
  span = span;
  note = none;
  clause = none;
  fix = none;
}

abbrev pub warning : String → Span → Bytes → Diagnostic
warning code span message = record {
  severity = warning_level;
  code = code;
  message = message;
  span = span;
  note = none;
  clause = none;
  fix = none;
}

abbrev pub with_note : Bytes → Diagnostic → Diagnostic
with_note note d = record d { note = some note }

abbrev pub with_clause : String → Diagnostic → Diagnostic
with_clause clause d = record d { clause = some clause }

abbrev pub with_fix : Bytes → Diagnostic → Diagnostic
with_fix replacement d = record d { fix = some replacement }
