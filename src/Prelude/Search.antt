-- ===== src/Prelude/Search.antt =====
-- The automation that proofs over several modules share.
use native.Mathlib.Omega.{arith}
use wasi.Prelude.Tests.{ltb→lt, leb→le, le→leb}

pub ruleset tests = (arith, ltb→lt, leb→le, le→leb)
