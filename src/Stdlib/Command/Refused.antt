-- ===== src/Stdlib/Command/Refused.antt =====
-- What is parsed after a command whose parsing stopped for want of memory.
use vana.Prelude.{ℕ, false, Option, List, [], ◌∷◌}
use vana.PathParser
use vana.PathParser.{Allocs}
use vana.Stdlib.Command.{Shell}

-- A process that gets no memory for its next allocation.
abbrev pub refused_at : ℕ → Option (List ℕ) → Shell
refused_at n sp = record { allocs = record { answers = false ∷ []; live = n }; sp = sp }
