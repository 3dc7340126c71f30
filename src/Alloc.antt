-- ===== src/Alloc.antt =====
-- Allocations (ALLOC, ALLOC_N and make_ref of the C code) may fail. A list says of each coming one
-- whether it succeeds; behind its end all do.
use fbsd_netcf.Prelude.{Bool, true, List, [], ◌∷◌}

-- Whether the next allocation succeeds, and what is left to say of those behind it.
abbrev pub alloc : List Bool → Bool × List Bool
alloc [] = (true, [])
alloc (b ∷ bs) = (b, bs)
