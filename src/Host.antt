-- ===== src/Host.antt =====
-- What winlift asks of the machine it runs on. `malloc` and `realloc` belong to the C library: a
-- host says of every request whether it is met. The site tells the calls of one run apart, so a host
-- may refuse any of them.
use silver_nimbus_otter.Prelude.{Bool, true, ℕ}

pub data AllocSite : Type 0 where
  at_file : AllocSite
  at_sections : AllocSite
  -- growing the array of DLLs at this count, and the functions of the DLL with this number
  at_imports : ℕ → AllocSite
  at_funcs : ℕ → ℕ → AllocSite
  at_relocs : AllocSite
  at_image_copy : AllocSite
  at_shim_copy : AllocSite

-- Whether a request for so many bytes is met.
abbrev pub Alloc : Type 0
Alloc = AllocSite → ℕ → Bool

-- A host that meets every request.
abbrev pub roomy : Alloc
roomy site n = true
