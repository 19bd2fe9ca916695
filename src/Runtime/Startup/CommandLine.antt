-- ===== src/Runtime/Startup/CommandLine.antt =====
-- The command line in memory, of shim_startup_init in runtime/shim_startup.c.
use silver_nimbus_otter.Prelude.{
  List, [], if◌then◌else◌, length, ltb, ok, ℕ, ◌++◌, ◌+◌, ◌<◌, ◌∷◌, ◌≡◌, ◌⊎◌,
}
use silver_nimbus_otter.Runtime.Heap.{heap_alloc}
use silver_nimbus_otter.Runtime.{Kernel, Machine}
use silver_nimbus_otter.Runtime.Startup.{heap_alloc, total_length, Machine}
use silver_nimbus_otter.Runtime.Memory.{bytes_from}

-- The arguments from index `i` on, with their spaces, and the NUL.
abbrev spaced : ℕ → List (List ℕ) → List ℕ
spaced i [] = 0 ∷ []
spaced i (s ∷ args) = (if ltb 0 i then b' ' ∷ s else s) ++ spaced (i + 1) args

-- The arguments with a space between each two.
unfoldable pub joined : List (List ℕ) → List ℕ
joined [] = []
joined (s ∷ []) = s
joined (s ∷ t ∷ args) = s ++ (b' ' ∷ joined (t ∷ args))

-- There is no memory for the line and its NUL, and then no command line; or it is the text with its
-- NUL, in memory.
abbrev pub CommandLine : Kernel → Machine → Machine → Type 0
CommandLine k m m' =
    ((r : ℕ × Machine) × (heap_alloc k (1 + total_length m.argv) m ≡ ok r)
      × (r.0 ≡ 0)
      × (m'.cmdline ≡ 0))
    ⊎ ((0 < m'.cmdline)
        × (bytes_from m'.bytes m'.cmdline (length (joined m.argv) + 1) ≡ joined m.argv ++ (0 ∷ [])))
