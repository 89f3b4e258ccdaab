-- ===== src/Libc/Memory/Tests.antt =====
-- The theorem on memmove at a memory whose bytes are their addresses.
use sscc_oslecture.Base.{ℕ, ◌≡◌, arith}
use sscc_oslecture.Libc.Memory.{memmove}
use sscc_oslecture.Libc.Memory.Move.{memmove_lem}

abbrev m : ℕ → ℕ
m i = i

memmove_lem_example : memmove m 5 4 3 6 ≡ 5
memmove_lem_example = memmove_lem m 5 4 3 6 (omega arith, omega arith) (omega arith)
