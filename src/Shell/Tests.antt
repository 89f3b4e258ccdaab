-- ===== src/Shell/Tests.antt =====
-- The theorems on lines at "ls" and "ls x".
use sscc_oslecture.Shell.Variables.{
  Variable, get_variable, store_variable, set_variable, get_variable-set,
}
use sscc_oslecture.Status.{ok}
use sscc_oslecture.Libc.Strings.{strlen, strncmp}
use sscc_oslecture.Base.{ℕ, ◌≡◌, refl, true, List, [], ◌∷◌, ◌++◌, arith}
use sscc_oslecture.Shell.{parse_word}
use sscc_oslecture.Shell.Complete.{IsComplete, parse_word-IsComplete}

abbrev ls : List ℕ
ls = 108 ∷ 115 ∷ []

abbrev no_number : List ℕ → ℕ → ℕ × List ℕ
no_number line base = (0, line)

parse_word-IsComplete_example : IsComplete (parse_word no_number 4 16 (92 ∷ 110 ∷ 34 ∷ []))
parse_word-IsComplete_example =
    parse_word-IsComplete no_number (λ line base. omega arith) 4 16 (92 ∷ 110 ∷ 34 ∷ [])
      (omega arith)

-- "PATH" before "PATHS"
abbrev path : List ℕ
path = 80 ∷ 65 ∷ 84 ∷ 72 ∷ []

abbrev variables : List Variable
variables = record { key = path; value = 47 ∷ [] } ∷ []

get_variable-set_example :
    let o = set_variable true 120 [] path (48 ∷ []) variables in
    (o.0 ≡ ok tt) × (get_variable path (o.1) ≡ ok (48 ∷ 120 ∷ []))
get_variable-set_example =
    get_variable-set 120 [] path (48 ∷ []) variables (ground arith) (omega arith)

-- A variable whose name begins with that of another takes its place.
shared_prefix :
    store_variable 0 [] (path ++ (83 ∷ [])) (48 ∷ []) variables
    ≡ record { key = path ++ (83 ∷ []); value = 48 ∷ [] } ∷ []
unfolding store_variable strncmp strlen
shared_prefix = refl
