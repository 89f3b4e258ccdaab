-- ===== src/Paths/Joined.antt =====
-- What VlPath_Join of vellum/core/path.c leaves in memory.
use sscc_oslecture.Base.{
  ltb, ◌==◌, if◌then◌else◌, Bool-cases, length, get_or, update, ℕ, zero, suc, ◌+◌, ◌-◌, ◌≤◌, min,
  ◌≡◌, sym, ap, ◌∙◌, inl, inr, ◌&&◌, List, [], ◌∷◌, arith,
}
use sscc_oslecture.Paths.{join_loop, join}
use sscc_oslecture.Libc.Strings.{strnlen}
use sscc_oslecture.Libc.Strings.Search.{strnlen_lem}

-- The bytes of `text` from `at` on, then a 0 where the room is larger, and the old bytes elsewhere.
abbrev pub written : (ℕ → ℕ) → ℕ → ℕ → List ℕ → ℕ → ℕ
written m at room text j =
    if ltb j at
    then m j
    else if ltb (j - at) (min (length text) room)
    then get_or text (j - at) 0
    else if ltb (j - at) room && j - at == length text
    then 0
    else m j

written-next :
    (m : ℕ → ℕ) (at room c : ℕ) (text : List ℕ) (j : ℕ)
    → written (update m at c) (suc at) room text j ≡ written m at (suc room) (c ∷ text) j
written-next m at room c text j = elim (Bool-cases (ltb at j)) [
  | inl e ↦ let index : j - at ≡ suc (j - suc at) = ground arith in rw index (ground arith)
  | inr e ↦ elim (Bool-cases (j == at)) [
    | inl here ↦ let index : j - at ≡ 0 = ground arith in rw index (ground arith)
    | inr away ↦ ground arith
  ]
]

join_loop-eq :
    (src : List ℕ) (m : ℕ → ℕ) (cur left j : ℕ)
    → join_loop m cur left src j ≡ written m cur left src j
unfolding join_loop
join_loop-eq src m cur zero j = ground arith
join_loop-eq [] m cur (suc left) j = ground arith
join_loop-eq (c ∷ src) m cur (suc left) j =
    join_loop-eq src (update m cur c) (suc cur) left j ∙ written-next m cur left c src j

-- VlPath_Join appends a slash and the second path as far as the buffer holds them, with a 0 behind them if
-- there is room, and changes no byte before them nor outside the buffer.
pub join-written :
    (m : ℕ → ℕ) (dest : ℕ) (text : List ℕ) (len : ℕ) (src : List ℕ) (j : ℕ)
    → length text ≤ len
    → join m dest text len src j ≡ written m (dest + length text) (len - length text) (47 ∷ src) j
unfolding join
join-written m dest text len src j fits =
    let slen : strnlen text len ≡ length text = strnlen_lem text len ∙ omega arith in
    rw slen (elim (Bool-cases (ltb (length text) len)) [
      | inl room ↦ rw room (
          let more : len - length text ≡ suc (len - length text - 1) = ground arith in
          let next : dest + length text + 1 ≡ suc (dest + length text) = omega arith in
          join_loop-eq src (update m (dest + length text) 47) (dest + length text + 1)
            (len - length text - 1) j
          ∙ ap (λ at. written (update m (dest + length text) 47) at (len - length text - 1) src j)
              next
          ∙ written-next m (dest + length text) (len - length text - 1) 47 src j
          ∙ ap (λ room. written m (dest + length text) room (47 ∷ src) j) (sym more))
      | inr full ↦ rw full (ground arith)
    ])
