-- ===== src/Filesystem/Names.antt =====
-- The names of the mounted file systems: VlFs_Find and VlFs_Create of vellum/filesystem/fs.c.
use sscc_oslecture.Base.{
  Bool-cases, length, take, ℕ, ◌≤◌, ◌≡◌, refl, sym, ap, ◌∙◌, ◌≢◌, ◌⊎◌, inl, inr, true, false,
  Option, none, some, List, [], ◌∷◌, ◌++◌, arith,
}
use sscc_oslecture.Status.{Status, Result, ok, err}
use sscc_oslecture.Base.Int.{ℤ, pos, negsuc}
use sscc_oslecture.Libc.Strings.{strncmp}
use sscc_oslecture.Libc.Strings.Compare.{IsString, strncmp-take, take_all}
use sscc_oslecture.Filesystem.{Filesystem, is_zero, find, create_at, create}

-- A name that its buffer of 64 bytes holds with a 0.
abbrev pub IsName : List ℕ → Type 0
IsName name = IsString name × (length name ≤ 63)

-- A file system of the list has the name.
abbrev pub IsUsed : List ℕ → List Filesystem → Type 0
IsUsed name [] = ⊥
IsUsed name (fs ∷ list) = (fs.name ≡ name) ⊎ IsUsed name list

-- No two file systems have the same name.
abbrev pub IsNamed : List Filesystem → Type 0
IsNamed [] = Unit
IsNamed (fs ∷ list) = IsName fs.name × (¬ IsUsed fs.name list) × IsNamed list

is_zero→≡ : (n : ℤ) → is_zero n ≡ true → n ≡ pos 0
is_zero→≡ (pos n) h = ap pos (ground arith)
is_zero→≡ (negsuc n) h = ground arith

names_agree : (p q : List ℕ) → IsName p → IsName q → is_zero (strncmp p q 64) ≡ true → p ≡ q
names_agree p q (sp, lp) (sq, lq) h =
    let (to, from) = strncmp-take p q 64 sp sq (omega arith) in
    sym (take_all p 64 (omega arith))
    ∙ to (is_zero→≡ (strncmp p q 64) h)
    ∙ take_all q 64 (omega arith)

names_differ : (p q : List ℕ) → IsName p → IsName q → is_zero (strncmp p q 64) ≡ false → p ≢ q
names_differ p q (sp, lp) (sq, lq) h e =
    let (to, from) = strncmp-take p q 64 sp sq (omega arith) in
    ground (arith, ap is_zero (from (ap (take 64) e)))

-- What VlFs_Find is to yield.
abbrev pub IsFound : List ℕ → List Filesystem → Result Filesystem → Type 0
IsFound name list (ok fs) = (fs.name ≡ name) × IsUsed name list
IsFound name list (err e) = (e ≡ Status.entry_not_found) × (¬ IsUsed name list)

IsFound-later :
    (name : List ℕ) (fs : Filesystem) (list : List Filesystem) (r : Result Filesystem)
    → fs.name ≢ name
    → IsFound name list r
    → IsFound name (fs ∷ list) r
IsFound-later name fs list (ok found) differ (same, used) = (same, inr used)
IsFound-later name fs list (err e) differ (missing, unused) = (missing, go)
  where
    go : ¬ IsUsed name (fs ∷ list)
    go (inl same) = differ same
    go (inr used) = unused used

-- VlFs_Find yields a file system of the name, or STATUS_ENTRY_NOT_FOUND when none has it, for a name of at
-- most 63 bytes.
pub find-IsFound :
    (name : List ℕ) (list : List Filesystem)
    → IsName name
    → IsNamed list
    → IsFound name list (find name list)
unfolding find
find-IsFound name [] hn named = (refl, λ h. h)
find-IsFound name (fs ∷ list) hn (hf, fresh, named) =
    elim (Bool-cases (is_zero (strncmp fs.name name 64))) [
      | inl e ↦ rw e (let same = names_agree fs.name name hf hn e in (same, inl same))
      | inr e ↦ rw e (
          IsFound-later name fs list (find name list) (names_differ fs.name name hf hn e)
            (find-IsFound name list hn named))
    ]

IsUsed-append :
    (name : List ℕ) (fs : Filesystem) (list : List Filesystem)
    → IsUsed name (list ++ (fs ∷ []))
    → (fs.name ≡ name) ⊎ IsUsed name list
IsUsed-append name fs [] h = h
IsUsed-append name fs (x ∷ list) (inl e) = inr (inl e)
IsUsed-append name fs (x ∷ list) (inr h) = elim (IsUsed-append name fs list h) [
  | inl e ↦ inl e
  | inr u ↦ inr (inr u)
]

IsNamed-append :
    (fs : Filesystem) (list : List Filesystem)
    → IsName fs.name
    → ¬ IsUsed fs.name list
    → IsNamed list
    → IsNamed (list ++ (fs ∷ []))
IsNamed-append fs [] hf fresh named = (hf, λ h. h, _)
IsNamed-append fs (x ∷ list) hf fresh (hx, fresh_x, named) =
    (hx, go, IsNamed-append fs list hf (λ u. fresh (inr u)) named)
  where
    go : ¬ IsUsed x.name (list ++ (fs ∷ []))
    go u = elim (IsUsed-append x.name fs list u) [ inl e ↦ fresh (inl (sym e)) | inr h ↦ fresh_x h ]

-- What VlFs_Create is to do.
abbrev pub IsCreated :
    Option ℕ → List ℕ → List Filesystem → Result Filesystem × List Filesystem → Type 0
IsCreated memory name list (ok fs, after) =
    (¬ IsUsed name list)
    × (fs.name ≡ name)
    × (memory ≡ some fs.address)
    × (after ≡ list ++ (fs ∷ []))
    × IsNamed after
IsCreated memory name list (err e, after) =
    (after ≡ list)
    × (((e ≡ Status.duplicate_entry) × IsUsed name list)
        ⊎ ((e ≡ Status.unknown_error) × (memory ≡ none)))

create_found :
    (memory : Option ℕ) (drv dev : ℕ) (name : List ℕ) (list : List Filesystem)
    → IsName name
    → IsNamed list
    → (r : Result Filesystem) → IsFound name list r
    → IsCreated memory name list (elim r [
      | ok conflicting ↦ (err Status.duplicate_entry, list)
      | err e ↦ elim memory [
        | none ↦ (err Status.unknown_error, list)
        | some address ↦ create_at address drv dev name list
      ]
    ])
unfolding create_at
create_found memory drv dev name list hn named (ok fs) (same, used) = (refl, inl (refl, used))
create_found none drv dev name list hn named (err e) (missing, unused) = (refl, inr (refl, refl))
create_found (some address) drv dev name list hn named (err e) (missing, unused) =
    let fs : Filesystem = record { address = address; driver = drv; dev = dev; name = name } in
    rw (take_all name 63 (hn.1)) (unused, refl, refl, refl, IsNamed-append fs list hn unused named)

-- VlFs_Create appends a file system of the name when no other has it and there is memory, which keeps all
-- names different. Else it changes nothing and tells which of the two failed. The name has at most 63 bytes.
pub create-IsCreated :
    (memory : Option ℕ) (drv dev : ℕ) (name : List ℕ) (list : List Filesystem)
    → IsName name
    → IsNamed list
    → IsCreated memory name list (create memory drv dev name list)
unfolding create
create-IsCreated memory drv dev name list hn named =
    create_found memory drv dev name list hn named (find name list)
      (find-IsFound name list hn named)
