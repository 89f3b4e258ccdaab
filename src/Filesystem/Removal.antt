-- ===== src/Filesystem/Removal.antt =====
-- VlFs_Remove of vellum/filesystem/fs.c.
use sscc_oslecture.Base.{
  ◌==◌, ==_false, Bool-cases, ℕ, ◌≡◌, refl, sym, ap, subst, ◌∙◌, ◌≢◌, ◌↔◌, ◌⊎◌, inl, inr, List, [],
  ◌∷◌, arith,
}
use sscc_oslecture.Filesystem.{Filesystem, unlink, remove}

-- An object is in the list.
abbrev pub IsListed : ℕ → List Filesystem → Type 0
IsListed address [] = ⊥
IsListed address (fs ∷ list) = (fs.address ≡ address) ⊎ IsListed address list

-- No object is in the list twice.
abbrev pub IsLinked : List Filesystem → Type 0
IsLinked [] = Unit
IsLinked (fs ∷ list) = (¬ IsListed fs.address list) × IsLinked list

module _ (current : Filesystem) (list : List Filesystem) (fs other : ℕ) where
  unlinked_here :
      current.address ≡ fs
      → ¬ IsListed current.address list
      → IsListed other list ↔ (((current.address ≡ other) ⊎ IsListed other list) × (other ≢ fs))
  unlinked_here here fresh = (to, from)
    where
      to : IsListed other list → ((current.address ≡ other) ⊎ IsListed other list) × (other ≢ fs)
      to h = (inr h, λ e. fresh (subst (λ a. IsListed a list) (e ∙ sym here) h))

      from : ((current.address ≡ other) ⊎ IsListed other list) × (other ≢ fs) → IsListed other list
      from (inl e, n) = elim (n (sym e ∙ here)) [ ]
      from (inr h, n) = h

  unlinked_later :
      current.address ≢ fs
      → IsListed other (unlink fs list) ↔ (IsListed other list × (other ≢ fs))
      → ((current.address ≡ other) ⊎ IsListed other (unlink fs list))
        ↔ (((current.address ≡ other) ⊎ IsListed other list) × (other ≢ fs))
  unlinked_later differ (later, earlier) = (to, from)
    where
      to :
          (current.address ≡ other) ⊎ IsListed other (unlink fs list)
          → ((current.address ≡ other) ⊎ IsListed other list) × (other ≢ fs)
      to (inl e) = (inl e, λ x. differ (e ∙ x))
      to (inr h) = let (l, n) = later h in (inr l, n)

      from :
          ((current.address ≡ other) ⊎ IsListed other list) × (other ≢ fs)
          → (current.address ≡ other) ⊎ IsListed other (unlink fs list)
      from (inl e, n) = inl e
      from (inr h, n) = inr (earlier (h, n))

unlink-IsListed :
    (fs other : ℕ) (list : List Filesystem)
    → IsLinked list
    → IsListed other (unlink fs list) ↔ (IsListed other list × (other ≢ fs))
unfolding unlink
unlink-IsListed fs other [] linked = (λ h. elim h [ ], λ (h, n). h)
unlink-IsListed fs other (current ∷ list) (fresh, linked) =
    elim (Bool-cases (current.address == fs)) [
      | inl e ↦ rw e (unlinked_here current list fs other (ground arith) fresh)
      | inr e ↦ rw e (
          unlinked_later current list fs other (ground arith)
            (unlink-IsListed fs other list linked))
    ]

-- VlFs_Remove of an object that is not the first one takes out that object and no other.
pub remove-IsListed :
    (fs other : ℕ) (head : Filesystem) (list : List Filesystem)
    → IsLinked (head ∷ list)
    → head.address ≢ fs
    → IsListed other (remove fs (head ∷ list)) ↔ (IsListed other (head ∷ list) × (other ≢ fs))
unfolding remove
remove-IsListed fs other head list (fresh, linked) differ =
    unlinked_later head list fs other differ (unlink-IsListed fs other list linked)

unlink-absent : (fs : ℕ) (list : List Filesystem) → ¬ IsListed fs list → unlink fs list ≡ list
unfolding unlink
unlink-absent fs [] absent = refl
unlink-absent fs (current ∷ list) absent =
    rw
      (
        ==_false current.address fs (λ e. absent (inl e)),
        unlink-absent fs list (λ h. absent (inr h)),
      )
      refl

-- VlFs_Remove never takes the first file system of the list out.
pub remove_first :
    (head : Filesystem) (list : List Filesystem)
    → IsLinked (head ∷ list)
    → remove head.address (head ∷ list) ≡ head ∷ list
unfolding remove
remove_first head list (fresh, linked) = ap (head ∷◌) (unlink-absent head.address list fresh)
