-- ===== src/Proc/Exit/Matching.antt =====
-- Which status `get_status` (dispatch/process.c) finds.
use telos.Prelude.{
  ℕ, none, some, true, false, List, [], ◌∷◌, ◌++◌, ◌≡◌, refl, ap, ◌⊎◌, inl, inr, All, Bool-cases,
}
use telos.Proc.{ProcStatus}
use telos.Proc.Exit.{get_status, status_matches}

-- None of the statuses is asked for and none is found, or the first one that is asked for is found
-- and taken out of the list; the others stay in their order.
pub get_status_first :
    (idtype id options : ℕ) (ss : List ProcStatus)
    → let asked = status_matches idtype id options in
      ((get_status idtype id options ss ≡ none) × All (λ s. asked s ≡ false) ss)
      ⊎ ((front back : List ProcStatus) × (s : ProcStatus) × (ss ≡ front ++ s ∷ back)
          × All (λ t. asked t ≡ false) front
          × (asked s ≡ true)
          × (get_status idtype id options ss ≡ some (s, front ++ back)))
unfolding get_status
get_status_first idtype id options [] = inl (refl, tt)
get_status_first idtype id options (s ∷ ss) =
    elim (Bool-cases (status_matches idtype id options s)) [
      | inl hit ↦ inr ([], ss, s, refl, tt, hit, rw (hit, get_status) refl)
      | inr miss ↦ elim (get_status_first idtype id options ss) [
        | inl (e, all) ↦ inl (rw (miss, get_status) (rw e refl), (miss, all))
        | inr (front, back, t, split, all, hit, e) ↦ inr (
          s ∷ front,
          back,
          t,
          ap (λ xs. s ∷ xs) split,
          (miss, all),
          hit,
          rw (miss, get_status) (rw e refl),
        )
      ]
    ]
