-- ===== src/Base/Pointers.antt =====
-- Vectors of pointers as the program keeps them: searched before an element is added, and cleared of
-- one by erase-remove.
use Prim.Native.Nat.{ℕ}
use mathlib.Core.Path.{◌≡◌, refl}
use mathlib.Core.Logic.{inl, inr}
use mathlib.Core.Bool.{Bool, true, false, not, ◌||◌, ◌&&◌}
use mathlib.Core.List.{List, [], ◌∷◌, ◌++◌}
use native.Mathlib.Omega.{arith}
use electronic_trading_ecosy.Base.Tests.{◌==◌, if◌then◌else◌, Bool-cases}

-- `std::find(…) != end()`
abbrev pub contains : ℕ → List ℕ → Bool
contains p [] = false
contains p (q ∷ ps) = p == q || contains p ps

-- `push_back`, unless it is there
abbrev pub add_absent : List ℕ → ℕ → List ℕ
add_absent ps p = if contains p ps then ps else ps ++ p ∷ []

-- `erase(remove(…))`
abbrev pub remove : ℕ → List ℕ → List ℕ
remove p [] = []
remove p (q ∷ ps) = let rest = remove p ps in if p == q then rest else q ∷ rest

-- each pointer once
abbrev pub NoRepeats : List ℕ → Type 0
NoRepeats [] = Unit
NoRepeats (p ∷ ps) = (contains p ps ≡ false) × NoRepeats ps

pub contains-snoc : (p q : ℕ) (ps : List ℕ) → contains p (ps ++ q ∷ []) ≡ contains p ps || p == q
contains-snoc p q [] = ground arith
contains-snoc p q (r ∷ ps) = ground (arith, contains-snoc p q ps)

contains-same :
    (p q : ℕ) (ps : List ℕ) → contains q ps ≡ true → (p == q) ≡ true → contains p ps ≡ true
contains-same p q ps h e = let same : p ≡ q = ground (arith, e) in rw same h

pub contains-add_absent :
    (p q : ℕ) (ps : List ℕ) → contains p (add_absent ps q) ≡ contains p ps || p == q
contains-add_absent p q ps = ground (arith, contains-snoc p q ps, contains-same p q ps)

NoRepeats-snoc :
    (p : ℕ) (ps : List ℕ) → contains p ps ≡ false → NoRepeats ps → NoRepeats (ps ++ p ∷ [])
NoRepeats-snoc p [] h n = (refl, tt)
NoRepeats-snoc p (q ∷ ps) h (hq, n) =
    (ground (arith, contains-snoc q p ps), NoRepeats-snoc p ps (ground (arith, h)) n)

pub NoRepeats-add_absent : (p : ℕ) (ps : List ℕ) → NoRepeats ps → NoRepeats (add_absent ps p)
NoRepeats-add_absent p ps n = elim (Bool-cases (contains p ps)) [
  | inl there ↦ rw there n
  | inr absent ↦ rw absent (NoRepeats-snoc p ps absent n)
]

pub contains-remove :
    (p q : ℕ) (ps : List ℕ) → contains p (remove q ps) ≡ contains p ps && not (p == q)
contains-remove p q [] = refl
contains-remove p q (r ∷ ps) = ground (arith, contains-remove p q ps)

pub contains-remove_self : (p : ℕ) (ps : List ℕ) → contains p (remove p ps) ≡ false
contains-remove_self p [] = refl
contains-remove_self p (q ∷ ps) = ground (arith, contains-remove_self p ps)

pub absent-remove :
    (p q : ℕ) (ps : List ℕ) → contains p ps ≡ false → contains p (remove q ps) ≡ false
absent-remove p q [] h = refl
absent-remove p q (r ∷ ps) h = ground (arith, absent-remove p q ps)

pub NoRepeats-remove : (p : ℕ) (ps : List ℕ) → NoRepeats ps → NoRepeats (remove p ps)
NoRepeats-remove p [] n = tt
NoRepeats-remove p (q ∷ ps) (hq, n) = elim (Bool-cases (p == q)) [
  | inl same ↦ rw same (NoRepeats-remove p ps n)
  | inr other ↦ rw other (absent-remove q p ps hq, NoRepeats-remove p ps n)
]

pub contains-append :
    (p : ℕ) (ps qs : List ℕ) → contains p (ps ++ qs) ≡ contains p ps || contains p qs
contains-append p [] qs = refl
contains-append p (q ∷ ps) qs = ground (arith, contains-append p ps qs)

pub NoRepeats-append :
    (ps qs : List ℕ)
    → NoRepeats (ps ++ qs)
    → NoRepeats ps × NoRepeats qs × ((p : ℕ) → contains p ps ≡ true → contains p qs ≡ false)
NoRepeats-append [] qs n = (tt, n, λ p h. cc)
NoRepeats-append (q ∷ ps) qs (hq, n) =
    let (once, others, apart) = NoRepeats-append ps qs n in
    (
      (ground (arith, hq, contains-append q ps qs), once),
      others,
      λ p h. elim (Bool-cases (p == q)) [
        | inl same ↦
            let e : p ≡ q = ground (arith, same) in
            rw e (ground (arith, hq, contains-append q ps qs))
        | inr other ↦ apart p (rw other at h)
      ],
    )

pub NoRepeats-join :
    (ps qs : List ℕ)
    → NoRepeats ps
    → NoRepeats qs
    → ((p : ℕ) → contains p ps ≡ true → contains p qs ≡ false)
    → NoRepeats (ps ++ qs)
NoRepeats-join [] qs n m apart = m
NoRepeats-join (p ∷ ps) qs (hp, n) m apart = (
  ground (arith, hp, contains-append p ps qs, apart p),
  NoRepeats-join ps qs n m (λ q h. apart q (ground (arith, h))),
)
