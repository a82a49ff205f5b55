-- ===== src/Exchange/OrderBook/Rings.antt =====
-- Rings of pointers: the links of a doubly linked circular list, as two functions, and the list that
-- they go round.
use electronic_trading_ecosy.Base.{
  ℕ, ◌≡◌, ◌≢◌, refl, sym, ap, ◌∙◌, Bool, true, false, ◌||◌, Option, some, List, [], ◌∷◌, ◌++◌,
  arith, ◌==◌,
}
use electronic_trading_ecosy.Base.Pointers.{contains, NoRepeats}

abbrev pub Links : Type 0
Links = ℕ → Option ℕ

-- `next` leads from `x` through `zs` to `y`, and `prev` leads back.
abbrev pub Linked : (next prev : Links) → ℕ → List ℕ → ℕ → Type 0
Linked next prev x [] y = (next x ≡ some y) × (prev y ≡ some x)
Linked next prev x (z ∷ zs) y = (next x ≡ some z) × (prev z ≡ some x) × Linked next prev z zs y

abbrev pub last_of : ℕ → List ℕ → ℕ
last_of x [] = x
last_of x (z ∷ zs) = last_of z zs

-- the links go round the list, each element once
abbrev pub IsRing : (next prev : Links) → List ℕ → Type 0
IsRing next prev [] = ⊥
IsRing next prev (x ∷ zs) = Linked next prev x zs x × NoRepeats (x ∷ zs)

pub or_right : (a : Bool) {b : Bool} → b ≡ true → a || b ≡ true
or_right true h = refl
or_right false h = h

pub contains-last_of : (x : ℕ) (zs : List ℕ) → contains (last_of x zs) (x ∷ zs) ≡ true
contains-last_of x [] = ground arith
contains-last_of x (z ∷ zs) = ground (arith, contains-last_of z zs)

pub contains_ne : (x y : ℕ) (zs : List ℕ) → contains x zs ≡ true → contains y zs ≡ false → x ≢ y
contains_ne x y zs h k e = let both : true ≡ false = sym h ∙ ap (λ i. contains i zs) e ∙ k in cc

pub Linked-end :
    (next prev : Links) (x : ℕ) (zs : List ℕ) (y : ℕ)
    → Linked next prev x zs y
    → (next (last_of x zs) ≡ some y) × (prev y ≡ some (last_of x zs))
Linked-end next prev x [] y h = h
Linked-end next prev x (z ∷ zs) y (_, _, h) = Linked-end next prev z zs y h

pub Linked-split :
    (next prev : Links) (x : ℕ) (zs : List ℕ) (w : ℕ) (ws : List ℕ) (y : ℕ)
    → Linked next prev x (zs ++ w ∷ ws) y
    → Linked next prev x zs w × Linked next prev w ws y
Linked-split next prev x [] w ws y (n, p, h) = ((n, p), h)
Linked-split next prev x (z ∷ zs) w ws y (n, p, h) =
    let (front, back) = Linked-split next prev z zs w ws y h in ((n, p, front), back)

pub Linked-join :
    (next prev : Links) (x : ℕ) (zs : List ℕ) (w : ℕ) (ws : List ℕ) (y : ℕ)
    → Linked next prev x zs w
    → Linked next prev w ws y
    → Linked next prev x (zs ++ w ∷ ws) y
Linked-join next prev x [] w ws y (n, p) back = (n, p, back)
Linked-join next prev x (z ∷ zs) w ws y (n, p, front) back =
    (n, p, Linked-join next prev z zs w ws y front back)

-- The same path to another end, by links that differ only there.
pub Linked-new_end :
    (next prev next' prev' : Links) (x : ℕ) (zs : List ℕ) (y w : ℕ)
    → NoRepeats (x ∷ zs)
    → ((i : ℕ) → contains i (x ∷ zs) ≡ true → i ≢ last_of x zs → next' i ≡ next i)
    → ((i : ℕ) → contains i zs ≡ true → prev' i ≡ prev i)
    → next' (last_of x zs) ≡ some w
    → prev' w ≡ some (last_of x zs)
    → Linked next prev x zs y
    → Linked next' prev' x zs w
Linked-new_end next prev next' prev' x [] y w once keep_next keep_prev to_w back h = (to_w, back)
Linked-new_end next prev next' prev' x (z ∷ zs) y w (absent, once) keep_next keep_prev to_w back
      (n, p, h) =
    let first : contains x (x ∷ z ∷ zs) ≡ true = ground arith in
    let second : contains z (z ∷ zs) ≡ true = ground arith in
    let differs : x ≢ last_of z zs =
      λ e. contains_ne (last_of z zs) x (z ∷ zs) (contains-last_of z zs) absent (sym e) in
    (
      keep_next x first differs ∙ n,
      keep_prev z second ∙ p,
      Linked-new_end next prev next' prev' z zs y w once
          (λ i inside. keep_next i (or_right (i == x) inside))
          (λ i inside. keep_prev i (or_right (i == z) inside)) to_w back h,
    )
