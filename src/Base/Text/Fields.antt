-- ===== src/Base/Text/Fields.antt =====
-- Texts of labelled fields: each field ends where a space or a closing bracket comes.
use electronic_trading_ecosy.Base.{
  ℕ, ◌≡◌, refl, ap, Bool, true, false, not, ◌||◌, ◌&&◌, List, [], ◌∷◌, ◌++◌, map, arith, ◌==◌,
  if◌then◌else◌, length, All, drop, Bool-cases, inl, inr,
}
use electronic_trading_ecosy.Base.Text.{Bytes, IsDigit, decimal, decimal-IsDigit}

abbrev pub stops : ℕ → Bool
stops c = c == b' ' || c == b']'

abbrev pub IsFieldByte : ℕ → Type 0
IsFieldByte c = stops c ≡ false

abbrev take_field : Bytes → Bytes
take_field [] = []
take_field (c ∷ s) = let rest = take_field s in if stops c then [] else c ∷ rest

abbrev skip_field : Bytes → Bytes
skip_field [] = []
skip_field (c ∷ s) = let rest = skip_field s in if stops c then c ∷ s else rest

-- the fields of a text, given the lengths of the labels in front of them
abbrev pub read_fields : List ℕ → Bytes → List Bytes
read_fields [] s = []
read_fields (skip ∷ skips) s =
    let from = drop skip s in take_field from ∷ read_fields skips (skip_field from)

-- the text of a list of labels and fields
abbrev pub lay_out : List (Bytes × Bytes) → Bytes → Bytes
lay_out [] tail = tail
lay_out ((label, field) ∷ more) tail = label ++ (field ++ lay_out more tail)

abbrev pub StopsFirst : Bytes → Type 0
StopsFirst [] = Unit
StopsFirst (c ∷ s) = stops c ≡ true

take_field-append :
    (field rest : Bytes)
    → All IsFieldByte field
    → StopsFirst rest
    → take_field (field ++ rest) ≡ field
take_field-append [] [] h k = refl
take_field-append [] (c ∷ s) h k = rw k refl
take_field-append (c ∷ s) rest (hc, hs) k = rw (hc, take_field-append s rest hs k) refl

skip_field-append :
    (field rest : Bytes)
    → All IsFieldByte field
    → StopsFirst rest
    → skip_field (field ++ rest) ≡ rest
skip_field-append [] [] h k = refl
skip_field-append [] (c ∷ s) h k = rw k refl
skip_field-append (c ∷ s) rest (hc, hs) k = rw (hc, skip_field-append s rest hs k) refl

drop-append : (label rest : Bytes) → drop (length label) (label ++ rest) ≡ rest
drop-append [] rest = refl
drop-append (c ∷ s) rest = drop-append s rest

-- each label but the first begins with a stop, and each field has none
abbrev pub WellLaid : List (Bytes × Bytes) → Bytes → Type 0
WellLaid [] tail = Unit
WellLaid ((label, field) ∷ more) tail =
    All IsFieldByte field × StopsFirst (lay_out more tail) × WellLaid more tail

read_fields-cons :
    (skip : ℕ) (skips : List ℕ) (s field rest : Bytes) (fields : List Bytes)
    → drop skip s ≡ field ++ rest
    → All IsFieldByte field
    → StopsFirst rest
    → read_fields skips rest ≡ fields
    → read_fields (skip ∷ skips) s ≡ field ∷ fields
read_fields-cons skip skips s field rest fields e hf hs hm =
    let front : take_field (drop skip s) ≡ field = rw e (take_field-append field rest hf hs) in
    let back : skip_field (drop skip s) ≡ rest = rw e (skip_field-append field rest hf hs) in
    rw front (rw back (ap (field ∷◌) hm))

-- The fields of a text laid out well are read back.
pub read-lay_out :
    (parts : List (Bytes × Bytes)) (tail : Bytes)
    → WellLaid parts tail
    → read_fields (map (λ p. length p.0) parts) (lay_out parts tail) ≡ map (λ p. p.1) parts
read-lay_out [] tail h = refl
read-lay_out ((label, field) ∷ more) tail (hf, hs, hm) =
    let rest = lay_out more tail in
    read_fields-cons (length label) (map (λ p. length p.0) more) (label ++ (field ++ rest)) field
      rest (map (λ p. p.1) more) (drop-append label (field ++ rest)) hf hs
      (read-lay_out more tail hm)

digit-IsFieldByte : (s : Bytes) → All IsDigit s → All IsFieldByte s
digit-IsFieldByte [] h = tt
digit-IsFieldByte (c ∷ s) (hc, hs) = (ground (arith, hc), digit-IsFieldByte s hs)

pub decimal-IsFieldByte : (n : ℕ) → All IsFieldByte (decimal n)
decimal-IsFieldByte n = digit-IsFieldByte (decimal n) (decimal-IsDigit n)

-- `==` on texts
abbrev pub same_text : Bytes → Bytes → Bool
same_text [] [] = true
same_text [] (_ ∷ _) = false
same_text (_ ∷ _) [] = false
same_text (a ∷ s) (b ∷ t) = a == b && same_text s t

abbrev has_no_stop : Bytes → Bool
has_no_stop [] = true
has_no_stop (c ∷ s) = not (stops c) && has_no_stop s

-- for a text that is written out
pub fields_without_stop : (s : Bytes) → has_no_stop s ≡ true → All IsFieldByte s
fields_without_stop [] h = tt
fields_without_stop (c ∷ s) h = elim (Bool-cases (stops c)) [
  | inl stop ↦ absurd (let no : false ≡ true = rw (stop) at h in cc)
  | inr plain ↦ (plain, fields_without_stop s (rw (plain) at h))
]
