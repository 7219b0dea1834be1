-- ===== src/Json/Magnitude/Numerals.antt =====
-- Decimal text without leading zeros, digit behind digit.
use struple.Prelude.{
  ℕ, ◌+◌, ◌-◌, ◌*◌, ◌<◌, ◌≤◌, ◌≡◌, ◌≢◌, refl, sym, ◌∙◌, arith, List, [], ◌∷◌, ◌++◌, All, All-append,
  ◌⊎◌, inl, inr,
}
use struple.Json.Encode.{text_value}

abbrev pub IsDigitChar : ℕ → Type 0
IsDigitChar c = (48 ≤ c) × (c < 58)

pub text_value-append :
    (a : ℕ) (cs : List ℕ) (c : ℕ) → text_value a (cs ++ c ∷ []) ≡ text_value a cs * 10 + (c - 48)
unfolding text_value
text_value-append a [] c = refl
text_value-append a (b ∷ bs) c = text_value-append (a * 10 + (b - 48)) bs c

-- Decimal text as it is written: digits, at least one, and no zero in front of others
abbrev pub HasNoLeadingZero : List ℕ → Type 0
HasNoLeadingZero [] = ⊥
HasNoLeadingZero (c ∷ []) = Unit
HasNoLeadingZero (c ∷ d ∷ cs) = c ≢ 48

pub record IsNumeral (n : ℕ) (cs : List ℕ) : Type 0 where
  pub value : text_value 0 cs ≡ n
  pub digits : All IsDigitChar cs
  pub short : HasNoLeadingZero cs

-- The digits of a number above 0: the first of them is not 0.
abbrev pub BeginsAboveZero : List ℕ → Type 0
BeginsAboveZero [] = ⊥
BeginsAboveZero (c ∷ cs) = c ≢ 48

-- What is known of the digits before the last one, which are none where they stand for 0.
pub record IsFront (n : ℕ) (cs : List ℕ) : Type 0 where
  pub value : text_value 0 cs ≡ n
  pub digits : All IsDigitChar cs
  pub none_or : (cs ≡ []) ⊎ BeginsAboveZero cs

digit_char : (r : ℕ) → r < 10 → 48 + r - 48 ≡ r
digit_char r h = omega arith

module _ (n r : ℕ) (cs : List ℕ) (small : r < 10) (x : IsFront n cs) where
  extended_value : text_value 0 (cs ++ (48 + r) ∷ []) ≡ n * 10 + r
  extended_value = text_value-append 0 cs (48 + r) ∙ rw (x.value, digit_char r small) refl

  extended_digits : All IsDigitChar (cs ++ (48 + r) ∷ [])
  extended_digits =
      All-append IsDigitChar cs ((48 + r) ∷ []) x.digits ((omega arith, omega arith), tt)

  -- With one more digit
  pub extended-IsNumeral : IsNumeral (n * 10 + r) (cs ++ (48 + r) ∷ [])
  extended-IsNumeral = record {
    value = extended_value;
    digits = extended_digits;
    short = elim x.none_or [ inl none_before ↦ rw none_before tt | inr above ↦ longer cs above ];
  }
    where
      longer : (cs : List ℕ) → BeginsAboveZero cs → HasNoLeadingZero (cs ++ (48 + r) ∷ [])
      longer [] h = absurd h
      longer (c ∷ []) h = h
      longer (c ∷ d ∷ cs) h = h

  pub extended-IsFront : 0 < n * 10 + r → IsFront (n * 10 + r) (cs ++ (48 + r) ∷ [])
  extended-IsFront positive = record {
    value = extended_value;
    digits = extended_digits;
    none_or = inr (elim x.none_or [
      | inl none_before ↦
          let nothing : n ≡ 0 = sym x.value ∙ rw none_before (unfold text_value in refl) in
          rw none_before (λ e. absurd (omega (arith, e, nothing)))
      | inr above ↦ longer cs above
    ]);
  }
    where
      longer : (cs : List ℕ) → BeginsAboveZero cs → BeginsAboveZero (cs ++ (48 + r) ∷ [])
      longer [] h = absurd h
      longer (c ∷ cs) h = h
