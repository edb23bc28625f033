-- ===== src/Section/Header/Flags.antt =====
-- About the characteristics word: `toggle_characteristic`, and the setters and tests of flags.
use pe_bliss.Base.{
  ℕ, zero, suc, ◌+◌, ◌*◌, ◌%◌, ◌^◌, ◌<◌, ◌≡◌, Bool, true, false, not, arith, ◌!=◌, ◌==◌,
  if◌then◌else◌, bit_and, bit_xor, min, ap,
}
use pe_bliss.Base.Bits.{
  bit, bit-lt, bit-bit_and, bit-bit_xor, bit-zero, bit_all_ones, bit_and-two_pow, bit-two_pow_self,
  bit-two_pow_ne, two_pow-pos, bit_and-lt, bit_xor-lt,
}
use pe_bliss.Base.Words.{sub_wrap}
use pe_bliss.Section.Header.{
  SectionHeader, IsValid, toggle_characteristic, set_writable, set_readable, set_executable,
  set_shared, set_discardable, set_non_pageable, set_non_cacheable, is_writable, is_readable,
  is_executable, is_shared, is_discardable, is_pageable, is_cacheable,
}

abbrev pub digit_of : Bool → ℕ
digit_of true = 1
digit_of false = 0

-- `0u - toggle` is all ones or zero.
bit-ones :
    (j : ℕ) (toggle : Bool)
    → j < 32
    → bit j (sub_wrap 32 0 (if toggle then 1 else 0)) ≡ digit_of toggle
bit-ones j true h = bit_all_ones 32 j h
bit-ones j false h = bit-zero j

-- Each of the 32 digits that is set in the flag takes the toggle's value, and every other one is
-- kept.
pub bit-toggle_characteristic :
    (h : SectionHeader) (toggle : Bool) (flag j : ℕ)
    → j < 32
    → bit j (toggle_characteristic h toggle flag).characteristics
      ≡ (if bit j flag == 1 then digit_of toggle else bit j h.characteristics)
unfolding toggle_characteristic
bit-toggle_characteristic h toggle flag j lt =
    let c = h.characteristics in
    let ones = sub_wrap 32 0 (if toggle then 1 else 0) in
    let outer = bit-bit_xor j c (bit_and (bit_xor ones c) flag) in
    let masked = bit-bit_and j (bit_xor ones c) flag in
    let inner = bit-bit_xor j ones c in
    rw (outer, masked, inner, bit-ones j toggle lt)
      (digits toggle (bit j c) (bit j flag) (bit-lt j c) (bit-lt j flag))
  where
    digits :
        (t : Bool) (x f : ℕ)
        → x < 2
        → f < 2
        → (x + min ((digit_of t + x) % 2) f) % 2 ≡ (if f == 1 then digit_of t else x)
    digits true x f p q = ground arith
    digits false x f p q = ground arith

toggle_characteristic-fits :
    (h : SectionHeader) (toggle : Bool) (flag : ℕ)
    → IsValid h
    → flag < 2 ^ 32
    → (toggle_characteristic h toggle flag).characteristics < 2 ^ 32
unfolding toggle_characteristic
toggle_characteristic-fits h toggle flag v lt =
    bit_xor-lt 32 _ _ v.characteristics_fits
      (bit_and-lt 32 _ flag (bit_xor-lt 32 _ _ (omega arith) v.characteristics_fits))

-- The toggle keeps the word within 32 bits, so a header stays valid.
pub toggle_characteristic-IsValid :
    (h : SectionHeader) (toggle : Bool) (flag : ℕ)
    → IsValid h
    → flag < 2 ^ 32
    → IsValid (toggle_characteristic h toggle flag)
unfolding toggle_characteristic
toggle_characteristic-IsValid h toggle flag v lt = record {
  virtual_size_fits = v.virtual_size_fits;
  virtual_address_fits = v.virtual_address_fits;
  size_of_raw_data_fits = v.size_of_raw_data_fits;
  pointer_to_raw_data_fits = v.pointer_to_raw_data_fits;
  characteristics_fits = toggle_characteristic-fits h toggle flag v lt;
}

flag_test : (k c : ℕ) → (bit_and c (2 ^ k) != 0) ≡ (bit k c == 1)
flag_test k c = rw (bit_and-two_pow k c) (digit (bit k c) (bit-lt k c))
  where
    digit : (x : ℕ) → x < 2 → (x * 2 ^ k != 0) ≡ (x == 1)
    digit zero lt = ground arith
    digit (suc zero) lt = ground (arith, two_pow-pos k)
    digit (suc (suc x)) lt = absurd (omega arith)

abbrev flag_of : SectionHeader → ℕ → Bool
flag_of h k = bit_and h.characteristics (2 ^ k) != 0

-- Toggling one flag is read back by its own test, and no other flag's test changes.
flag_of-toggle :
    (h : SectionHeader) (toggle : Bool) (k j : ℕ)
    → k < 32
    → j < 32
    → flag_of (toggle_characteristic h toggle (2 ^ k)) j ≡ (if j == k then toggle else flag_of h j)
flag_of-toggle h toggle k j lk lj =
    rw (flag_test j, bit-toggle_characteristic h toggle (2 ^ k) j lj)
      (ground (arith, flag_test j h.characteristics, bit-two_pow_self k, bit-two_pow_ne j k))

-- Each setter is read back by its test; the two negated tests read the negation back.
pub set-test :
    (h : SectionHeader) (b : Bool)
    → (is_writable (set_writable h b) ≡ b)
      × (is_readable (set_readable h b) ≡ b)
      × (is_executable (set_executable h b) ≡ b)
      × (is_shared (set_shared h b) ≡ b)
      × (is_discardable (set_discardable h b) ≡ b)
      × (is_pageable (set_non_pageable h b) ≡ not b)
      × (is_cacheable (set_non_cacheable h b) ≡ not b)
unfolding set_writable set_readable set_executable set_shared set_discardable set_non_pageable
    set_non_cacheable is_writable is_readable is_executable is_shared is_discardable is_pageable
    is_cacheable
set-test h b = (
  flag_of-toggle h b 31 31 (omega arith) (omega arith),
  flag_of-toggle h b 30 30 (omega arith) (omega arith),
  flag_of-toggle h b 29 29 (omega arith) (omega arith),
  flag_of-toggle h b 28 28 (omega arith) (omega arith),
  flag_of-toggle h b 25 25 (omega arith) (omega arith),
  ap not (flag_of-toggle h b 27 27 (omega arith) (omega arith)),
  ap not (flag_of-toggle h b 26 26 (omega arith) (omega arith)),
)

-- Making a section writable or not changes no other flag that has a test.
pub test-set_writable :
    (h : SectionHeader) (b : Bool)
    → (is_readable (set_writable h b) ≡ is_readable h)
      × (is_executable (set_writable h b) ≡ is_executable h)
      × (is_shared (set_writable h b) ≡ is_shared h)
      × (is_discardable (set_writable h b) ≡ is_discardable h)
      × (is_pageable (set_writable h b) ≡ is_pageable h)
      × (is_cacheable (set_writable h b) ≡ is_cacheable h)
unfolding set_writable is_readable is_executable is_shared is_discardable is_pageable is_cacheable
test-set_writable h b = (
  flag_of-toggle h b 31 30 (omega arith) (omega arith),
  flag_of-toggle h b 31 29 (omega arith) (omega arith),
  flag_of-toggle h b 31 28 (omega arith) (omega arith),
  flag_of-toggle h b 31 25 (omega arith) (omega arith),
  ap not (flag_of-toggle h b 31 27 (omega arith) (omega arith)),
  ap not (flag_of-toggle h b 31 26 (omega arith) (omega arith)),
)
