-- ===== src/Recompute/Tests.antt =====
-- The recomputation on concrete numbers.
use sustentra_platform.Prelude.{ℕ, ◌≡◌, ◌↔◌, refl, true, none, some}
use sustentra_platform.Text.{lit, strip}
use sustentra_platform.Value.{Value, text, number}
use sustentra_platform.Samples.{whole}
use sustentra_platform.Derivation.{without_commas}
use sustentra_platform.Recompute.{
  Input, matched, to_number, compare_numbers, recompute, recompute_iff,
}

abbrev input : Value ℕ → Input ℕ
input v = record { methodology_value_id = none; approved_value = v; approved_unit = none }

recompute_iff_example :
    ((recompute
        (some (input (text (lit " 1,000"))))
        (some (input (number 2)))
        (some (input (number 2000)))).status
      ≡ matched)
    ↔ ((q : ℕ) × (f : ℕ) × (r : ℕ) × (to_number (text (lit " 1,000")) ≡ some q)
        × (to_number (number 2) ≡ some f)
        × (to_number (number 2000) ≡ some r)
        × (whole.is_zero (whole.sub r (whole.mul q f)) ≡ true))
recompute_iff_example =
    recompute_iff (input (text (lit " 1,000"))) (input (number 2)) (input (number 2000))

matches :
    (recompute
      (some (input (text (lit " 1,000"))))
      (some (input (number 2)))
      (some (input (number 2000)))).status
    ≡ matched
unfolding recompute compare_numbers to_number without_commas strip
matches = refl
