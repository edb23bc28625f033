-- ===== src/Errors/Tests.antt =====
-- Runs of the error list, and its theorems at concrete lists.
use pe_bliss.Base.{ℕ, ◌≡◌, true, [], ◌⊎◌, ◌≢◌, ite}
use pe_bliss.Errors.{Error-discrete, generic, integer_overflow, buffer_overrun}
use pe_bliss.Errors.List.{
  ErrorList, add_error, add_error_at, has_error, has_error_at, has_any_error, add_error_at_lem,
}

abbrev one_error : ErrorList
one_error = add_error [] (generic buffer_overrun)

add_error_at_lem_example :
    let after = add_error_at one_error (generic integer_overflow) 3 in
    (has_error_at after (generic integer_overflow) 3 ≡ true)
    × (((generic integer_overflow ≢ generic integer_overflow) ⊎ ◌≢◌ {A = ℕ} 3 4)
        → has_error_at after (generic integer_overflow) 4
          ≡ has_error_at one_error (generic integer_overflow) 4)
    × (has_error after (generic integer_overflow) ≡ has_error one_error (generic integer_overflow))
    × (has_any_error after (generic integer_overflow)
        ≡ ite
            (Error-discrete (generic integer_overflow) (generic integer_overflow))
            true
            (has_any_error one_error (generic integer_overflow)))
add_error_at_lem_example =
    add_error_at_lem one_error (generic integer_overflow) (generic integer_overflow) 3 4
