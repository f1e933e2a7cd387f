-- ===== src/Step.antt =====
-- Code that changes a state and may end early: it keeps the changes made before an error.
use dlopen_rs.Error.{Result, ok, err, panicked, out_of_fuel}

abbrev pub Step : Type 0 → Type 0 → Type 0
Step S A = S → Result A × S

-- What follows a statement that ended with a result.
abbrev pub and_then : {S A B : Type 0} → Result A × S → (A → Step S B) → Result B × S
and_then (ok a, s) k = k a s
and_then (err e, s) k = (err e, s)
and_then (panicked p, s) k = (panicked p, s)
and_then (out_of_fuel, s) k = (out_of_fuel, s)
