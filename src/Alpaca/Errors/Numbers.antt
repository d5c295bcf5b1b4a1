-- ===== src/Alpaca/Errors/Numbers.antt =====
-- The numbers that NewError gives.
use goalpaca.Prelude.{ℤ, true, ◌≡◌, ◌⊎◌, ◌≤ℤ◌}
use goalpaca.Alpaca.Errors.{is_reserved_number, err_num_driver_base, err_num_driver_max}

-- A number that an ASCOM client can read: a reserved one, or one of the driver's own range.
abbrev pub IsWireNumber : ℤ → Type 0
IsWireNumber n =
    (is_reserved_number n ≡ true) ⊎ ((err_num_driver_base ≤ℤ n) × (n ≤ℤ err_num_driver_max))
