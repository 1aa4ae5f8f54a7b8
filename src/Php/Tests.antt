-- ===== src/Php/Tests.antt =====
-- The pool of a server with two gigabytes.
use webcasa.Base.{ℕ, ◌*◌, ◌/◌, pos}
use webcasa.Php.{calculate_optimal_fpm}
use webcasa.Php.Pool.{IsSound, calculate_optimal_fpm-IsSound}

abbrev four_fifths : ℕ → ℕ → ℕ
four_fifths a b = a * 4 / (b * 5)

calculate_optimal_fpm-IsSound_example :
    IsSound (calculate_optimal_fpm four_fifths (pos 2048) (pos 0) (pos 80) (pos 2))
calculate_optimal_fpm-IsSound_example =
    calculate_optimal_fpm-IsSound four_fifths (pos 2048) (pos 0) (pos 80) (pos 2)
