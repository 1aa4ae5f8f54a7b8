-- ===== src/Php/Pool.antt =====
-- Every pool that the calculation gives is one that PHP-FPM accepts.
use webcasa.Base.{
  ℕ, zero, suc, pos, negsuc, ◌≤◌, ◌<◌, ℤ, is_nonpos, pos_part, arith, Bool-cases, inl, inr,
}
use webcasa.Php.{FpmPoolConfig, default_fpm_pool_config, calculate_optimal_fpm, tuned, or_default}

-- What PHP-FPM asks of a pool, and the bounds of the calculation.
pub record IsSound (c : FpmPoolConfig) : Type 0 where
  pub enough : 5 ≤ c.max_children
  pub bounded : c.max_children ≤ 512
  pub some_spare : 2 ≤ c.min_spare_servers
  pub spare_started : c.min_spare_servers ≤ c.start_servers
  pub started_spare : c.start_servers ≤ c.max_spare_servers
  pub spare_bounded : c.max_spare_servers ≤ c.max_children

cores_positive : (cores : ℤ) → 0 < or_default cores 1
cores_positive (pos zero) = omega arith
cores_positive (pos (suc n)) = omega arith
cores_positive (negsuc n) = omega arith

tuned-IsSound :
    (total children cores : ℕ)
    → 5 ≤ children
    → children ≤ 512
    → 0 < cores
    → IsSound (tuned total children cores)
unfolding tuned
tuned-IsSound total children cores low high one = record {
  enough = low;
  bounded = high;
  some_spare = ground arith;
  spare_started = ground arith;
  started_spare = ground arith;
  spare_bounded = ground arith;
}

-- Whatever the memory and the processors of the server, also where they are unknown, and whatever
-- the float product comes to, the pool has from 5 to 512 children, keeps at least 2 spare servers,
-- and its bounds are in order: the fewest spare, the servers at the start, the most spare, and the
-- children.
pub calculate_optimal_fpm-IsSound :
    (share : ℕ → ℕ → ℕ) (total_ram reserved average cores : ℤ)
    → IsSound (calculate_optimal_fpm share total_ram reserved average cores)
unfolding calculate_optimal_fpm default_fpm_pool_config
calculate_optimal_fpm-IsSound share total_ram reserved average cores =
    elim (Bool-cases (is_nonpos total_ram)) [
      | inl e ↦ rw e (record {
        enough = omega arith;
        bounded = omega arith;
        some_spare = omega arith;
        spare_started = omega arith;
        started_spare = omega arith;
        spare_bounded = omega arith;
      })
      | inr e ↦ rw e (
          tuned-IsSound (pos_part total_ram) _ (or_default cores 1) (ground arith) (ground arith)
            (cores_positive cores))
    ]
