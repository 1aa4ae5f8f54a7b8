-- ===== src/Php.antt =====
-- plugins/php/tuning.go: the size of a PHP-FPM pool from the memory and the processors of the server.
-- The product of floats is the argument `share`.
pub mod Pool
mod Tests
use webcasa.Base.{
  ℕ, ◌+◌, ◌-◌, ◌*◌, ◌/◌, String, Bool, true, false, ltb, leb, if◌then◌else◌, ℤ, is_nonpos, pos_part,
}

pub record FpmPoolConfig : Type 0 where
  pub pm : String
  pub max_children : ℕ
  pub start_servers : ℕ
  pub min_spare_servers : ℕ
  pub max_spare_servers : ℕ
  pub max_requests : ℕ
  pub idle_timeout : ℕ

pub default_fpm_pool_config : FpmPoolConfig
default_fpm_pool_config = record {
  pm = "dynamic";
  max_children = 10;
  start_servers = 4;
  min_spare_servers = 2;
  max_spare_servers = 4;
  max_requests = 500;
  idle_timeout = 10;
}

abbrev at_least : ℕ → ℕ → ℕ
at_least low n = if ltb n low then low else n

abbrev at_most : ℕ → ℕ → ℕ
at_most high n = if ltb high n then high else n

abbrev or_default : ℤ → ℕ → ℕ
or_default z n = if is_nonpos z then n else pos_part z

-- The memory left for the processes, of which `reserved` is not.
available : ℕ → ℤ → ℕ
available total reserved = at_least 200 (total - or_default reserved (at_least 256 (total / 5)))

process_manager : ℕ → String
process_manager total =
    if leb 16384 total then "static" else if leb total 1024 then "ondemand" else "dynamic"

tuned : ℕ → ℕ → ℕ → FpmPoolConfig
unfolding process_manager
tuned total children cores =
    let start = at_least 2 (at_most (children / 2) (cores * 4)) in
    let spare = at_most start (at_least 2 (cores * 2)) in
    record {
      pm = process_manager total;
      max_children = children;
      start_servers = start;
      min_spare_servers = spare;
      max_spare_servers = at_least spare (at_most (children / 2) (cores * 4));
      max_requests = 500;
      idle_timeout = 10;
    }

-- `CalculateOptimalFPM`. `share available average` is four fifths of the first over the second, in
-- floats, rounded towards 0.
pub calculate_optimal_fpm : (ℕ → ℕ → ℕ) → ℤ → ℤ → ℤ → ℤ → FpmPoolConfig
unfolding available tuned
calculate_optimal_fpm share total_ram reserved average cores =
    if is_nonpos total_ram
    then default_fpm_pool_config
    else tuned (pos_part total_ram)
        (at_most 512
          (at_least 5 (share (available (pos_part total_ram) reserved) (or_default average 80))))
        (or_default cores 1)
