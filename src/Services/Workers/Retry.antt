-- ===== src/Services/Workers/Retry.antt =====
-- The countdowns of the retry policy of a worker.
use uav_dag_offload_platform.Common.{ℕ, suc, ◌*◌, ◌^◌, ◌≡◌, arith}
use uav_dag_offload_platform.Common.Int.{pos, min_ℤ, scale_ℤ}
use uav_dag_offload_platform.Services.Workers.{calculate_retry_countdown}

doubled : (base n : ℕ) → base * 2 ^ suc n ≡ 2 * (base * 2 ^ n)
doubled base n = grind arith

-- With settings that are not negative, the first countdown is the base, and each later one is twice
-- the one before it, both cut off at the maximum.
pub calculate_retry_countdown_lem :
    (retry_count base_seconds max_seconds : ℕ)
    → (calculate_retry_countdown 0 (pos base_seconds) (pos max_seconds)
        ≡ min_ℤ (pos base_seconds) (pos max_seconds))
      × (calculate_retry_countdown (suc retry_count) (pos base_seconds) (pos max_seconds)
          ≡ min_ℤ
              (scale_ℤ
                (calculate_retry_countdown retry_count (pos base_seconds) (pos max_seconds))
                2)
              (pos max_seconds))
unfolding calculate_retry_countdown
calculate_retry_countdown_lem retry_count base_seconds max_seconds =
    (ground arith, ground (arith, doubled base_seconds retry_count))
