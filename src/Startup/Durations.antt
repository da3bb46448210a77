-- ===== src/Startup/Durations.antt =====
-- The durations that the constructors make of the configuration: a time.Duration is an int64 number of
-- nanoseconds, and its multiplication wraps around.
use dns_box.Prelude.{
  ℕ, zero, suc, ◌-◌, ◌*◌, ◌+◌, ◌%◌, ◌^◌, ◌≤◌, ◌<◌, Bool, true, false, ◌≡◌, refl, ℤ, pos, negsuc,
  arith, ltb, lt→ltb, ◌==◌, if◌then◌else◌,
}

-- The int64 that has the given 64 bits.
abbrev pub signed : ℕ → ℤ
signed bits = if ltb bits (2 ^ 63) then pos bits else negsuc (2 ^ 64 - 1 - bits)

-- time.Duration(n) * unit
unfoldable pub scaled : ℤ → ℕ → ℤ
scaled (pos n) unit = signed (n * unit % 2 ^ 64)
scaled (negsuc n) unit = signed ((2 ^ 64 - (n + 1) * unit % 2 ^ 64) % 2 ^ 64)

abbrev pub hour : ℕ
hour = 3_600_000_000_000

abbrev pub second : ℕ
second = 1_000_000_000

abbrev pub is_positive : ℤ → Bool
is_positive (pos zero) = false
is_positive (pos (suc n)) = true
is_positive (negsuc n) = false

-- `NewBlockList`: the period of the ticker, which must be positive, or time.NewTicker panics.
unfoldable pub refresh_period : ℤ → ℤ
unfolding scaled
refresh_period hours = scaled (if is_positive hours then hours else pos 24) hour

-- `NewDnsHandler`: the time limit of its HTTP client.
unfoldable pub handler_timeout : ℤ → ℤ
unfolding scaled
handler_timeout seconds = if is_positive seconds then scaled seconds second else pos (5 * second)

scaled_small : (n unit : ℕ) → n * unit < 2 ^ 63 → scaled (pos n) unit ≡ pos (n * unit)
unfolding scaled
scaled_small n unit h =
    let e : n * unit % 2 ^ 64 ≡ n * unit = omega arith in rw (e, lt→ltb _ _ h) refl

-- A refresh interval of up to 2562047 hours is kept, and a time limit of up to 9223372036 seconds; zero
-- means 24 hours, and 5 seconds. So no duration wraps around there, and the ticker can start.
pub durations_exact :
    (hours seconds : ℕ)
    → hours ≤ 2_562_047
    → seconds ≤ 9_223_372_036
    → (refresh_period (pos hours) ≡ pos ((if hours == 0 then 24 else hours) * hour))
      × (handler_timeout (pos seconds) ≡ pos ((if seconds == 0 then 5 else seconds) * second))
unfolding refresh_period handler_timeout
durations_exact hours seconds h s = (period hours h, limit seconds s)
  where
    period :
        (n : ℕ) → n ≤ 2_562_047 → refresh_period (pos n) ≡ pos ((if n == 0 then 24 else n) * hour)
    period zero h = refl
    period (suc n) h = ground (arith, scaled_small (suc n) hour (omega arith))

    limit :
        (n : ℕ)
        → n ≤ 9_223_372_036
        → handler_timeout (pos n) ≡ pos ((if n == 0 then 5 else n) * second)
    limit zero h = refl
    limit (suc n) h = ground (arith, scaled_small (suc n) second (omega arith))
