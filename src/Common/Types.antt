-- ===== src/Common/Types.antt =====
-- common/Types.h: ids, prices and quantities are unsigned words, kept as numbers; the largest word
-- of each width stands for INVALID.
use Prim.Native.String.{String}
use low_latency.Prelude.Int.{ℤ, pos, negsuc}
use low_latency.Prelude.{ℕ, ◌-◌, ◌+◌, ◌%◌, ◌^◌, Bool, true, false, ◌==◌, if◌then◌else◌}

abbrev pub u32 : ℕ → ℕ
u32 n = n % 2 ^ 32

abbrev pub u64 : ℕ → ℕ
u64 n = n % 2 ^ 64

abbrev pub order_id_invalid : ℕ
order_id_invalid = 2 ^ 64 - 1

abbrev pub ticker_id_invalid : ℕ
ticker_id_invalid = 2 ^ 32 - 1

abbrev pub client_id_invalid : ℕ
client_id_invalid = 2 ^ 32 - 1

abbrev pub price_invalid : ℕ
price_invalid = 2 ^ 64 - 1

abbrev pub quantity_invalid : ℕ
quantity_invalid = 2 ^ 32 - 1

abbrev pub priority_invalid : ℕ
priority_invalid = 2 ^ 64 - 1

-- `enum class Side : i8`; its values are 0, 1, -1 and 2.
pub data Side : Type 0 where
  invalid buy sell max : Side

abbrev pub is_buy : Side → Bool
is_buy Side.buy = true
is_buy _ = false

abbrev pub is_sell : Side → Bool
is_sell Side.sell = true
is_sell _ = false

abbrev pub same_side : Side → Side → Bool
same_side Side.invalid Side.invalid = true
same_side Side.buy Side.buy = true
same_side Side.sell Side.sell = true
same_side Side.max Side.max = true
same_side _ _ = false

-- `static_cast<u32>(side) + 1`: SELL, which is -1, goes to 2 ^ 32 - 1 and wraps to 0.
unfoldable pub side_to_index : Side → ℕ
side_to_index Side.invalid = u32 (0 + 1)
side_to_index Side.buy = u32 (1 + 1)
side_to_index Side.sell = u32 (2 ^ 32 - 1 + 1)
side_to_index Side.max = u32 (2 + 1)

-- `SideToValue`
abbrev pub side_to_value : Side → ℤ
side_to_value Side.invalid = pos 0
side_to_value Side.buy = pos 1
side_to_value Side.sell = negsuc 0
side_to_value Side.max = pos 2

unfoldable pub side_to_string : Side → String
side_to_string Side.invalid = "INVALID"
side_to_string Side.buy = "BUY"
side_to_string Side.sell = "SELL"
side_to_string Side.max = "MAX"

-- `OrderIdToString` and its like: `to_string` is `std::to_string`.
module _ (to_string : ℕ → String) where
  unfoldable pub order_id_to_string : ℕ → String
  order_id_to_string n = if n == order_id_invalid then "INVALID" else to_string n

  unfoldable pub ticker_id_to_string : ℕ → String
  ticker_id_to_string n = if n == ticker_id_invalid then "INVALID" else to_string n

  unfoldable pub client_id_to_string : ℕ → String
  client_id_to_string n = if n == client_id_invalid then "INVALID" else to_string n

  unfoldable pub price_to_string : ℕ → String
  price_to_string n = if n == price_invalid then "INVALID" else to_string n

  unfoldable pub quantity_to_string : ℕ → String
  quantity_to_string n = if n == quantity_invalid then "INVALID" else to_string n

  unfoldable pub priority_to_string : ℕ → String
  priority_to_string n = if n == priority_invalid then "INVALID" else to_string n
