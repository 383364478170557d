-- ===== src/Common/Limits.antt =====
-- common/Limits.h: the sizes of the fixed arrays and pools.
use low_latency.Prelude.{ℕ}

abbrev pub me_max_tickers : ℕ
me_max_tickers = 8

abbrev pub me_max_client_updates : ℕ
me_max_client_updates = 1024

abbrev pub me_max_market_updates : ℕ
me_max_market_updates = 1024

abbrev pub me_max_num_clients : ℕ
me_max_num_clients = 256

abbrev pub me_max_order_ids : ℕ
me_max_order_ids = 1024

abbrev pub me_max_price_levels : ℕ
me_max_price_levels = 256

abbrev pub me_max_pending_requests : ℕ
me_max_pending_requests = 1024
