-- ===== src/Trading/RandomClient/Arguments.antt =====
-- Which command lines trading/main.cpp gets through.
use low_latency.Prelude.{
  ℕ, zero, suc, ◌+◌, ◌*◌, ◌≡◌, refl, List, [], ◌∷◌, length, arith, fault, out_of_range,
}
use low_latency.Trading.RiskManager.{TradeEngineConfig}
use low_latency.Trading.RandomClient.{read_arguments}

module _ {A F : Type 0} (read_config : (a b c d e : A) → TradeEngineConfig F) where
  -- A command line as the usage text asks for, the name, the client, the algorithm and then groups
  -- of five, makes the reading of arguments run past the end of `argv`.
  pub read_arguments-usage :
      (k : ℕ) (as_ : List A) (config : ℕ → TradeEngineConfig F)
      → length as_ ≡ 3 + 5 * k
      → read_arguments read_config as_ config ≡ fault out_of_range
  unfolding read_arguments
  read_arguments-usage zero [] config h = absurd (omega (arith, h))
  read_arguments-usage zero (a ∷ []) config h = refl
  read_arguments-usage zero (a ∷ b ∷ []) config h = refl
  read_arguments-usage zero (a ∷ b ∷ c ∷ []) config h = refl
  read_arguments-usage zero (a ∷ b ∷ c ∷ d ∷ []) config h = refl
  read_arguments-usage zero (a ∷ b ∷ c ∷ d ∷ e ∷ as_) config h = absurd (omega (arith, h))
  read_arguments-usage (suc k) [] config h = absurd (omega (arith, h))
  read_arguments-usage (suc k) (a ∷ []) config h = refl
  read_arguments-usage (suc k) (a ∷ b ∷ []) config h = refl
  read_arguments-usage (suc k) (a ∷ b ∷ c ∷ []) config h = refl
  read_arguments-usage (suc k) (a ∷ b ∷ c ∷ d ∷ []) config h = refl
  read_arguments-usage (suc k) (a ∷ b ∷ c ∷ d ∷ e ∷ as_) config h =
      read_arguments-usage k as_ _ (omega (arith, h))
