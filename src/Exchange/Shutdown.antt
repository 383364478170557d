-- ===== src/Exchange/Shutdown.antt =====
-- The signal handler of exchange/main.cpp: in which order the parts of the exchange are deleted.
-- `exit`, which it ends with, is left out, so what a second signal finds is the state after the
-- first.
use low_latency.Prelude.{Bool, true, false, ◌≡◌, List, [], ◌∷◌, ◌++◌, if◌then◌else◌, arith}

pub data Part : Type 0 where
  market_data_publisher order_server matching_engine logger : Part

-- The globals: whether the handler has begun, whether each pointer is not null, and which objects
-- have been deleted, in order.
pub record Globals : Type 0 where
  pub start_destroying : Bool
  pub has_publisher : Bool
  pub has_server : Bool
  pub has_engine : Bool
  pub has_logger : Bool
  pub deleted : List Part

-- One of the four tests of the handler.
abbrev pub deleted_if : Bool → Part → List Part
deleted_if b p = if b then p ∷ [] else []

-- `InterruptHandler`
unfoldable pub interrupt_handler : Globals → Globals
interrupt_handler g = if g.start_destroying then g else record {
  start_destroying = true;
  has_publisher = false;
  has_server = false;
  has_engine = false;
  has_logger = false;
  deleted =
      g.deleted
      ++ deleted_if g.has_publisher market_data_publisher
      ++ deleted_if g.has_server order_server
      ++ deleted_if g.has_engine matching_engine
      ++ deleted_if g.has_logger logger;
}

-- A second signal changes nothing: no part is deleted twice.
interrupt_handler-interrupt_handler :
    (g : Globals) → interrupt_handler (interrupt_handler g) ≡ interrupt_handler g
unfolding interrupt_handler
interrupt_handler-interrupt_handler g = ground arith
