-- ===== src/Lib.antt =====
-- low-latency: a model of the exchange (exchange/) and of the trading client (trading/), with the
-- pools, queues, sockets, log and types that both use (common/).
--
-- The parts. Clients send requests to the order server, which checks and numbers them and gives
-- them to the FIFO sequencer; the matching engine takes them from a queue, hands each to the book
-- of its ticker, and answers by two queues: responses, which the order server sends back, and
-- market updates, which the publisher numbers, sends and passes on to the snapshot synthesizer. A
-- client's market data consumer receives the updates, and snapshots after a gap; its order gateway
-- sends requests and receives responses. The trade engine keeps a book for each ticker, features,
-- positions and orders, and an algorithm moves the orders.
--
-- Prelude       what a run of C++ is: a command takes a state and ends with a value and a state,
--               with a fault (a null pointer, an index out of range, an uncaught exception, a failed
--               check), or out of fuel. Ensures is partial and Returns total correctness of a
--               run.
-- Common        common/: Types.h, Limits.h, MemoryPool.h, SafeQueue.h, MarketUpdate.h, and the
--               messages of exchange/order_server/ClientRequest.h and ClientResponse.h. A pointer
--               into a pool is the index of its block; nullptr is none. Logger (Logger.h: Log is
--               log, FlushQueue is flush_queue), SocketUtils (CreateSocket), TcpSocket, McastSocket
--               and TcpServer (Listen, Poll, RecvAndSend) are the code around the system calls.
-- Ladder        the intrusive lists of orders and prices, which exchange/matcher/MEOrderBook.cpp and
--               trading/strategy/MarketOrderBook.cpp keep by the same code. Rings, Levels and
--               Insertion read the ring of the prices of a side as a list; Prices, Entering, Ordered
--               and Emptying are on what AddOrdersAtPrice and RemoveOrdersAtPrice do to that list.
-- Exchange      MeOrderBook (Match, which nothing calls, CheckForMatch, Add, Cancel), MatchingEngine, FifoSequencer,
--               OrderServer, MarketDataPublisher and SnapshotSynthesizer, one file for each
--               class; Shutdown is the signal handler of exchange/main.cpp.
-- Trading       MarketOrderBook (OnMarketUpdate, UpdateBestBidOffer), OrderManager, RiskManager,
--               PositionKeeper, FeatureEngine, Strategies (MarketMaker, LiquidityTaker),
--               OrderGateway, MarketDataConsumer and TradeEngine; RandomClient is the reading of
--               arguments and the random client of trading/main.cpp.
-- Tests         each theorem at a concrete input.
--
-- A definition has the name of its function in snake case: add_orders_at_price is
-- AddOrdersAtPrice. The theorems on a part stand in its child modules.
--
-- Words of 32 and 64 bits are numbers, with their wrap-around written out; a sum, product or
-- absolute value of int32_t goes round too, where C++ leaves an overflow open. double is an interface
-- (Common/Double); std::sort and std::to_string are parameters. Memory that no constructor sets is
-- a parameter of the constructor (`garbage`).
--
-- Fuel. The search of a pool gets one round more than the pool has blocks, which is enough when a
-- block is free (allocate_within takes any fuel, allocate that one); the walks along a ring get the size of their pool. The other loops take their
-- fuel as an argument: queues are drained with one round more than they hold elements; for
-- CheckForMatch and the loop over responses the theorems speak of every amount of fuel.
--
-- The clock. What GetCurrentNanos returns is a parameter: two readings in a round of the
-- synthesizer, a sequence of them in the trade engine. It is taken not to go back.
--
-- Not modelled: what the operating system does with a socket (what its calls return is a parameter),
-- the options of sockets, and in the parts above the sockets the buffers below whole messages;
-- threads (each queue method is one step, and the queues between threads are fields of the state);
-- what is logged (except the texts of a level and an order in Add, whose evaluation reads memory);
-- the macros of common/Check.h, which print and stop; and of the two main programs what only
-- constructs, starts and stops the parts.
pub mod Prelude
pub mod Common
pub mod Ladder
pub mod Exchange
pub mod Trading
pub mod Tests
