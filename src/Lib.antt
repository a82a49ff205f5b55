-- ===== src/Lib.antt =====
-- The electronic trading ecosystem: an exchange (exchange/) and a client of it (trading_system/), on
-- shared building blocks (common/). Clients send requests over TCP to the order server, whose
-- sequencer puts them in the order of their arrival and writes them to a queue. The matching engine
-- takes a request off that queue, runs it against the order book of its ticker, and writes responses
-- and market updates to two further queues. The order server sends the responses back; the market data
-- publisher sends the updates by multicast, and the snapshot synthesizer the live orders. At the
-- client, the order gateway sends requests and takes responses, the market data consumer takes updates
-- and recovers from gaps, the market order book rebuilds the book, the order manager holds one order
-- per ticker and side, and the position keeper and the risk manager watch the position.
--
-- Which file models which part:
--   Base, Base/Faults, Base/Int: tests and lists over the native numbers; ASSERT, FATAL and undefined
--     behaviour as values (common/macros.h); `int32_t`. Base/Text, Base/Text/Fields, Base/Buffer and
--     Base/Pointers: decimal prints, texts of labelled fields, `memcpy`, and vectors of pointers.
--   Common/LfQueue: common/lf_queue.h; Fifo and Client are the list that it refines, Overrun a full one.
--   Common/Logging: common/logging.h; Format is about log, Output about flushQueue behind it.
--   Common/TcpSocket: common/tcp_socket.h, tcp_socket.cpp; Sending is what the kernel gets, Connecting
--     has destory and connect.
--   Common/TcpServer: common/tcp_server.h, tcp_server.cpp; Lists is about any run, Serving about a poll.
--   Common/SocketUtils, Common/MulticastSocket: common/socket_utils.h, socket_utils.cpp,
--     multicast_socket.h, multicast_socket.cpp; Creating is about createSocket, Listening and
--     Listener about a listening socket.
--   Common/MemPool: common/mem_pool.h; Search is the loop of updateNextFreeIndex, Lifetime whole runs.
--   Common/Types, Common/Printing, Common/Wire: common/common_types.h, common/constraints.h; the layout
--     of a message.
--   Exchange/Messages: exchange/order_server/client_request.h, client_response.h,
--     exchange/market_data/market_update.h; Printing has their toString, Reading reads a response back.
--     OrderBook/Printing, MarketOrderBook/Printing and OrderManager/Printing print the orders
--     (exchange/matcher/me_order.cpp, trading_system/strategy/market_order.cpp, order_manager_order.h).
--   Exchange/OrderBook: exchange/matcher/me_order_book.h, me_order_book.cpp, me_order.h; Levels has
--     addOrdersAtPrice and removePriceLevel, Orders addOrder and removeOrder, Matching match
--     and checkForMatch, Requests add and cancel; Heads and Quiet are about the null heads, Placing and
--     Entering about an order that enters the book, Answers and
--     Removal about matches and cancellations in any state, Rings and Priority about the orders of a level
--     as a list: Append, Rising and Resting about one that comes, Unlink and Leaving about one that goes.
--   Exchange/MatchingEngine: exchange/matcher/matching_engine.h, matching_engine.cpp
--     (processClientRequest, run).
--   Exchange/Sequencer: exchange/order_server/fifo_sequencer.h.
--   Exchange/OrderServer: exchange/order_server/order_server.h, order_server.cpp (recvCallback, run).
--   Exchange/SnapshotSynthesizer: exchange/market_data/snapshot_synthesizer.h,
--     snapshot_synthesizer.cpp; View is the table of orders that it stands for, Updates and Feed what
--     the updates do to it, Numbering the messages of a snapshot.
--   Exchange/MarketDataPublisher: exchange/market_data/market_data_publisher.h, market_data_publisher.cpp.
--   Exchange/System: exchange_main.cpp; Queues, Ends and Unfilled are about every state that the threads'
--     steps reach.
--   Trading/FeatureEngine: trading_system/strategy/feature_engine.h, feature_engine.cpp.
--   Trading/OrderGateway: trading_system/order_gw/order_gateway.h, order_gateway.cpp.
--   Trading/MarketDataConsumer: trading_system/market_data/market_data_consumer.h,
--     market_data_consumer.cpp.
--   Trading/MarketOrderBook: trading_system/strategy/market_order.h, market_order_book.h,
--     market_order_book.cpp.
--   Trading/OrderManager: trading_system/strategy/order_manager.h, order_manager.cpp,
--     order_manager_order.h.
--   Trading/PositionInfo: trading_system/strategy/position_info.h, position_keeper.h.
--   Trading/RiskManager: trading_system/strategy/risk_manager.h, risk_manager.cpp.
--
-- State is a record, passed on explicitly; an operation that may end the process or leave the language
-- gives an `Outcome`. A pointer into a pool is a block's index, an array is a function on indices, and
-- the arrays' bounds are those of `Limits`, which the theorems leave open. Numbers of 32 and 64 bits
-- wrap by a remainder. `double` and `std::sort` are parameters, the former with its operations only and
-- the latter with its contract; so is the layout of a message in memory. An enum that a message carries
-- has a constructor `unnamed` for the bytes that are none of its enumerators'. Arrays that a constructor
-- leaves unwritten are arguments: what the memory holds.
--
-- Fuel: a search of a pool has `size + 1` rounds, and each round moves on by a block; a receive loop of
-- the server has one round more than there are bytes, and each round consumes some; the loops that
-- empty a queue have the number of rounds as an argument, and their theorems give it. The walk round
-- the levels has one round more than there are levels. The gateway's receive loop has no bound in the
-- source, and its fuel is the number of rounds that are looked at; so is that of the TCP socket's send
-- loop, whose theorems give the rounds that are enough and those that are not. A pass of the logger has
-- one round more than there are elements on its queue.
--
-- Not modelled: threads and clocks (common/thread_utils.h, time_utils.h), which wrap calls of the system;
-- of exchange_main.cpp the start and end of the threads; benchmarks and tests. The prints of doubles
-- (RiskCfg, TradeEngineCfg, PositionInfo) are left out, and so are the calls of the log within the other
-- parts.
pub mod Base
pub mod Common
pub mod Exchange
pub mod Trading
