-- ===== src/Lib.antt =====
-- The node of OHIE: parallel chains of blocks, their confirmation, and transactions that age.
--
-- A node receives blocks from its peers and adds them to CHAINS parallel chains. The data of a block
-- comes first and spreads at once; its transactions, the full block, are asked for afterwards. A
-- miner builds on the last blocks of all chains by a Merkle tree, and the hash of the new block says
-- to which chain it goes. The blocks that lie deep enough in all chains are confirmed by their rank.
-- Transactions are promised by their age alone, or by the commit of a block that holds them.
--
-- Base, StdMap: shared names, tests, lists, the rules for steps that can fail; `std::map` as an
--   association list in the order of its keys.
-- Config: the variables of code/configuration.cpp that the other files read; Reader is the reader of the
--   configuration file, `set_configuration`.
-- Text: `std::string` as a list of bytes; `split`, `safe_stoi` and `safe_stoull` of code/misc.cpp, and
--   the standard library's number conversions as far as the code relies on them.
-- Crypto: the texts of hashes and signatures in code/crypto_stuff.cpp.
-- Verify: code/verify.cpp, block hashes as text, Merkle trees and proofs.
-- Blockchain: code/Blockchain.cpp and code/Blockchain.hpp. HashTree is the search tree of the `left`
--   and `right` links, Links the tree of the `child`, `sibling` and `parent` links; State has the
--   types and the store of blocks, which both trees and `deepest` name by address; Incomplete the
--   chains whose root has not arrived; Receive `add_received_block`; Full the requests for
--   full blocks and their arrival; Commit `update_blocks_commited_time`; Start the constructor;
--   Reach the states that all these calls lead to.
-- Transactions: code/transactions.cpp. State has the tables, Receive the transactions that come
--   alone or in a block, Promise the aging monitor, the commits, what a promise sets free, and the
--   share of the mempool that a miner takes; Create a round of `transaction_creator`, Created and
--   Entered what a peer makes of it, Arriving and Spent keys that are met more than once.
-- Miner: `mine_new_block` of code/miner.cpp, and the tests of a full block in code/process_buffer.cpp;
--   Loop is the thread `miner`.
-- Server: the peers, the pings, the queue of messages to one peer, which queues a message goes to
--   (Writes), and the connections to peers with `get_ip` (Connect), in code/MyServer.cpp.
-- Requests: the messages of code/requests.cpp and their readers; Payload has `full_block` and
--   `transactions`.
-- Handler: code/process_buffer.cpp. State is what a message can change, and what is sent; Blocks has
--   one function per message about blocks and pings, Gossip the message `transactions`, Full the
--   message `full_block`, Stream the buffer of a connection and the loop over its messages,
--   `process_buffer`; Reach leads each of them back to the calls of the blockchain.
-- Network: `run_network` of code/MyServer.cpp, the requests, the confirmation and the pings that a timer
--   calls for; Hashes is the file of hashes that it can write, and Round the whole call, with the
--   connections to peers, the numbers of blocks that are printed (Blockchain/Totals), and that file.
-- Node: the steps of the threads that code/node.cpp starts, in any order, on one state.
-- Connection: the connections that peers open, in code/MyServer.cpp: Accept which of them are taken up,
--   Chunks a stream that arrives in several reads, and Cuts where they cut it.
-- Startup: `main` of code/node.cpp, with the constructor of `tcp_server`: the arguments and the file of
--   peers, Peers the choice of peers at random, Main the whole start, up to the first state of Node.
--
-- An operation of the source that holds its mutexes throughout is one step, a function from the state
-- before to the state after; the time of the clock is an argument. `none` is a fault: an exception, a
-- read through `NULL` or past the end of a vector. A path that returns with a mutex locked says so
-- in its result. Numbers are natural numbers; where the code's arithmetic wraps, or subtracts, the
-- width is written out, but for counters of 64 bits that go up one by one. The miner gives the mutex
-- of the mempool back between two transactions: what the other threads do to the tables then is an
-- argument, and so is what they do while it sleeps.
--
-- Fuel: `root_loop` and `proof_loop` get the number of leaves, which is more than the rounds, as each
-- round halves them; `to_digits` gets 20 digits for a decimal and 16 for a hexadecimal number, enough
-- for 64 bits; `miner` gets as many calls as there are sleeps. The loop over the file of peers runs on
-- the list of the numbers that are drawn.
--
-- Parameters: `sha256`, in Crypto the digest and the curve of OpenSSL, `strtol`, `trim` of Boost, the
-- resolver `get_ip`, `atoi`, the floating-point expressions for the size of the Merkle tree and the
-- length of its proofs, what `malloc` and `new` leave in a block, the clock, the random numbers.
--
-- Not modelled: the sockets of code/MyServer.cpp and the queues of Boost (a read gives bytes or an
-- error), the key and the curve of code/crypto_stuff.cpp (calls of OpenSSL), the files of timings and
-- of pings, printing but for the numbers of blocks, the average of promise times (a `double`),
-- code/MersenneTwister.h, and the deployment scripts.
pub mod Base
pub mod StdMap
pub mod Config
pub mod Text
pub mod Crypto
pub mod Verify
pub mod Transactions
pub mod Blockchain
pub mod Miner
pub mod Server
pub mod Requests
pub mod Handler
pub mod Network
pub mod Node
pub mod Connection
pub mod Startup
