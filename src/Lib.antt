-- ===== src/Lib.antt =====
-- The SDK builds Solana transactions: keys and derived addresses, instructions for three programs,
-- the two message formats, signatures, and the wire bytes. This library models that code, with
-- readers of the wire formats as they are specified.
--
-- Parts and files. Paths are from the repository's root.
-- Base: names that all parts share, lists, bytes, and `Result`, in which an exception is a value.
-- Wire: `writeCompactU16` of src/solana/message.cpp and include/solana/borsh.h. Wire/Spec has
--   readers written from the format.
-- Base58: src/solana/base58.cpp. `Base58::encode` is `encode`, with the capacity of its vector;
--   `Base58::decode` is `decode`.
-- Sodium: the functions of libsodium, which are parameters, with what its manual documents.
-- PublicKey: src/solana/publicKey.cpp. `findProgramAddressSync` is `find_program_address`.
-- Keypair: src/solana/keypair.cpp.
-- Instruction: include/solana/instruction.h; the field `data` is `payload`.
-- Accounts: the table `findOrAdd` keeps in both compilers.
-- Message: src/solana/message.cpp. `Message::compile` fills the table from all instructions, counts
--   flags, and replaces keys by indices; `Message::serialize` writes the wire bytes.
-- LookupTable: src/solana/address_lookup_table.cpp.
-- Lookups, MessageV0: src/solana/message_v0.cpp, its first pass and then the rest.
-- Base64: `base64Encode` of src/solana/transaction.cpp, `base64DecodeRpc` of
--   src/solana/rpc_client.cpp.
-- Transaction: src/solana/transaction.cpp; `sign` serializes the message and puts each signature
--   into the slot of its key.
-- Programs: the builders of src/solana/programs.
-- Json: src/solana/json.cpp. A value is a view of the text it was parsed from; Json/Access and
--   Json/Numbers have the accessors, Json/Print the JSON documents as trees with their compact text.
-- Rpc: src/solana/rpc_client.cpp, from the endpoint (Rpc) over the HTTP exchange (Rpc/Http) and the
--   request bodies (Rpc/Requests) to the methods (Rpc/Methods). `parseAccountInfoNode` reads the
--   values of Json and the base64 of Base64; `getAddressLookupTable` calls the parser of LookupTable.
-- Bip39: src/solana/bip39.cpp.
-- Demos: the programs of examples. A run is what a program prints and how it ends; OfflineSign,
--   TransferSol, V0Transaction, SplTokenTransfer and DerivedAddresses have the programs, the other
--   files their theorems. Transaction/EndToEnd and EndToEndV0 put compile, sign and toBase64 together.
-- Examples: the theorems at concrete inputs.
--
-- Conventions. Bytes, characters and indices are natural numbers, and each cast or wrap of the source
-- is written out (`u8`, `u16`, `u32`). Undefined behaviour is an error value of its own. A loop is
-- recursion on the list it walks, or on the number of rounds left where the source bounds it: three
-- rounds of seven bits use up a `uint16_t`, eight rounds a `uint64_t`, six rounds of base 58 or four
-- of base 256 an `unsigned int`, and there are 256 bump seeds.
--
-- The loops of the JSON accessors that may stand still are recursion on fuel, one more than the bytes
-- of the text: a round that moves takes a byte away. confirmTransaction takes its rounds, each with the
-- time and the network it meets, as a list; 20 digits hold every number below 2 ^ 64.
--
-- Parameters: the functions of libsodium, and for each request what the calls of the sockets and of
-- OpenSSL answer (`Network`); a program of examples has one for each of its calls (`Session`). So are
-- the type double with strtod, the text that a number of lamports divided by 1e9 is printed as, and
-- what the compiler makes of a signed shift whose result does not fit (`Compiler`): C++17 leaves it
-- undefined, and GCC documents that it wraps (`IsWrapping`). Nothing is said of the host's clock.
--
-- Not modelled: the messages of the exceptions, which a run keeps as values; lines that a program
-- prints in part before an exception; the unit tests in tests, and the build files.
pub mod Base
pub mod Wire
pub mod Base58
pub mod Sodium
pub mod PublicKey
pub mod Keypair
pub mod Instruction
pub mod Accounts
pub mod Message
pub mod LookupTable
pub mod Lookups
pub mod Base64
pub mod MessageV0
pub mod Transaction
pub mod Programs
pub mod Json
pub mod Rpc
pub mod Bip39
pub mod Demos
mod Examples
