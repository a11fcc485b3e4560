-- ===== src/Lib.antt =====
-- web3.js for Electroneum: the encoding of values for contracts (the packages web3-eth-abi,
-- web3-validator and web3-utils), the IBAN form of addresses (web3-eth-iban), the wallet and the
-- chain parameters (web3-eth-accounts), the checks of transactions (web3-eth), and the requests and
-- subscriptions of a connection (web3-core and web3-utils).
--
-- A value that a caller hands to a contract method (a JavaScript value) is turned into bytes by
-- `encodeParameters` and read from bytes by `decodeParameters`. Both walk the type of the
-- parameters, convert with the functions of web3-utils and test with those of web3-validator. A
-- transaction is checked by `validateTransactionForSigning` once `detectTransactionType` has given
-- it a type; the accounts that sign it stand in a `Wallet`, and the hardforks of its chain in
-- `Common`. Requests go out alone or in a batch; the responses come back in chunks, and the
-- messages of subscriptions by their ids.
--
-- - Base.antt, Digits.antt: lists and tests over the native numbers, errors as values, numerals.
-- - Text.antt, Text/Hex.antt: strings and hexadecimal (packages/web3-validator/src/utils.ts,
--   packages/web3-validator/src/validation/string.ts).
-- - Js.antt, Js/HexBytes.antt: JavaScript values; `toBigInt`, `toBool`, `bytesToUint8Array` of
--   packages/web3-utils/src/converters.ts.
-- - Address.antt: `isAddress`, `checkAddressCheckSum`
--   (packages/web3-validator/src/validation/address.ts), `toChecksumAddress`. `keccak256` and the
--   UTF-8 codec come from the package ethereum-cryptography: they are the fields of `Host`, of
--   which only one thing is asked, that the UTF-8 encoder returns bytes; Address/Bare asks of the
--   hash that it has 32 of them.
-- - Abi.antt, Abi/Number.antt, Abi/Bytes.antt, Abi/Types.antt, Abi/Coders.antt: the encoders and
--   decoders of packages/web3-eth-abi/src/coders, one definition for each function and loop
--   (`encodeNumber` is `encode_number`), with their round trips in the modules below.
-- - Units.antt: `ethUnitMap` and `fromWei` of packages/web3-utils/src/converters.ts.
-- - Iban.antt: packages/web3-eth-iban/src/iban.ts. `_mod9710` takes the number of its rounds, one
--   more than the text has characters, which is enough for digits: every round shortens the text.
-- - Dict.antt: a JavaScript `Map` as its entries in the order in which their keys were set.
-- - Wallet.antt, Wallet/Storage.antt: the class `Wallet` of
--   packages/web3-eth-accounts/src/wallet.ts. The accounts that an account provider creates,
--   encrypts and decrypts, and `JSON`, are the fields of `Provider`, of which decryption is asked
--   to read back what was encrypted, and `JSON.parse` what `JSON.stringify` wrote;
--   `window.localStorage` is a list of entries, or nothing where the browser has none. Calls that
--   return a promise are modelled by what the promise gives.
-- - Common.antt and the modules below it: the class `Common` of
--   packages/web3-eth-accounts/src/common/common.ts. Common/Tables holds the tables of its folders
--   eips, hardforks and chains. Common/Chains has the chains, the constructor and `setHardfork`,
--   Common/Params the parameters, the EIPs and the order of the hardforks, Common/Blocks the
--   hardfork of a block, Common/ForkHash the next hardfork and the fork hashes over a checksum that
--   is given (the package crc-32). A topic is none of the other keys of a table (name, status, and
--   the like), and a chain is not called names.
-- - Transaction.antt: packages/web3-eth/src/validation.ts, with the tests on members in
--   Transaction/Shape, and in Transaction/Kind the inference of the type
--   (packages/web3-eth/src/utils/detect_transaction_type.ts). Numbers are integers, before
--   `formatTransaction`, which is given, and behind it, where the code has hexadecimal strings;
--   chain ids that `===` compares have one type.
-- - Subscriptions.antt: the subscription manager
--   (packages/web3-core/src/web3_subscription_manager.ts) with the ids of the subscription objects
--   (packages/web3-core/src/web3_subscriptions.ts). Each call runs to its end before the next one
--   starts.
-- - Batch.antt: batches of requests (packages/web3-core/src/web3_batch_request.ts,
--   packages/web3-utils/src/json_rpc.ts, packages/web3-utils/src/web3_deferred_promise.ts). The
--   answer, a failed send and the timer are functions on the batch, which may run in any order;
--   `execute` of no requests, which returns at once, runs none.
-- - Chunks.antt: packages/web3-utils/src/chunk_response_parser.ts. `JSON.parse` is a function that
--   is given, and so is the test whether its value is truthy.
-- - Tests.antt: runs at concrete values.
--
-- A parameter's type is a name in the source and here the tree that the coders read off the name. A
-- Uint8Array is a list of numbers, a string a list of UTF-16 code units, a thrown error a value of
-- `Error`. `Uint8Array.subarray` is `drop` and `take`. Numbers are unbounded; the widths of the ABI
-- are the limits of `numberLimits`. Where the code looks a name up in an object that is no `Map`, a
-- name of a unit, chain, hardfork, topic or subscription is none that every object inherits
-- (constructor, toString); the name of a parameter may be one, which `value_of` models. The loops
-- run over the values or over a count, and stop with them; no definition but `mod_9710_loop` and
-- `digits_loop` takes fuel, and the `n + 1` rounds that `digits` gives the latter are always
-- enough. A JavaScript array has less than 2 ** 32 elements.
--
-- Not modelled: the parsing of type names, the validators over zod, providers, the request manager,
-- interleaved calls of the subscription manager, batches with UUIDs as ids, the building and
-- signing of transactions, contracts; `getStorage`, which probes the browser.
pub mod Base
pub mod Digits
pub mod Text
pub mod Dict
pub mod Js
pub mod Address
pub mod Abi
pub mod Units
pub mod Iban
pub mod Wallet
pub mod Common
pub mod Transaction
pub mod Subscriptions
pub mod Batch
pub mod Chunks
pub mod Tests
