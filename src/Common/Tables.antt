-- ===== src/Common/Tables.antt =====
-- The tables that the class `Common` of web3-eth-accounts/src/common reads.
pub mod Eip2537
pub mod EarlyEips
pub mod LaterEips
pub mod Eips
pub mod Chainstart
pub mod Specs
pub mod Mainnet
pub mod Goerli
pub mod Sepolia
