-- ===== src/Common/Tables/Goerli.antt =====
-- web3-eth-accounts/src/common/chains: a standard chain, without genesis block and nodes.
use electroneum_web3_js.Base.{List, [], ◌∷◌, none, some}
use electroneum_web3_js.Text.{lit}
use electroneum_web3_js.Common.{Hardfork, ChainConfig}

abbrev pub goerli_hardforks : List Hardfork
goerli_hardforks =
    record {
      name = lit "chainstart";
      block = some 0;
      ttd = none;
      timestamp = none;
      fork_hash = some (lit "0xa3f5ab08");
    }
    ∷ record {
      name = lit "homestead";
      block = some 0;
      ttd = none;
      timestamp = none;
      fork_hash = some (lit "0xa3f5ab08");
    }
    ∷ record {
      name = lit "tangerineWhistle";
      block = some 0;
      ttd = none;
      timestamp = none;
      fork_hash = some (lit "0xa3f5ab08");
    }
    ∷ record {
      name = lit "spuriousDragon";
      block = some 0;
      ttd = none;
      timestamp = none;
      fork_hash = some (lit "0xa3f5ab08");
    }
    ∷ record {
      name = lit "byzantium";
      block = some 0;
      ttd = none;
      timestamp = none;
      fork_hash = some (lit "0xa3f5ab08");
    }
    ∷ record {
      name = lit "constantinople";
      block = some 0;
      ttd = none;
      timestamp = none;
      fork_hash = some (lit "0xa3f5ab08");
    }
    ∷ record {
      name = lit "petersburg";
      block = some 0;
      ttd = none;
      timestamp = none;
      fork_hash = some (lit "0xa3f5ab08");
    }
    ∷ record {
      name = lit "istanbul";
      block = some 1561651;
      ttd = none;
      timestamp = none;
      fork_hash = some (lit "0xc25efa5c");
    }
    ∷ record {
      name = lit "berlin";
      block = some 4460644;
      ttd = none;
      timestamp = none;
      fork_hash = some (lit "0x757a1c47");
    }
    ∷ record {
      name = lit "london";
      block = some 5062605;
      ttd = none;
      timestamp = none;
      fork_hash = some (lit "0xb8c6299d");
    }
    ∷ record {
      name = lit "merge";
      block = some 7382819;
      ttd = some 10790000;
      timestamp = none;
      fork_hash = some (lit "0xb8c6299d");
    }
    ∷ record {
      name = lit "mergeForkIdTransition";
      block = none;
      ttd = none;
      timestamp = none;
      fork_hash = none;
    }
    ∷ record { name = lit "shanghai"; block = none; ttd = none; timestamp = none; fork_hash = none }
    ∷ []

abbrev pub goerli : ChainConfig
goerli = record {
  name = lit "goerli";
  chain_id = 5;
  network_id = 5;
  default_hardfork = some (lit "merge");
  hardforks = goerli_hardforks;
  consensus = record {
    kind = lit "poa";
    algorithm = lit "clique";
    configs = (lit "clique", (lit "period", 15) ∷ (lit "epoch", 30000) ∷ []) ∷ [];
  };
}
