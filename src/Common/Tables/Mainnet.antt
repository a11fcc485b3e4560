-- ===== src/Common/Tables/Mainnet.antt =====
-- web3-eth-accounts/src/common/chains: a standard chain, without genesis block and nodes.
use electroneum_web3_js.Base.{List, [], ◌∷◌, none, some}
use electroneum_web3_js.Text.{lit}
use electroneum_web3_js.Common.{Hardfork, ChainConfig}

abbrev pub mainnet_hardforks : List Hardfork
mainnet_hardforks =
    record {
      name = lit "chainstart";
      block = some 0;
      ttd = none;
      timestamp = none;
      fork_hash = some (lit "0xfc64ec04");
    }
    ∷ record {
      name = lit "homestead";
      block = some 1150000;
      ttd = none;
      timestamp = none;
      fork_hash = some (lit "0x97c2c34c");
    }
    ∷ record {
      name = lit "dao";
      block = some 1920000;
      ttd = none;
      timestamp = none;
      fork_hash = some (lit "0x91d1f948");
    }
    ∷ record {
      name = lit "tangerineWhistle";
      block = some 2463000;
      ttd = none;
      timestamp = none;
      fork_hash = some (lit "0x7a64da13");
    }
    ∷ record {
      name = lit "spuriousDragon";
      block = some 2675000;
      ttd = none;
      timestamp = none;
      fork_hash = some (lit "0x3edd5b10");
    }
    ∷ record {
      name = lit "byzantium";
      block = some 4370000;
      ttd = none;
      timestamp = none;
      fork_hash = some (lit "0xa00bc324");
    }
    ∷ record {
      name = lit "constantinople";
      block = some 7280000;
      ttd = none;
      timestamp = none;
      fork_hash = some (lit "0x668db0af");
    }
    ∷ record {
      name = lit "petersburg";
      block = some 7280000;
      ttd = none;
      timestamp = none;
      fork_hash = some (lit "0x668db0af");
    }
    ∷ record {
      name = lit "istanbul";
      block = some 9069000;
      ttd = none;
      timestamp = none;
      fork_hash = some (lit "0x879d6e30");
    }
    ∷ record {
      name = lit "muirGlacier";
      block = some 9200000;
      ttd = none;
      timestamp = none;
      fork_hash = some (lit "0xe029e991");
    }
    ∷ record {
      name = lit "berlin";
      block = some 12244000;
      ttd = none;
      timestamp = none;
      fork_hash = some (lit "0x0eb440f6");
    }
    ∷ record {
      name = lit "london";
      block = some 12965000;
      ttd = none;
      timestamp = none;
      fork_hash = some (lit "0xb715077d");
    }
    ∷ record {
      name = lit "arrowGlacier";
      block = some 13773000;
      ttd = none;
      timestamp = none;
      fork_hash = some (lit "0x20c327fc");
    }
    ∷ record {
      name = lit "grayGlacier";
      block = some 15050000;
      ttd = none;
      timestamp = none;
      fork_hash = some (lit "0xf0afd0e3");
    }
    ∷ record {
      name = lit "merge";
      block = some 15537394;
      ttd = some 58750000000000000000000;
      timestamp = none;
      fork_hash = some (lit "0xf0afd0e3");
    }
    ∷ record {
      name = lit "mergeForkIdTransition";
      block = none;
      ttd = none;
      timestamp = none;
      fork_hash = none;
    }
    ∷ record { name = lit "shanghai"; block = none; ttd = none; timestamp = none; fork_hash = none }
    ∷ []

abbrev pub mainnet : ChainConfig
mainnet = record {
  name = lit "mainnet";
  chain_id = 1;
  network_id = 1;
  default_hardfork = some (lit "merge");
  hardforks = mainnet_hardforks;
  consensus = record {
    kind = lit "pow";
    algorithm = lit "ethash";
    configs = (lit "ethash", []) ∷ [];
  };
}
