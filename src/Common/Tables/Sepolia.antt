-- ===== src/Common/Tables/Sepolia.antt =====
-- web3-eth-accounts/src/common/chains: a standard chain, without genesis block and nodes.
use electroneum_web3_js.Base.{List, [], ◌∷◌, none, some}
use electroneum_web3_js.Text.{lit}
use electroneum_web3_js.Common.{Hardfork, ChainConfig}

abbrev pub sepolia_hardforks : List Hardfork
sepolia_hardforks =
    record {
      name = lit "chainstart";
      block = some 0;
      ttd = none;
      timestamp = none;
      fork_hash = some (lit "0xfe3366e7");
    }
    ∷ record {
      name = lit "homestead";
      block = some 0;
      ttd = none;
      timestamp = none;
      fork_hash = some (lit "0xfe3366e7");
    }
    ∷ record {
      name = lit "tangerineWhistle";
      block = some 0;
      ttd = none;
      timestamp = none;
      fork_hash = some (lit "0xfe3366e7");
    }
    ∷ record {
      name = lit "spuriousDragon";
      block = some 0;
      ttd = none;
      timestamp = none;
      fork_hash = some (lit "0xfe3366e7");
    }
    ∷ record {
      name = lit "byzantium";
      block = some 0;
      ttd = none;
      timestamp = none;
      fork_hash = some (lit "0xfe3366e7");
    }
    ∷ record {
      name = lit "constantinople";
      block = some 0;
      ttd = none;
      timestamp = none;
      fork_hash = some (lit "0xfe3366e7");
    }
    ∷ record {
      name = lit "petersburg";
      block = some 0;
      ttd = none;
      timestamp = none;
      fork_hash = some (lit "0xfe3366e7");
    }
    ∷ record {
      name = lit "istanbul";
      block = some 0;
      ttd = none;
      timestamp = none;
      fork_hash = some (lit "0xfe3366e7");
    }
    ∷ record {
      name = lit "muirGlacier";
      block = some 0;
      ttd = none;
      timestamp = none;
      fork_hash = some (lit "0xfe3366e7");
    }
    ∷ record {
      name = lit "berlin";
      block = some 0;
      ttd = none;
      timestamp = none;
      fork_hash = some (lit "0xfe3366e7");
    }
    ∷ record {
      name = lit "london";
      block = some 0;
      ttd = none;
      timestamp = none;
      fork_hash = some (lit "0xfe3366e7");
    }
    ∷ record {
      name = lit "merge";
      block = some 1450409;
      ttd = some 17000000000000000;
      timestamp = none;
      fork_hash = some (lit "0xfe3366e7");
    }
    ∷ record {
      name = lit "mergeForkIdTransition";
      block = some 1735371;
      ttd = none;
      timestamp = none;
      fork_hash = some (lit "0xb96cbd13");
    }
    ∷ record {
      name = lit "shanghai";
      block = none;
      ttd = none;
      timestamp = some 1677557088;
      fork_hash = some (lit "0xf7f9bc08");
    }
    ∷ []

abbrev pub sepolia : ChainConfig
sepolia = record {
  name = lit "sepolia";
  chain_id = 11155111;
  network_id = 11155111;
  default_hardfork = some (lit "merge");
  hardforks = sepolia_hardforks;
  consensus = record {
    kind = lit "pow";
    algorithm = lit "ethash";
    configs = (lit "ethash", []) ∷ [];
  };
}
