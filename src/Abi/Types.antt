-- ===== src/Abi/Types.antt =====
-- ABI parameters. The source keeps a type as its name; here it is what the coders read off the name
-- (`endsWith(']')`, `startsWith('bytes')`, `extractArrayType`, `split('bytes')`).
use electroneum_web3_js.Base.{ℕ, Bool, true, false, ◌||◌, Option, none, some}
use electroneum_web3_js.Text.{Text}
use electroneum_web3_js.Abi.Number.{NumberType}

mutual
  pub data AbiType : Type 0 where
    string bool address unknown : AbiType
    number : NumberType → AbiType
    bytes : Option ℕ → AbiType
    array : AbiType → Option ℕ → AbiType
    tuple : Params → AbiType

  -- The components of a tuple, each with its name.
  pub data Params : Type 0 where
    nil : Params
    param : Text → AbiType → Params → Params

-- `isDynamic`
unfoldable mutual
  pub is_dynamic : AbiType → Bool
  is_dynamic string = true
  is_dynamic bool = false
  is_dynamic address = false
  is_dynamic unknown = false
  is_dynamic (number t) = false
  is_dynamic (bytes none) = true
  is_dynamic (bytes (some n)) = false
  is_dynamic (array t none) = true
  is_dynamic (array t (some n)) = is_dynamic t
  is_dynamic (tuple ps) = any_dynamic ps

  pub any_dynamic : Params → Bool
  any_dynamic nil = false
  any_dynamic (param name t ps) = is_dynamic t || any_dynamic ps
