-- ===== src/Chunks.antt =====
-- web3-utils/src/chunk_response_parser.ts: JSON texts that arrive in pieces, over `JSON.parse`, which is
-- a function that is given (`none` where it throws).
pub mod Pieces
use electroneum_web3_js.Base.{
  ℕ, zero, suc, ◌+◌, ◌-◌, List, [], ◌∷◌, ◌++◌, Bool, true, false, not, ◌&&◌, ◌||◌, Option, none,
  some, if◌then◌else◌, ◌==◌, length, drop,
}
use electroneum_web3_js.Text.{Text, lit, starts_with, is_nil}

abbrev pub marker : Text
marker = lit "|--|"

-- `[\n\r]` in front of a text.
abbrev after_line_end : Text → Text → Bool
after_line_end post [] = false
after_line_end post (c ∷ t) = (c == 10 || c == 13) && starts_with post t

-- The length of a match of a first part, a line end or nothing, and a second part.
abbrev match_length : Text → Text → Text → Option ℕ
match_length pre post t =
    if not (starts_with pre t)
    then none
    else if starts_with post (drop (length pre) t)
    then some (length pre + length post)
    else if after_line_end post (drop (length pre) t)
    then some (length pre + length post + 1)
    else none

-- `replace` of all matches: the first argument is what is left of a match.
unfoldable pub replace_matches : ℕ → Text → Text → Text → Text
replace_matches skip pre post [] = []
replace_matches (suc skip) pre post (c ∷ t) = replace_matches skip pre post t
replace_matches zero pre post (c ∷ t) = elim (match_length pre post (c ∷ t)) [
  | none ↦ c ∷ replace_matches 0 pre post t
  | some n ↦ pre ++ marker ++ post ++ replace_matches (n - 1) pre post t
]

-- `split('|--|')`, behind the piece that is being read.
unfoldable pub split_marker : ℕ → Text → Text → List Text
split_marker skip piece [] = piece ∷ []
split_marker (suc skip) piece (c ∷ t) = split_marker skip piece t
split_marker zero piece (c ∷ t) =
    let ends = split_marker 3 [] t in
    let goes_on = split_marker 0 (piece ++ (c ∷ [])) t in
    if starts_with marker (c ∷ t) then piece ∷ ends else goes_on

unfoldable pub dechunk : Text → List Text
dechunk data_ = split_marker 0 [] (
    replace_matches 0 (lit "}]") (lit "{") (
      replace_matches 0 (lit "}") (lit "[{")
        (replace_matches 0 (lit "}]") (lit "[{") (replace_matches 0 (lit "}") (lit "{") data_))))

-- The member `lastChunk`, and whether its timer runs.
pub record Parser : Type 0 where
  pub last_chunk : Option Text
  pub has_timer : Bool

abbrev pub new_parser : Parser
new_parser = record { last_chunk = none; has_timer = false }

abbrev pub prepend : Option Text → Text → Text
prepend none chunk = chunk
prepend (some last) chunk = last ++ chunk

module _ {J : Type 0} (parse : Text → Option J) (is_truthy : J → Bool) where
  abbrev push : J → List J → List J
  push result results = if is_truthy result then result ∷ results else results

  -- The loop over the pieces.
  unfoldable pub parse_chunks : Parser → List Text → Parser × List J
  parse_chunks p [] = (p, [])
  parse_chunks p (chunk ∷ chunks) =
      let text = prepend p.last_chunk chunk in
      elim (parse text) [
        | none ↦ parse_chunks (record { last_chunk = some text; has_timer = true }) chunks
        | some result ↦
            let (last, results) = parse_chunks new_parser chunks in (last, push result results)
      ]

  unfoldable pub parse_response : Parser → Text → Parser × List J
  parse_response p data_ = parse_chunks p (dechunk data_)

  -- One call after the other, with all that they return.
  unfoldable pub parse_responses : Parser → List Text → Parser × List J
  parse_responses p [] = (p, [])
  parse_responses p (data_ ∷ rest) =
      let (next, results) = parse_response p data_ in
      let (last, others) = parse_responses next rest in (last, results ++ others)

-- The timer: does it clear the queues and emit an error? The last chunk stays.
unfoldable pub chunk_timeout : Bool → Parser → Parser × Bool
chunk_timeout auto_reconnect p = (record p { has_timer = false }, not auto_reconnect)
