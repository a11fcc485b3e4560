-- ===== src/Tests/Pieces.antt =====
-- Runs of the parser of chunks, with a `JSON.parse` that knows one text.
use electroneum_web3_js.Base.{
  ℕ, ◌≡◌, refl, [], ◌∷◌, ◌++◌, Bool, true, Option, none, some, if◌then◌else◌,
}
use electroneum_web3_js.Text.{Text, lit, text_eq}
use electroneum_web3_js.Chunks.{new_parser, dechunk, replace_matches, split_marker, parse_responses}
use electroneum_web3_js.Chunks.Pieces.{parse_responses-IsCut, parse_responses-stuck}

abbrev parse_one : Text → Option ℕ
parse_one t = if text_eq t (lit "{abcd}") then some 7 else none

abbrev truthy : ℕ → Bool
truthy n = true

-- Two objects in one piece, and a marker within a piece.
cut_objects : dechunk (lit "{a}{b}") ≡ lit "{a}" ∷ lit "{b}" ∷ []
unfolding dechunk replace_matches split_marker
cut_objects = refl

lost_marker : dechunk (lit "{a|--|b}") ≡ lit "{a" ∷ lit "b}" ∷ []
unfolding dechunk replace_matches split_marker
lost_marker = refl

parse_responses-IsCut_example :
    parse_responses parse_one truthy new_parser (lit "{a" ∷ lit "bc" ∷ lit "d}" ∷ [])
    ≡ (new_parser, 7 ∷ [])
unfolding dechunk replace_matches split_marker
parse_responses-IsCut_example =
    parse_responses-IsCut parse_one truthy (lit "{a") (lit "bc" ∷ lit "d}" ∷ []) 7
      (refl, (refl, (refl, tt))) (refl, (refl, refl)) refl

hopeless : (t : Text) → parse_one (lit "x" ++ t) ≡ none
hopeless t = refl

parse_responses-stuck_example :
    (parse_responses parse_one truthy
      (record { last_chunk = some (lit "xy"); has_timer = true })
      (lit "{abcd}" ∷ [])).1
    ≡ []
parse_responses-stuck_example =
    parse_responses-stuck parse_one truthy (lit "x") hopeless (lit "y") true (lit "{abcd}" ∷ [])
