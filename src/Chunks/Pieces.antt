-- ===== src/Chunks/Pieces.antt =====
-- A JSON text in pieces, and a piece that no JSON text starts with.
use electroneum_web3_js.Base.{
  ◌≡◌, refl, ap, ◌∙◌, List, [], ◌∷◌, ◌++◌, append_assoc, Bool, true, Option, none, some, All,
}
use electroneum_web3_js.Text.{Text}
use electroneum_web3_js.Chunks.{
  Parser, new_parser, prepend, dechunk, parse_chunks, parse_response, parse_responses,
}

abbrev pub join : List Text → Text
join [] = []
join (t ∷ ts) = t ++ join ts

module _ {J : Type 0} (parse : Text → Option J) (is_truthy : J → Bool) where
  chunk_fails :
      (p : Parser) (chunk : Text) (chunks : List Text)
      → parse (prepend p.last_chunk chunk) ≡ none
      → parse_chunks parse is_truthy p (chunk ∷ chunks)
        ≡ parse_chunks parse is_truthy
            (record { last_chunk = some (prepend p.last_chunk chunk); has_timer = true })
            chunks
  unfolding parse_chunks
  chunk_fails p chunk chunks e = rw (parse_chunks, e) refl

  chunk_ends :
      (p : Parser) (chunk : Text) (result : J)
      → parse (prepend p.last_chunk chunk) ≡ some result
      → is_truthy result ≡ true
      → parse_chunks parse is_truthy p (chunk ∷ []) ≡ (new_parser, result ∷ [])
  unfolding parse_chunks
  chunk_ends p chunk result e truthy = rw (parse_chunks, e, truthy) refl

  -- No text up to the last piece can be parsed; together the pieces can.
  abbrev pub IsCut : Text → List Text → J → Type 0
  IsCut before [] result = Unit {0}
  IsCut before (t ∷ []) result = parse (before ++ t) ≡ some result
  IsCut before (t ∷ u ∷ ts) result =
      (parse (before ++ t) ≡ none) × IsCut (before ++ t) (u ∷ ts) result

  abbrev pub IsPiece : Text → Type 0
  IsPiece t = dechunk t ≡ t ∷ []

  rest_of_pieces :
      (before : Text) (timer : Bool) (t : Text) (ts : List Text) (result : J)
      → All IsPiece (t ∷ ts)
      → IsCut before (t ∷ ts) result
      → is_truthy result ≡ true
      → parse_responses parse is_truthy
          (record { last_chunk = some before; has_timer = timer })
          (t ∷ ts)
        ≡ (new_parser, result ∷ [])
  unfolding parse_responses parse_response parse_chunks
  rest_of_pieces before timer t [] result (piece, pieces) cut truthy =
      rw
        (
          parse_responses,
          parse_response,
          piece,
          chunk_ends (record { last_chunk = some before; has_timer = timer }) t result cut truthy,
        )
        refl
  rest_of_pieces before timer t (u ∷ ts) result (piece, pieces) (fails, cut) truthy =
      rw
        (
          parse_responses,
          parse_response,
          piece,
          chunk_fails (record { last_chunk = some before; has_timer = timer }) t [] fails,
        )
        (rest_of_pieces (before ++ t) true u ts result pieces cut truthy)

  -- A JSON text that arrives in pieces, none of which `parseResponse` cuts further, and no first ones of
  -- which can be parsed: the calls return its value, once, and leave the parser as it was at first.
  pub parse_responses-IsCut :
      (t : Text) (ts : List Text) (result : J)
      → All IsPiece (t ∷ ts)
      → IsCut [] (t ∷ ts) result
      → is_truthy result ≡ true
      → parse_responses parse is_truthy new_parser (t ∷ ts) ≡ (new_parser, result ∷ [])
  unfolding parse_responses parse_response parse_chunks
  parse_responses-IsCut t [] result (piece, pieces) cut truthy =
      rw (parse_responses, parse_response, piece, chunk_ends new_parser t result cut truthy) refl
  parse_responses-IsCut t (u ∷ ts) result (piece, pieces) (fails, cut) truthy =
      rw (parse_responses, parse_response, piece, chunk_fails new_parser t [] fails)
        (rest_of_pieces t true u ts result pieces cut truthy)

  module _ (bad : Text) (hopeless : (t : Text) → parse (bad ++ t) ≡ none) where
    chunks_stuck :
        (t : Text) (timer : Bool) (chunks : List Text)
        → (u : Text) × (b : Bool) × (parse_chunks parse is_truthy
              (record { last_chunk = some (bad ++ t); has_timer = timer })
              chunks
            ≡ (record { last_chunk = some (bad ++ u); has_timer = b }, []))
    unfolding parse_chunks
    chunks_stuck t timer [] = (t, timer, refl)
    chunks_stuck t timer (chunk ∷ chunks) =
        let whole = append_assoc bad t chunk in
        let fails : parse ((bad ++ t) ++ chunk) ≡ none = rw whole (hopeless (t ++ chunk)) in
        let (u, b, e) = chunks_stuck (t ++ chunk) true chunks in
        (
          u,
          b,
          chunk_fails (record { last_chunk = some (bad ++ t); has_timer = timer }) chunk chunks
                fails
              ∙ ap
                  (λ x.
                    parse_chunks parse is_truthy (record { last_chunk = some x; has_timer = true })
                      chunks)
                  whole
              ∙ e,
        )

    -- Where the last chunk is not the start of any JSON text, no later call returns anything, whatever
    -- arrives.
    pub parse_responses-stuck :
        (t : Text) (timer : Bool) (datas : List Text)
        → (parse_responses parse is_truthy
            (record { last_chunk = some (bad ++ t); has_timer = timer })
            datas).1
          ≡ []
    unfolding parse_responses parse_response
    parse_responses-stuck t timer [] = refl
    parse_responses-stuck t timer (data_ ∷ rest) =
        let (u, b, e) = chunks_stuck t timer (dechunk data_) in
        rw (parse_responses, parse_response, e) (parse_responses-stuck u b rest)
