-- ===== src/Provider/Streams.antt =====
-- The streams that the adapters write: internal/provider/ollama.go, gemini.go, bedrock.go, mock.go.
use Prim.Native.String.{◌++◌}
use mathlib.Core.List.{append-nil as list_append-nil}
use text.Mathlib.TextLemmas.{append-nil, append_assoc}
use aigateway.Prelude.{
  ◌≡◌, refl, ap, subst, ◌∙◌, ℕ, ◌+◌, String, Bool, true, false, ◌||◌, Option, none, some, List, [],
  ◌∷◌, ◌++◌ as ◌+++◌, map, if◌then◌else◌,
}
use aigateway.Types.{StreamDelta, ChatCompletionRequest}
use aigateway.Provider.Client.{Event, data_event, done_event, chunk_of, final_events}
use aigateway.Provider.Ollama
use aigateway.Provider.Ollama.{OllamaChatResponse}
use aigateway.Provider.Gemini
use aigateway.Provider.Gemini.{GeminiResponse, GeminiCandidate, Read, read, more, eof, broken}
use aigateway.Provider.Mock

module _ {A : Type 0} where
  -- The values before the first that is missing.
  unfoldable pub decoded : List (Option A) → List A
  decoded [] = []
  decoded (none ∷ os) = []
  decoded (some a ∷ os) = a ∷ decoded os

  unfoldable pub take_until : (A → Bool) → List A → List A
  take_until p [] = []
  take_until p (a ∷ later) = let rest = take_until p later in if p a then [] else a ∷ rest

  unfoldable pub any : (A → Bool) → List A → Bool
  any p [] = false
  any p (a ∷ rest) = p a || any p rest

abbrev chunk_content : List StreamDelta → String
chunk_content [] = ""
chunk_content (d ∷ ds) = d.delta.content ++ chunk_content ds

-- What a client reads of a stream: the contents of its chunks, one after the other.
unfoldable pub content_of : List Event → String
content_of [] = ""
content_of (data_event chunk ∷ es) = chunk_content chunk.choices ++ content_of es
content_of (done_event ∷ es) = content_of es

-- Texts one after the other, and with a blank between two.
unfoldable pub concat : List String → String
concat [] = ""
concat (t ∷ ts) = t ++ concat ts

unfoldable pub unwords : List String → String
unwords [] = ""
unwords (t ∷ []) = t
unwords (t ∷ (t' ∷ ts)) = t ++ (" " ++ unwords (t' ∷ ts))

-- The reads of a stream up to the one that ends it, and whether that one is the end of the file.
unfoldable pub made : List Read → List Read
made [] = []
made (read line more ∷ rs) = read line more ∷ made rs
made (read line eof ∷ rs) = read line eof ∷ []
made (read line broken ∷ rs) = read line broken ∷ []

unfoldable pub reaches_eof : List Read → Bool
reaches_eof [] = false
reaches_eof (read line more ∷ rs) = reaches_eof rs
reaches_eof (read line eof ∷ rs) = true
reaches_eof (read line broken ∷ rs) = false

-- The texts of Gemini's reads: of a line that decodes, the text of the first candidate.
abbrev pub candidate_texts : List GeminiCandidate → List String
candidate_texts [] = []
candidate_texts (c ∷ cs) = Gemini.text_of "" c.content.parts ∷ []

abbrev pub decoded_texts : Option GeminiResponse → List String
decoded_texts none = []
decoded_texts (some resp) = candidate_texts resp.candidates

unfoldable pub line_texts : (String → Option GeminiResponse) → Option String → List String
line_texts unmarshal none = []
line_texts unmarshal (some line) = decoded_texts (unmarshal (Gemini.strip_data line))

unfoldable pub read_texts : (String → Option GeminiResponse) → List Read → List String
read_texts unmarshal [] = []
read_texts unmarshal (read line end ∷ rs) = line_texts unmarshal line +++ read_texts unmarshal rs

module _ (id model : String) where
  -- The stream of the pieces of a content, each in a chunk of its own with no finish reason; whether
  -- it ends as a stream must, with the chunk that has one and the mark of the end.
  pub data IsStream : List Event → List String → Bool → Type 0 where
    cut : IsStream [] [] false
    ended : (now : ℕ) → IsStream (final_events id now model) [] true
    piece :
        (now : ℕ) (text : String) (es : List Event) (texts : List String) (done : Bool)
        → IsStream es texts done
        → IsStream (data_event (chunk_of id now model text "") ∷ es) (text ∷ texts) done

  -- One object of Ollama's, by whether it is done.
  ended_or_piece :
      (b : Bool) (now : ℕ) (c : OllamaChatResponse) (es : List Event) (cs : List OllamaChatResponse)
      (done : Bool)
      → IsStream es (map (λ o. o.message.content) cs) done
      → IsStream
          (if b
            then final_events id now model
            else data_event (chunk_of id now model c.message.content "") ∷ es)
          (map (λ o. o.message.content) (if b then [] else c ∷ cs))
          (b || done)
  ended_or_piece true now c es cs done h = ended now
  ended_or_piece false now c es cs done h = piece now c.message.content es _ done h

  module _ (clock : ℕ → ℕ) where
    -- The stream made of Ollama's objects has a chunk for each object before the one that is done, or
    -- that cannot be decoded, with its content, in order; and it is ended exactly if one that is done
    -- came before any that cannot be decoded.
    pub ollama-IsStream :
        (i : ℕ) (chunks : List (Option OllamaChatResponse))
        → IsStream
            (Ollama.relay_stream id model clock i chunks)
            (map (λ c. c.message.content) (take_until (λ c. c.done) (decoded chunks)))
            (any (λ c. c.done) (decoded chunks))
    unfolding Ollama.relay_stream decoded take_until any
    ollama-IsStream i [] = cut
    ollama-IsStream i (none ∷ chunks) = cut
    ollama-IsStream i (some c ∷ chunks) =
        ended_or_piece c.done (clock i) c (Ollama.relay_stream id model clock (i + 1) chunks)
          (take_until (λ o. o.done) (decoded chunks)) (any (λ o. o.done) (decoded chunks))
          (ollama-IsStream (i + 1) chunks)

    relay_candidates-IsStream :
        (unmarshal : String → Option GeminiResponse) (i : ℕ) (cs : List GeminiCandidate)
        (es : List Event) (texts : List String) (done : Bool)
        → IsStream es texts done
        → IsStream
            (Gemini.relay_candidates unmarshal id model clock i cs +++ es)
            (candidate_texts cs +++ texts)
            done
    relay_candidates-IsStream unmarshal i [] es texts done h = h
    relay_candidates-IsStream unmarshal i (c ∷ cs) es texts done h =
        piece (clock i) (Gemini.text_of "" c.content.parts) es texts done h

    relay_decoded-IsStream :
        (unmarshal : String → Option GeminiResponse) (i : ℕ) (found : Option GeminiResponse)
        (es : List Event) (texts : List String) (done : Bool)
        → IsStream es texts done
        → IsStream
            (Gemini.relay_decoded unmarshal id model clock i found +++ es)
            (decoded_texts found +++ texts)
            done
    relay_decoded-IsStream unmarshal i none es texts done h = h
    relay_decoded-IsStream unmarshal i (some resp) es texts done h =
        relay_candidates-IsStream unmarshal i resp.candidates es texts done h

    relay_line-IsStream :
        (unmarshal : String → Option GeminiResponse) (i : ℕ) (line : Option String)
        (es : List Event) (texts : List String) (done : Bool)
        → IsStream es texts done
        → IsStream
            (Gemini.relay_line unmarshal id model clock i line +++ es)
            (line_texts unmarshal line +++ texts)
            done
    unfolding Gemini.relay_line line_texts
    relay_line-IsStream unmarshal i none es texts done h = h
    relay_line-IsStream unmarshal i (some line) es texts done h =
        relay_decoded-IsStream unmarshal i (unmarshal (Gemini.strip_data line)) es texts done h

    -- The stream made of the reads of Gemini's answer has a chunk for each read, up to the one that ends
    -- the reading, whose line decodes and has a candidate, with the text of the first one, in order; and
    -- it is ended exactly if the reading ends with the end of the file.
    pub gemini-IsStream :
        (unmarshal : String → Option GeminiResponse) (i : ℕ) (reads : List Read)
        → IsStream
            (Gemini.relay_stream unmarshal id model clock i reads)
            (read_texts unmarshal (made reads))
            (reaches_eof reads)
    unfolding Gemini.relay_stream made reaches_eof read_texts
    gemini-IsStream unmarshal i [] = cut
    gemini-IsStream unmarshal i (read line more ∷ rs) =
        relay_line-IsStream unmarshal i line
          (Gemini.relay_stream unmarshal id model clock (i + 1) rs) (read_texts unmarshal (made rs))
          (reaches_eof rs) (gemini-IsStream unmarshal (i + 1) rs)
    gemini-IsStream unmarshal i (read line eof ∷ rs) =
        relay_line-IsStream unmarshal i line (final_events id (clock (i + 1)) model) [] true
          (ended (clock (i + 1)))
    gemini-IsStream unmarshal i (read line broken ∷ rs) =
        subst (λ es. IsStream es (line_texts unmarshal line +++ []) false)
          (list_append-nil (Gemini.relay_line unmarshal id model clock i line))
          (relay_line-IsStream unmarshal i line [] [] false cut)

    -- The pieces of a mock's stream, one after the other, are its words with a blank between two.
    words-IsStream :
        (i : ℕ) (words : List String)
        → (texts : List String) × (IsStream
              (Mock.stream_words (λ _. false) id model clock i words)
              texts
              true
            × (concat texts ≡ unwords words))
    unfolding Mock.stream_words concat unwords
    words-IsStream i [] = ([], (ended (clock i), refl))
    words-IsStream i (w ∷ []) =
        (w ∷ [], (piece (clock i) w _ [] true (ended (clock (i + 1))), append-nil w))
    words-IsStream i (w ∷ (w' ∷ ws)) =
        let (texts, (h, e)) = words-IsStream (i + 1) (w' ∷ ws) in
        (
          (w ++ " ") ∷ texts,
          (
            piece (clock i) (w ++ " ")
                (Mock.stream_words (λ _. false) id model clock (i + 1) (w' ∷ ws)) texts true h,
            append_assoc w " " (concat texts) ∙ ap (λ t. w ++ (" " ++ t)) e,
          ),
        )

  -- What a client reads of a stream is its pieces, one after the other.
  pub content_of-IsStream :
      (es : List Event) (texts : List String) (done : Bool)
      → IsStream es texts done
      → content_of es ≡ concat texts
  unfolding content_of concat final_events chunk_of
  content_of-IsStream es texts done cut = refl
  content_of-IsStream es texts done (ended now) = refl
  content_of-IsStream es texts done (piece now text es' texts' done' h) =
      ap (λ t. t ++ content_of es') (append-nil text)
      ∙ ap (λ t. text ++ t) (content_of-IsStream es' texts' done' h)

-- The words of a mock's reply to a stream.
abbrev pub reply_words :
    (String → String) → (String → List String) → ChatCompletionRequest → List String
reply_words quote fields req =
    fields (Mock.reply_of quote "This is a mock streaming response from AegisFlow." req.messages)

-- A mock's stream that is not cancelled is a stream that is ended, and what a client reads of it is the
-- words of the reply with a blank between two.
pub mock-IsStream :
    (quote : String → String) (fields : String → List String) (id : String) (clock : ℕ → ℕ)
    (req : ChatCompletionRequest)
    → let es = Mock.chat_completion_stream quote fields (λ _. false) id clock req in
      (texts : List String) × IsStream id req.model es texts true
      × (content_of es ≡ unwords (reply_words quote fields req))
unfolding Mock.chat_completion_stream
mock-IsStream quote fields id clock req =
    let words = reply_words quote fields req in
    let (texts, (h, e)) = words-IsStream id req.model clock 0 words in
    (
      texts,
      h,
      content_of-IsStream id req.model (Mock.stream_words (λ _. false) id req.model clock 0 words)
            texts true h
          ∙ e,
    )
