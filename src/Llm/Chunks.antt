-- ===== src/Llm/Chunks.antt =====
-- The partial events of `LlmAgent._call_llm` in orxhestra/agents/llm_agent.py. A chunk is what `parse_content_blocks` reads of it, with
-- whether it has tool calls; a piece is the content of one partial event.
use orxhestra.Prelude.{
  Bool, true, false, ◌&&◌, ◌||◌, List, [], ◌∷◌, ◌++◌, ◌≡◌, refl, sym, ap, ◌∙◌, arith, Text,
  starts_with, drop, length, nonempty, if◌then◌else◌,
}
use mathlib.Core.List.{append_assoc, append-nil}

pub record Chunk : Type 0 where
  pub text : Text
  pub thinking : Text
  pub has_calls : Bool

pub data Piece : Type 0 where
  thinking_piece : Text → Piece
  text_piece : Text → Piece

-- What is new in a chunk's text, after the text that was seen so far.
unfoldable pub delta : Text → Text → Text
delta seen new =
    if nonempty new && nonempty seen && starts_with new seen then drop (length seen) new else new

unfoldable pub pieces : Text → Text → List Piece
pieces thinking text =
    (if nonempty thinking then thinking_piece thinking ∷ [] else [])
    ++ (if nonempty text then text_piece text ∷ [] else [])

unfoldable pub stream_chunks :
    (has_calls : Bool) (prev_text prev_thinking : Text) → List Chunk → List Piece
unfolding delta pieces
stream_chunks has_calls prev_text prev_thinking [] = []
stream_chunks has_calls prev_text prev_thinking (c ∷ cs) =
    let text = delta prev_text c.text in
    let thinking = delta prev_thinking c.thinking in
    let more = stream_chunks false (prev_text ++ text) (prev_thinking ++ thinking) cs in
    if has_calls || c.has_calls then [] else pieces thinking text ++ more

-- The text of the partial events, joined.
unfoldable pub streamed : List Piece → Text
streamed [] = []
streamed (text_piece t ∷ ps) = t ++ streamed ps
streamed (thinking_piece t ∷ ps) = streamed ps

abbrev pub text_chunk : Text → Chunk
text_chunk t = record { text = t; thinking = []; has_calls = false }

-- The chunks of a provider that sends all the text so far with every new part.
unfoldable pub accumulating : Text → List Text → List Chunk
accumulating sent [] = []
accumulating sent (part ∷ parts) = text_chunk (sent ++ part) ∷ accumulating (sent ++ part) parts

-- The chunks of a provider that sends the new part only.
unfoldable pub incremental : List Text → List Chunk
incremental [] = []
incremental (part ∷ parts) = text_chunk part ∷ incremental parts

unfoldable pub join : List Text → Text
join [] = []
join (t ∷ ts) = t ++ join ts

starts_with-append : (s t : Text) → starts_with (s ++ t) s ≡ true
unfolding starts_with
starts_with-append [] t = refl
starts_with-append (c ∷ s) t = ground (arith, starts_with-append s t)

drop-append : (s t : Text) → drop (length s) (s ++ t) ≡ t
drop-append [] t = refl
drop-append (c ∷ s) t = drop-append s t

delta-append : (sent part : Text) → delta sent (sent ++ part) ≡ part
unfolding delta
delta-append [] part = ground arith
delta-append (c ∷ sent) part = rw (starts_with-append (c ∷ sent) part) (drop-append sent part)

streamed-append : (ps qs : List Piece) → streamed (ps ++ qs) ≡ streamed ps ++ streamed qs
unfolding streamed
streamed-append [] qs = refl
streamed-append (text_piece t ∷ ps) qs =
    ap (λ l. t ++ l) (streamed-append ps qs) ∙ sym (append_assoc t (streamed ps) (streamed qs))
streamed-append (thinking_piece t ∷ ps) qs = streamed-append ps qs

streamed-pieces : (text : Text) → streamed (pieces [] text) ≡ text
unfolding pieces streamed
streamed-pieces [] = refl
streamed-pieces (c ∷ t) = append-nil (c ∷ t)

-- From a provider that sends all the text so far with every chunk, the partial events together show the text once,
-- from where the earlier chunks left it.
pub streamed-accumulating :
    (sent : Text) (parts : List Text)
    → streamed (stream_chunks false sent [] (accumulating sent parts)) ≡ join parts
unfolding stream_chunks accumulating join streamed pieces
streamed-accumulating sent [] = refl
streamed-accumulating sent (part ∷ parts) =
    let rest = stream_chunks false (sent ++ part) [] (accumulating (sent ++ part) parts) in
    rw (delta-append sent part) (
      streamed-append (pieces [] part) rest
      ∙ ap (λ l. l ++ streamed rest) (streamed-pieces part)
      ∙ ap (λ l. part ++ l) (streamed-accumulating (sent ++ part) parts))

-- From a provider that sends only what is new, a second part that begins with the first one loses that beginning: the
-- partial events of t and then t ++ u show t ++ u, not t ++ (t ++ u).
pub streamed-repeated :
    (t u : Text) → streamed (stream_chunks false [] [] (incremental (t ∷ (t ++ u) ∷ []))) ≡ t ++ u
unfolding accumulating incremental join
streamed-repeated t u = streamed-accumulating [] (t ∷ u ∷ []) ∙ ap (λ l. t ++ l) (append-nil u)
