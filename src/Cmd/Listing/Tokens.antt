-- ===== src/Cmd/Listing/Tokens.antt =====
-- A row splits at its blanks into its cells, if every cell is one token.
use mathlib.Core.List.{append-nil, append_assoc, cons-ne-nil}
use ebpf_packet_router.Prelude.{
  ℕ, zero, suc, ◌≡◌, ◌≢◌, refl, sym, ap, ◌∙◌, Bool, true, false, List, [], ◌∷◌, ◌++◌, arith, All,
  All-append, replicate, if◌then◌else◌,
}
use ebpf_packet_router.Std.Text.{Bytes, is_ascii_space}
use ebpf_packet_router.Std.Text.Laws.{IsGraphic}
use ebpf_packet_router.Cmd.Listing.{Line}

-- The tokens of a text between blanks, `word` being what has been read of the token it starts in.
unfoldable pub tokens : Bytes → Bytes → List Bytes
tokens [] [] = []
tokens (w ∷ word) [] = (w ∷ word) ∷ []
tokens [] (c ∷ s) = if is_ascii_space c then tokens [] s else tokens (c ∷ []) s
tokens (w ∷ word) (c ∷ s) =
    if is_ascii_space c then (w ∷ word) ∷ tokens [] s else tokens (w ∷ word ++ c ∷ []) s

-- The cells with a blank or more between them, as the writer pads the columns to their widths.
unfoldable pub padded : List ℕ → Line → Bytes
padded pads [] = []
padded pads (c ∷ []) = c
padded [] (c ∷ d ∷ cells) = c ++ b' ' ∷ padded [] (d ∷ cells)
padded (n ∷ pads) (c ∷ d ∷ cells) = c ++ b' ' ∷ (replicate n b' ' ++ padded pads (d ∷ cells))

abbrev pub IsToken : Bytes → Type 0
IsToken s = (s ≢ []) × All IsGraphic s

graphic_no_space : (c : ℕ) → IsGraphic c → is_ascii_space c ≡ false
graphic_no_space c h = ground arith

read_word :
    (w : ℕ) (word s rest : Bytes)
    → All IsGraphic s
    → tokens (w ∷ word) (s ++ rest) ≡ tokens (w ∷ (word ++ s)) rest
unfolding tokens
read_word w word [] rest h = rw append-nil
read_word w word (c ∷ s) rest (hc, hs) = rw (graphic_no_space c hc) (
    read_word w (word ++ c ∷ []) s rest hs
    ∙ ap (λ v. tokens (w ∷ v) rest) (append_assoc word (c ∷ []) s))

read_cell : (s rest : Bytes) → IsToken s → tokens [] (s ++ b' ' ∷ rest) ≡ s ∷ tokens [] rest
unfolding tokens
read_cell [] rest (ne, _) = absurd (ne refl)
read_cell (c ∷ s) rest (_, (hc, hs)) =
    rw (graphic_no_space c hc) (read_word c [] s (b' ' ∷ rest) hs)

read_last : (s : Bytes) → IsToken s → tokens [] s ≡ s ∷ []
unfolding tokens
read_last [] (ne, _) = absurd (ne refl)
read_last (c ∷ s) (_, (hc, hs)) =
    rw (graphic_no_space c hc) (ap (tokens (c ∷ [])) (sym (append-nil s)) ∙ read_word c [] s [] hs)

skip_blanks : (n : ℕ) (rest : Bytes) → tokens [] (replicate n b' ' ++ rest) ≡ tokens [] rest
unfolding tokens
skip_blanks zero rest = refl
skip_blanks (suc n) rest = skip_blanks n rest

pub tokens-padded :
    (pads : List ℕ) (cells : Line) → All IsToken cells → tokens [] (padded pads cells) ≡ cells
unfolding padded
tokens-padded pads [] h = unfold tokens in refl
tokens-padded pads (c ∷ []) (hc, _) = read_last c hc
tokens-padded [] (c ∷ d ∷ cells) (hc, hs) =
    read_cell c _ hc ∙ ap (λ l. c ∷ l) (tokens-padded [] (d ∷ cells) hs)
tokens-padded (n ∷ pads) (c ∷ d ∷ cells) (hc, hs) =
    read_cell c _ hc ∙ ap (λ l. c ∷ l) (skip_blanks n _ ∙ tokens-padded pads (d ∷ cells) hs)

pub IsToken-append : (s t : Bytes) → IsToken s → All IsGraphic t → IsToken (s ++ t)
IsToken-append [] t (ne, _) ht = absurd (ne refl)
IsToken-append (c ∷ s) t (_, hs) ht = (cons-ne-nil c (s ++ t), All-append IsGraphic (c ∷ s) t hs ht)

pub IsToken-if : (b : Bool) (s t : Bytes) → IsToken s → IsToken t → IsToken (if b then s else t)
IsToken-if true s t hs ht = hs
IsToken-if false s t hs ht = ht
