-- ===== src/Strings/Fields.antt =====
-- `strings.Fields`: the words of a text, which runs of white space divide.
use macaroon_bakery.Prelude.{
  Bytes, ◌≡◌, ◌≢◌, refl, sym, ap, ◌∙◌, true, List, [], ◌∷◌, ◌++◌, append_assoc, append-nil, arith,
  if◌then◌else◌,
}
use macaroon_bakery.Strings.Utf8.{Rune, ascii_rune, runes, is_space}
use macaroon_bakery.Strings.Utf8.Ascii.{runes-ascii, NoRune, spell, spell-runes}

-- The word that is being read, if it has begun.
unfoldable pub flush : Bytes → List Bytes
flush [] = []
flush (b ∷ w) = (b ∷ w) ∷ []

unfoldable pub fields_loop : List Rune → Bytes → List Bytes
fields_loop [] word = flush word
fields_loop (r ∷ rs) word =
    let ended = flush word ++ fields_loop rs [] in
    let longer = fields_loop rs (word ++ r.bytes) in if is_space r.point then ended else longer

unfoldable pub fields : Bytes → List Bytes
fields s = fields_loop (runes s) []

-- Runes that are no white space belong to the word.
fields_loop-word :
    (rs qs : List Rune) (word : Bytes)
    → NoRune is_space rs
    → fields_loop (rs ++ qs) word ≡ fields_loop qs (word ++ spell rs)
unfolding fields_loop spell
fields_loop-word [] qs word h = rw append-nil
fields_loop-word (r ∷ rs) qs word (h, hs) =
    rw (h, fields_loop-word rs qs (word ++ r.bytes) hs, append_assoc)

flush-word : (w : Bytes) → w ≢ [] → flush w ≡ w ∷ []
unfolding flush
flush-word [] h = absurd (h refl)
flush-word (b ∷ w) h = refl

is_space-blank : is_space 0x20 ≡ true
unfolding is_space
is_space-blank = refl

-- One word and nothing else.
pub fields-word : (w : Bytes) → w ≢ [] → NoRune is_space (runes w) → fields w ≡ w ∷ []
unfolding fields fields_loop
fields-word w h free =
    ap (λ rs. fields_loop rs []) (sym (append-nil (runes w)))
    ∙ fields_loop-word (runes w) [] [] free
    ∙ ap flush (spell-runes w)
    ∙ flush-word w h

-- A word, a blank and more.
pub fields-cons :
    (w rest : Bytes)
    → w ≢ []
    → NoRune is_space (runes w)
    → fields (w ++ 0x20 ∷ rest) ≡ w ∷ fields rest
unfolding fields fields_loop
fields-cons w rest h free =
    ap (λ rs. fields_loop rs []) (runes-ascii w 0x20 rest (omega arith))
    ∙ fields_loop-word (runes w) (ascii_rune 0x20 ∷ runes rest) [] free
    ∙ rw is_space-blank
        (ap (λ l. l ++ fields_loop (runes rest) []) (ap flush (spell-runes w) ∙ flush-word w h))
