-- ===== src/Xml/Text.antt =====
-- The static functions of class `xml`: escaping, tag names, maps, and the command line.
pub mod Escape
use frag_find.Common.{
  ℕ, ◌+◌, Bool, true, false, not, ◌&&◌, ◌||◌, List, [], ◌∷◌, ◌++◌, ltb, leb, ◌==◌, if◌then◌else◌,
}
use frag_find.Common.Text.{codes}

-- What `xmlescape` appends for one character.
unfoldable pub escape_char : ℕ → List ℕ
escape_char c =
    if c == b'>'
    then codes "&gt;"
    else (if c == b'<'
        then codes "&lt;"
        else (if c == b'&'
            then codes "&amp;"
            else (if c == b'\''
                then codes "&apos;"
                else (if c == b'"'
                    then codes "&quot;"
                    else (if c == 0
                        then codes "%00"
                        else (if c == 13
                            then codes "%0D"
                            else (if c == 10
                                then codes "%0A"
                                else (if c == 9 then codes "%09" else c ∷ []))))))))

unfoldable pub xmlescape : List ℕ → List ℕ
xmlescape [] = []
xmlescape (c ∷ s) = escape_char c ++ xmlescape s

-- `isprint`, `isspace` and `tolower` of the C locale; a `char` from 128 on is negative.
unfoldable pub is_print : ℕ → Bool
is_print c = leb 32 c && ltb c 127

unfoldable pub is_space : ℕ → Bool
is_space c = c == 32 || (leb 9 c && leb c 13)

unfoldable pub to_lower : ℕ → ℕ
to_lower c = if leb b'A' c && leb c b'Z' then c + 32 else c

-- The characters that `strchr("<>\r\n&'\"",c)` finds.
unfoldable pub is_special : ℕ → Bool
is_special c =
    c == b'<'
    || (c == b'>' || (c == 13 || (c == 10 || (c == b'&' || (c == b'\'' || (c == b'"' || c == 0))))))

unfoldable pub xmlstrip : List ℕ → List ℕ
unfolding is_print is_space to_lower is_special
xmlstrip [] = []
xmlstrip (c ∷ s) =
    if is_print c && not (is_special c)
    then (if is_space c then b'_' else to_lower c) ∷ xmlstrip s
    else xmlstrip s

-- The entries of a map, in their order.
unfoldable pub map_entries : List (List ℕ × List ℕ) → List ℕ
map_entries [] = []
map_entries ((k, v) ∷ m) =
    b'<' ∷ (k ++ (b'>' ∷ (v ++ (b'<' ∷ b'/' ∷ (k ++ (b'>' ∷ map_entries m))))))

unfoldable pub xmlmap : List (List ℕ × List ℕ) → List ℕ → List ℕ → List ℕ
unfolding map_entries
xmlmap m outer [] =
    b'<' ∷ (outer ++ (b'>' ∷ (map_entries m ++ (b'<' ∷ b'/' ∷ (outer ++ (b'>' ∷ []))))))
xmlmap m outer (a ∷ attrs) =
    b'<'
    ∷ (outer
        ++ (b' '
            ∷ ((a ∷ attrs) ++ (b'>' ∷ (map_entries m ++ (b'<' ∷ b'/' ∷ (outer ++ (b'>' ∷ []))))))))

-- The words after the first one of `make_command_line`.
unfoldable pub command_rest : List (List ℕ) → List ℕ
command_rest [] = []
command_rest (w ∷ ws) = b' ' ∷ (w ++ command_rest ws)

unfoldable pub make_command_line : List (List ℕ) → List ℕ
unfolding command_rest
make_command_line [] = []
make_command_line (w ∷ ws) = w ++ command_rest ws
