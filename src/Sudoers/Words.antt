-- ===== src/Sudoers/Words.antt =====
-- internal/sudoers/sudoers.go: what `escape` makes of arguments. No argument splits in two, none runs into the next,
-- and none ends its command or starts a comment. The reading here says what an escaped text is to mean; it is not
-- sudo's own.
use Prim.Native.Char.{Char, code}
use Prim.Native.String.append
use scheck.Prelude.{
  String, ℕ, Bool, true, false, Option, none, some, contains, ◌≡◌, ◌≢◌, refl, ap, sym, ◌∙◌, List,
  [], ◌∷◌, map, All, ◌==◌, string_eq, nat_eq, string_ne→beq, if◌then◌else◌, Bool-cases, inl, inr,
  arith,
}
use mathlib.Core.Option
use scheck.Prelude.Split.{one_char-append}
use scheck.Prelude.Strings.{◌+◌, join, cons_head}
use scheck.Sudoers.{is_special, escape_chars, escape}

-- The characters that may not stand bare in an argument: what separates commands and their parts, and what starts
-- a comment.
abbrev pub delimiters : List ℕ
delimiters = b',' ∷ b':' ∷ b'=' ∷ b'#' ∷ []

-- The arguments of a text in which no delimiter stands bare, and `none` of any other: a character behind a backslash
-- is taken as it is, and a space with none before it ends an argument. The flag is whether a backslash stands before.
read_words : Bool → String → Option (List String)
read_words true String.[] = none
read_words false String.[] = some ("" ∷ [])
read_words true (String.◌∷◌ c s) = Option.map (cons_head c) (read_words false s)
read_words false (String.◌∷◌ c s) =
    let escaped = read_words true s in
    let next = read_words false s in
    if code c == b'\\'
    then escaped
    else if code c == b' '
    then Option.map (◌∷◌ "") next
    else if contains delimiters (code c)
    then none
    else Option.map (cons_head c) next

-- The arguments of a text, from its start.
pub words : String → Option (List String)
words s = read_words false s

-- A character of an escaped text, in front of what is read.
read_char :
    (c : Char) (s t : String) (ws : List String)
    → read_words false s ≡ some (t ∷ ws)
    → read_words false (if is_special c then String.◌∷◌ "\\" (String.◌∷◌ c s) else String.◌∷◌ c s)
      ≡ some (String.◌∷◌ c t ∷ ws)
unfolding read_words cons_head is_special
read_char c s t ws e = elim (Bool-cases (is_special c)) [
  | inl u ↦ rw (u, e) refl
  | inr u ↦ rw (u, e) (ground (arith, u))
]

escape_chars-append :
    (c : Char) (s rest : String)
    → escape_chars (String.◌∷◌ c s) + rest ≡ (
        if is_special c
        then String.◌∷◌ "\\" (String.◌∷◌ c (escape_chars s + rest))
        else String.◌∷◌ c (escape_chars s + rest))
unfolding escape_chars
escape_chars-append c s rest = elim (Bool-cases (is_special c)) [
  | inl u ↦
      rw u (append.cons "\\" _ rest ∙ ap (String.◌∷◌ "\\") (append.cons c (escape_chars s) rest))
  | inr u ↦ rw u (append.cons c (escape_chars s) rest)
]

read_words-escape_chars :
    (s rest w : String) (ws : List String)
    → read_words false rest ≡ some (w ∷ ws)
    → read_words false (escape_chars s + rest) ≡ some ((s + w) ∷ ws)
unfolding escape_chars
read_words-escape_chars String.[] rest w ws e =
    ap (read_words false) (append.nil rest) ∙ e ∙ ap (λ x. some (x ∷ ws)) (sym (append.nil w))
read_words-escape_chars (String.◌∷◌ c s) rest w ws e =
    ap (read_words false) (escape_chars-append c s rest)
    ∙ read_char c (escape_chars s + rest) (s + w) ws (read_words-escape_chars s rest w ws e)
    ∙ ap (λ x. some (x ∷ ws)) (sym (append.cons c s w))

read_words_last : (s : String) → read_words false (escape_chars s) ≡ some (s ∷ [])
unfolding escape_chars read_words
read_words_last String.[] = refl
read_words_last (String.◌∷◌ c s) = read_char c (escape_chars s) s [] (read_words_last s)

escape_lem : (s : String) → s ≢ "" → escape s ≡ escape_chars s
unfolding escape
escape_lem s n = rw (string_ne→beq s "" n) refl

read_space : (s : String) → read_words false (" " + s) ≡ Option.map (◌∷◌ "") (read_words false s)
unfolding read_words
read_space s = ap (read_words false) (one_char-append " " s) ∙ refl

append_empty : (s : String) → s + "" ≡ s
append_empty String.[] = append.nil ""
append_empty (String.◌∷◌ c s) = append.cons c s "" ∙ ap (String.◌∷◌ c) (append_empty s)

-- In the escaped forms of arguments that are not empty, with spaces between, no `,`, `:`, `=` or `#` stands without a
-- backslash before it, and the spaces and backslashes give back exactly the arguments.
pub words-join-escape :
    (tok : String) (toks : List String)
    → All (λ s. s ≢ "") (tok ∷ toks)
    → words (join (map escape (tok ∷ toks)) " ") ≡ some (tok ∷ toks)
unfolding words join
words-join-escape tok [] h = ap (read_words false) (escape_lem tok h.0) ∙ read_words_last tok
words-join-escape tok (next ∷ toks) h =
    ap (λ x. read_words false (x + (" " + join (map escape (next ∷ toks)) " ")))
      (escape_lem tok h.0)
    ∙ read_words-escape_chars tok _ "" (next ∷ toks) (
        read_space (join (map escape (next ∷ toks)) " ")
        ∙ ap (Option.map (◌∷◌ "")) (words-join-escape next toks h.1))
    ∙ ap (λ x. some (x ∷ next ∷ toks)) (append_empty tok)
