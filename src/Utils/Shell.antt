-- ===== src/Utils/Shell.antt =====
-- utils.js: `shellReadJson`, `shellWriteJson`, `spawn`, and how a shell cuts the script that writes a
-- file into words. `JSON.stringify` and `JSON.parse` are the environment's.
use cockpit_cronplus.Common.{
  ℕ, ◌≡◌, refl, sym, ap, ◌∙◌, Bool, not, ◌&&◌, ◌||◌, Option, none, some, List, [], ◌∷◌, ◌++◌,
  if◌then◌else◌, ◌==◌, Text, codes, or_else, has_char, append_assoc, append-nil, Bool-cases, inl,
  inr, ==_iff,
}
use cockpit_cronplus.Common.Match.{is_word_char}
use cockpit_cronplus.Utils.{replace_all, shell_quote}

-- `path.replace(/\/[^\/]*$/, '')`: what stands before the last slash, or the path if it has none.
abbrev pub dir_of : Text → Text
dir_of [] = []
dir_of (c ∷ s) = let rest = c ∷ dir_of s in if c == b'/' && not (has_char b'/' s) then [] else rest

-- The script of `shellWriteJson`, for a text of JSON.
unfoldable pub write_script : Text → Text → Text
write_script path json =
    codes "mkdir -p "
    ++ (shell_quote (dir_of path)
        ++ (codes " && printf %s "
            ++ (shell_quote json
                ++ (codes " | tee "
                    ++ (shell_quote path
                        ++ (codes " > /dev/null && chmod 600 " ++ shell_quote path))))))

-- The script of `shellReadJson`, and what it makes of the answer.
unfoldable pub read_script : Text → Text
read_script path = codes "cat " ++ (shell_quote path ++ codes " 2>/dev/null || echo \"[]\"")

unfoldable pub read_json {ℓ} : {A : Type ℓ} → (Text → Option (List A)) → Text → List A
read_json parse out = elim (parse (or_else out (codes "[]"))) [ none ↦ [] | some items ↦ items ]

-- The command line of `spawn`.
unfoldable pub spawn_line : Text → List Text → List Text
spawn_line cmd args = cmd ∷ args

-- What a POSIX shell reads: words, and operators that are not quoted.
pub data Token : Type 0 where
  word operator : Text → Token

-- Between words, in a word, in a quotation of a word, behind a backslash, in an operator.
pub data Place : Type 0 where
  between : Place
  in_word in_quote in_escape in_operator : Text → Place

abbrev is_operator : ℕ → Bool
is_operator c = c == b'&' || c == b'|' || c == b'>' || c == b'<' || c == b';'

-- The characters that stand for themselves, of those that the script needs.
abbrev is_literal : ℕ → Bool
is_literal c = is_word_char c || c == b'-' || c == b'/' || c == b'.' || c == b'%'

-- One character: the token that it ends, if it ends one, and the place behind it; none for a character
-- with another meaning.
abbrev leave : Option Token → ℕ → Option (Option Token × Place)
leave ended c =
    if c == b' '
    then some (ended, between)
    else if is_operator c
    then some (ended, in_operator (c ∷ []))
    else none

abbrev enter : Text → ℕ → Option (Option Token × Place)
enter cur c =
    if c == b'\''
    then some (none, in_quote cur)
    else if c == b'\\'
    then some (none, in_escape cur)
    else if is_literal c
    then some (none, in_word (cur ++ c ∷ []))
    else none

abbrev or_leave :
    Option (Option Token × Place) → Option (Option Token × Place) → Option (Option Token × Place)
or_leave none later = later
or_leave (some m) later = some m

unfoldable pub read_char : Place → ℕ → Option (Option Token × Place)
read_char between c = or_leave (enter [] c) (leave none c)
read_char (in_word cur) c = or_leave (enter cur c) (leave (some (word cur)) c)
read_char (in_quote cur) c =
    some (none, if c == b'\'' then in_word cur else in_quote (cur ++ c ∷ []))
read_char (in_escape cur) c = some (none, in_word (cur ++ c ∷ []))
read_char (in_operator cur) c =
    if c == b' '
    then some (some (operator cur), between)
    else if is_operator c
    then some (none, in_operator (cur ++ c ∷ []))
    else none

abbrev end_of : Place → Option (List Token)
end_of between = some []
end_of (in_word cur) = some (word cur ∷ [])
end_of (in_quote cur) = none
end_of (in_escape cur) = none
end_of (in_operator cur) = some (operator cur ∷ [])

abbrev add : Option Token → Option (List Token) → Option (List Token)
add none ts = ts
add (some t) none = none
add (some t) (some ts) = some (t ∷ ts)

unfoldable pub tokens : Place → Text → Option (List Token)
tokens p [] = end_of p
tokens p (c ∷ s) = elim (read_char p c) [ none ↦ none | some (ended, q) ↦ add ended (tokens q s) ]

tokens-quoted :
    (s cur rest : Text)
    → tokens (in_quote cur) (replace_all b'\'' (codes "'\\''") s ++ b'\'' ∷ rest)
      ≡ tokens (in_word (cur ++ s)) rest
unfolding tokens read_char replace_all
tokens-quoted [] cur rest = rw append-nil refl
tokens-quoted (c ∷ s) cur rest = elim (Bool-cases (c == b'\'')) [
  | inl quote ↦
      let same : c ≡ b'\'' = (==_iff c b'\'').0 quote in
      let later = tokens-quoted s (cur ++ b'\'' ∷ []) rest in
      rw (quote, same) (later ∙ ap (λ w. tokens (in_word w) rest) (append_assoc cur (b'\'' ∷ []) s))
  | inr other ↦
      let later = tokens-quoted s (cur ++ c ∷ []) rest in
      rw (other, other) (later ∙ ap (λ w. tokens (in_word w) rest) (append_assoc cur (c ∷ []) s))
]

-- A quoted text is read as a word, or as a part of one, whatever characters it holds.
tokens-shell_quote :
    (s rest : Text) → tokens between (shell_quote s ++ rest) ≡ tokens (in_word s) rest
unfolding shell_quote
tokens-shell_quote s rest =
    let quoted = replace_all b'\'' (codes "'\\''") s in
    rw (append_assoc quoted (b'\'' ∷ []) rest) (unfold tokens read_char in tokens-quoted s [] rest)

tokens-last : (s : Text) → tokens between (shell_quote s) ≡ some (word s ∷ [])
tokens-last s =
    ap (tokens between) (sym (append-nil (shell_quote s)))
    ∙ tokens-shell_quote s []
    ∙ (unfold tokens in refl)

-- The tokens of the script that writes a text of JSON to a path.
abbrev pub write_tokens : Text → Text → List Token
write_tokens path json =
    word (codes "mkdir")
    ∷ word (codes "-p")
    ∷ word (dir_of path)
    ∷ operator (codes "&&")
    ∷ word (codes "printf")
    ∷ word (codes "%s")
    ∷ word json
    ∷ operator (codes "|")
    ∷ word (codes "tee")
    ∷ word path
    ∷ operator (codes ">")
    ∷ word (codes "/dev/null")
    ∷ operator (codes "&&")
    ∷ word (codes "chmod")
    ∷ word (codes "600")
    ∷ word path
    ∷ []

-- Whatever characters the path and the JSON hold, the shell reads the script of `shellWriteJson` as
-- these words and operators: the directory, the text and the path each arrive whole, as one word.
pub tokens-write_script :
    (path json : Text) → tokens between (write_script path json) ≡ some (write_tokens path json)
unfolding write_script tokens read_char
tokens-write_script path json =
    rw
      (
        write_script,
        tokens-shell_quote (dir_of path),
        tokens-shell_quote json,
        tokens-shell_quote path,
        tokens-last path,
      )
      refl
