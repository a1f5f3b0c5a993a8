-- ===== src/App/Colors/Faithful.antt =====
-- app.js, `colorizeOutput`: without its tags the markup is the text, escaped.
use cockpit_cronplus.Common.{
  suc, ◌≡◌, refl, ap, sym, ◌∙◌, Bool, true, false, not, ◌||◌, some, List, [], ◌∷◌, ◌++◌, map, Text,
  codes, has_char, length, append_assoc, append-nil, arith, ||_neither, if◌then◌else◌, ◌==◌, join,
  join-split,
}
use cockpit_cronplus.Utils.{esc_html, replace_all}
use cockpit_cronplus.Utils.Escape.{esc_html-no_markup, esc_html-append}
use cockpit_cronplus.App.Colors.{
  plain, num, str, path, Piece, pieces, concat, span_of, part, LineClass, no_class, error, warn,
  success, info, cmd, line_class, wrap_line, color_line, color_lines, colorize_output,
}
use cockpit_cronplus.App.Colors.Pieces.{texts, pieces_from_whole}

-- A text of HTML without its tags; the flag says that a tag has begun.
abbrev pub strip_tags : Bool → Text → Text
strip_tags in_tag [] = []
strip_tags in_tag (c ∷ s) =
    let rest = strip_tags (if in_tag then not (c == b'>') else c == b'<') s in
    if in_tag || c == b'<' then rest else c ∷ rest

-- Markup that is a text with tags around parts of it, wherever it stands.
abbrev IsTagged : Text → Text → Type 0
IsTagged html s = (t : Text) → strip_tags false (html ++ t) ≡ s ++ strip_tags false t

strip_tags-plain : (s : Text) → has_char b'<' s ≡ false → IsTagged s s
strip_tags-plain [] h t = refl
strip_tags-plain (c ∷ s) h t =
    let (other, rest) = ||_neither (c == b'<') (has_char b'<' s) h in
    rw (other, strip_tags-plain s rest t) refl

strip_tags-inside :
    (name t : Text) → has_char b'>' name ≡ false → strip_tags true (name ++ t) ≡ strip_tags true t
strip_tags-inside [] t h = refl
strip_tags-inside (c ∷ name) t h =
    let (other, rest) = ||_neither (c == b'>') (has_char b'>' name) h in
    rw other (strip_tags-inside name t rest)

span_of-IsTagged :
    (name html s : Text)
    → has_char b'>' name ≡ false
    → IsTagged html s
    → IsTagged (span_of name html) s
span_of-IsTagged name html s h tagged t =
    let close = codes "</span>" in
    let inside = b'"' ∷ b'>' ∷ (html ++ close) in
    rw
      (
        append_assoc name inside t,
        strip_tags-inside name (inside ++ t) h,
        append_assoc html close t,
        tagged (close ++ t),
      )
      refl

append-IsTagged :
    (html s html' s' : Text)
    → IsTagged html s
    → IsTagged html' s'
    → IsTagged (html ++ html') (s ++ s')
append-IsTagged html s html' s' h h' t =
    rw (append_assoc html html' t, h (html' ++ t), h' t, append_assoc s s' (strip_tags false t))
      refl

part-IsTagged : (p : Piece) → IsTagged (part p) (esc_html (some p.1))
unfolding part
part-IsTagged (plain, s) = strip_tags-plain (esc_html (some s)) (esc_html-no_markup (some s)).0
part-IsTagged (num, s) =
    span_of-IsTagged (codes "log-num") (esc_html (some s)) _ refl
      (strip_tags-plain (esc_html (some s)) (esc_html-no_markup (some s)).0)
part-IsTagged (str, s) =
    span_of-IsTagged (codes "log-str") (esc_html (some s)) _ refl
      (strip_tags-plain (esc_html (some s)) (esc_html-no_markup (some s)).0)
part-IsTagged (path, s) =
    span_of-IsTagged (codes "log-path") (esc_html (some s)) _ refl
      (strip_tags-plain (esc_html (some s)) (esc_html-no_markup (some s)).0)

esc_html-nil : esc_html (some []) ≡ []
unfolding esc_html replace_all
esc_html-nil = refl

esc_html-new_line : esc_html (some (codes "\n")) ≡ codes "\n"
unfolding esc_html replace_all
esc_html-new_line = refl

parts-IsTagged : (ps : List Piece) → IsTagged (concat (map part ps)) (esc_html (some (texts ps)))
parts-IsTagged [] t = rw esc_html-nil refl
parts-IsTagged (p ∷ ps) t = rw (esc_html-append p.1 (texts ps)) (
    append-IsTagged (part p) (esc_html (some p.1)) (concat (map part ps))
      (esc_html (some (texts ps))) (part-IsTagged p) (parts-IsTagged ps) t)

wrap_line-IsTagged :
    (k : LineClass) (inner s : Text) → IsTagged inner s → IsTagged (wrap_line k inner) s
unfolding wrap_line
wrap_line-IsTagged no_class inner s h = h
wrap_line-IsTagged error inner s h =
    span_of-IsTagged (codes "log-line log-line-error") inner s refl h
wrap_line-IsTagged warn inner s h = span_of-IsTagged (codes "log-line log-line-warn") inner s refl h
wrap_line-IsTagged success inner s h =
    span_of-IsTagged (codes "log-line log-line-success") inner s refl h
wrap_line-IsTagged info inner s h = span_of-IsTagged (codes "log-line log-line-info") inner s refl h
wrap_line-IsTagged cmd inner s h = span_of-IsTagged (codes "log-line log-line-cmd") inner s refl h

color_line-IsTagged :
    (line : Text)
    → (html : Text) × (color_line line ≡ some html) × IsTagged html (esc_html (some line))
unfolding color_line pieces
color_line-IsTagged line =
    let (ps, found, whole) = pieces_from_whole (suc (length line)) [] line (omega arith) in
    let inner = parts-IsTagged ps in
    (
      wrap_line (line_class line) (concat (map part ps)),
      rw (color_line, pieces, found) refl,
      wrap_line-IsTagged (line_class line) (concat (map part ps)) (esc_html (some line))
          (rw whole at inner),
    )

color_lines-cons :
    (l : Text) (ls : List Text) (h : Text) (hs : List Text)
    → color_line l ≡ some h
    → color_lines ls ≡ some hs
    → color_lines (l ∷ ls) ≡ some (h ∷ hs)
color_lines-cons l ls h hs first rest = rw (color_lines, first, rest) refl

color_lines-IsTagged :
    (l : Text) (ls : List Text)
    → (h : Text) × (hs : List Text) × (color_lines (l ∷ ls) ≡ some (h ∷ hs))
      × IsTagged (join (codes "\n") (h ∷ hs)) (esc_html (some (join (codes "\n") (l ∷ ls))))
color_lines-IsTagged l [] =
    let (h, found, tagged) = color_line-IsTagged l in
    (h, [], color_lines-cons l [] h [] found refl, tagged)
color_lines-IsTagged l (m ∷ ls) =
    let (h, found, tagged) = color_line-IsTagged l in
    let (g, hs, rest, others) = color_lines-IsTagged m ls in
    let below = join (codes "\n") (m ∷ ls) in
    let escaped : esc_html (some (l ++ codes "\n" ++ below))
        ≡ esc_html (some l) ++ codes "\n" ++ esc_html (some below) =
      rw
        (esc_html-append (l ++ codes "\n") below, esc_html-append l (codes "\n"), esc_html-new_line)
        refl in
    let line =
      append-IsTagged h (esc_html (some l)) (codes "\n") (codes "\n") tagged
        (strip_tags-plain (codes "\n") refl) in
    (
      h,
      g ∷ hs,
      color_lines-cons l (m ∷ ls) h (g ∷ hs) found rest,
      rw escaped (append-IsTagged (h ++ codes "\n") _ _ _ line others),
    )

-- `colorizeOutput` returns for every text, and without its tags what it returns is the text, escaped.
pub colorize_output-strip_tags :
    (text : Text)
    → (html : Text) × (colorize_output text ≡ some html)
      × (strip_tags false html ≡ esc_html (some text))
unfolding colorize_output
colorize_output-strip_tags [] = ([], refl, sym esc_html-nil)
colorize_output-strip_tags (c ∷ text) =
    let (l, ls, parts, whole) = join-split 10 (c ∷ text) in
    let (h, hs, found, tagged) = color_lines-IsTagged l ls in
    let html = join (codes "\n") (h ∷ hs) in
    let stripped =
      sym (ap (strip_tags false) (append-nil html))
      ∙ tagged []
      ∙ append-nil (esc_html (some (join (codes "\n") (l ∷ ls))))
      ∙ ap (λ s. esc_html (some s)) whole in
    (html, rw (colorize_output, parts, found) refl, stripped)
