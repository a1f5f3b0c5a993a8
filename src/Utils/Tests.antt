-- ===== src/Utils/Tests.antt =====
-- The functions of utils.js at concrete inputs.
use cockpit_cronplus.Common.{ℕ, ◌≡◌, false, some, Text, codes, has_char}
use cockpit_cronplus.Utils.{esc_html}
use cockpit_cronplus.Utils.Shell.{between, tokens, write_script, write_tokens, tokens-write_script}
use cockpit_cronplus.Utils.Escape.{esc_html-no_markup}

abbrev image : Text
image = codes "<img src='x' onerror=\"alert(1)\">"

esc_html-no_markup_example :
    (has_char b'<' (esc_html (some image)) ≡ false)
    × (has_char b'>' (esc_html (some image)) ≡ false)
    × (has_char b'"' (esc_html (some image)) ≡ false)
    × (has_char b'\'' (esc_html (some image)) ≡ false)
esc_html-no_markup_example = esc_html-no_markup (some image)

abbrev seconds_text : ℕ → Text
seconds_text n = codes "4.2"

tokens-write_script_example :
    tokens between
      (write_script (codes "/etc/cronplus/tasks.conf") (codes "[\"it's; rm -rf $HOME\"]"))
    ≡ some (write_tokens (codes "/etc/cronplus/tasks.conf") (codes "[\"it's; rm -rf $HOME\"]"))
tokens-write_script_example =
    tokens-write_script (codes "/etc/cronplus/tasks.conf") (codes "[\"it's; rm -rf $HOME\"]")
