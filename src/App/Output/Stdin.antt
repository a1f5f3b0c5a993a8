-- ===== src/App/Output/Stdin.antt =====
-- app.js, `sendStdin`: a line that is typed for the process is sent to it and echoed.
use cockpit_cronplus.Common.{
  ℕ, ◌≤◌, ◌≡◌, sym, subst, ◌∙◌, ap, Bool, true, false, Option, none, some, [], ◌∷◌, ◌++◌,
  append-nil, length, Text, codes,
}
use cockpit_cronplus.App.Output.{Writer, append, flush, run, write, tick, act, held, held-run}

abbrev pub echo : Text → Text
echo value = codes "> " ++ (value ++ codes "\n")

module _ (limit : ℕ) (mark : Text) where
  -- The text that is sent, none where no process runs, and the writer; the input is cleared then. What
  -- `replace(/\n$/, '')` leaves of the text is the value.
  unfoldable pub send_stdin : Bool → Text → Writer → Option Text × Writer
  send_stdin false value w = (none, w)
  send_stdin true value w =
      (some (value ++ codes "\n"), flush limit mark (append limit mark w (echo value)))

  -- The echo stands behind all that was written before, shown or waiting, where it is within the limit.
  pub send_stdin-held :
      (value : Text) (w : Writer)
      → length (held limit mark w ++ echo value) ≤ limit
      → held limit mark (send_stdin true value w).1 ≡ held limit mark w ++ echo value
  unfolding send_stdin run act
  send_stdin-held value w fits =
      let same = ap (λ s. held limit mark w ++ s) (append-nil (echo value)) in
      held-run limit mark w (write (echo value) ∷ tick ∷ [])
        (subst (λ s. length s ≤ limit) (sym same) fits)
      ∙ same
