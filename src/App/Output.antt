-- ===== src/App/Output.antt =====
-- app.js, `createOutputWriter`: a terminal buffer of bounded length. A chunk waits in `pending`
-- until the next flush; the timer of 50 ms only decides when that is. Scrolling is left out.
pub mod Stdin
use cockpit_cronplus.Common.{
  ℕ, ◌+◌, ◌-◌, ◌*◌, ◌≤◌, ◌≡◌, refl, sym, ◌∙◌, ap, Bool, true, false, List, [], ◌∷◌, ◌++◌,
  append-nil, append_assoc, if◌then◌else◌, ltb, arith, length, take, drop, length-append,
  length-drop, Text, codes, text_eq, is_empty, Bool-cases, inl, inr, subst,
}

-- `node.data`, `pending`, `timer !== null`, `trimmed`
pub record Writer : Type 0 where
  pub node : Text
  pub pending : Text
  pub timer : Bool
  pub trimmed : Bool

abbrev pub output_max_chars : ℕ
output_max_chars = 8 * 1024 * 1024

abbrev pub output_trim_mark : Text
output_trim_mark = codes "\n… [output trimmed: earlier lines dropped from this view] …\n\n"

-- The writer for a limit and a mark; the program's are `output_max_chars` and `output_trim_mark`.
module _ (limit : ℕ) (mark : Text) where
  -- The buffer after a chunk was added to it.
  unfoldable pub trim_node : Text → Text × Bool
  trim_node node =
      let kept = drop (length node - limit) node in
      let marked : Text × Bool =
        if text_eq (take (length mark) kept) mark then (kept, false) else (mark ++ kept, true) in
      if ltb limit (length node) then marked else (node, false)

  unfoldable pub flush : Writer → Writer
  flush w =
      let (node, cut) = trim_node (w.node ++ w.pending) in
      let written : Writer = record {
        node = node;
        pending = [];
        timer = false;
        trimmed = if cut then true else w.trimmed;
      } in
      if is_empty w.pending then record w { timer = false } else written

  unfoldable pub append : Writer → Text → Writer
  append w chunk =
      if is_empty chunk then w else record w { pending = w.pending ++ chunk; timer = true }

  pub data Action : Type 0 where
    write : Text → Action
    tick : Action

  unfoldable pub act : Writer → Action → Writer
  act w (write chunk) = append w chunk
  act w tick = flush w

  unfoldable pub run : Writer → List Action → Writer
  run w [] = w
  run w (a ∷ rest) = run (act w a) rest

  trim_node-le : (node : Text) → length (trim_node node).0 ≤ limit + length mark
  unfolding trim_node
  trim_node-le node = ground (
    arith,
    length-append mark (drop (length node - limit) node),
    length-drop (length node - limit) node,
  )

  flush-le :
      (w : Writer)
      → length w.node ≤ limit + length mark
      → length (flush w).node ≤ limit + length mark
  unfolding flush
  flush-le w h = elim (Bool-cases (is_empty w.pending)) [
    | inl idle ↦ rw idle h
    | inr busy ↦ rw busy (trim_node-le (w.node ++ w.pending))
  ]

  append_node : (w : Writer) (chunk : Text) → (append w chunk).node ≡ w.node
  unfolding append
  append_node w chunk = ground arith

  -- If the buffer starts with at most the limit and one mark, it holds no more than that whatever is
  -- written and whenever it is flushed.
  pub run-le :
      (w : Writer) (actions : List Action)
      → length w.node ≤ limit + length mark
      → length (run w actions).node ≤ limit + length mark
  unfolding run act
  run-le w [] h = h
  run-le w (write chunk ∷ rest) h =
      run-le (append w chunk) rest
        (subst (λ n. length n ≤ limit + length mark) (sym (append_node w chunk)) h)
  run-le w (tick ∷ rest) h = run-le (flush w) rest (flush-le w h)

  -- What the writer holds, shown or waiting.
  abbrev pub held : Writer → Text
  held w = w.node ++ w.pending

  abbrev pub written_by : List Action → Text
  written_by [] = []
  written_by (write chunk ∷ rest) = chunk ++ written_by rest
  written_by (tick ∷ rest) = written_by rest

  held-append : (w : Writer) (chunk : Text) → held (append w chunk) ≡ held w ++ chunk
  unfolding append
  held-append w [] = sym (append-nil (held w))
  held-append w (c ∷ chunk) = sym (append_assoc w.node w.pending (c ∷ chunk))

  trim_node_fits : (node : Text) → length node ≤ limit → trim_node node ≡ (node, false)
  unfolding trim_node
  trim_node_fits node h = ground arith

  held-flush : (w : Writer) → length (held w) ≤ limit → held (flush w) ≡ held w
  unfolding flush
  held-flush w h = elim (Bool-cases (is_empty w.pending)) [
    | inl idle ↦ rw idle refl
    | inr busy ↦ rw (busy, trim_node_fits (held w) h) (append-nil (held w))
  ]

  -- If all that is held and written is within the limit, nothing is lost and the order is kept.
  pub held-run :
      (w : Writer) (actions : List Action)
      → length (held w ++ written_by actions) ≤ limit
      → held (run w actions) ≡ held w ++ written_by actions
  unfolding run act
  held-run w [] h = sym (append-nil (held w))
  held-run w (write chunk ∷ rest) h =
      let e : held (append w chunk) ++ written_by rest ≡ held w ++ (chunk ++ written_by rest) =
        ap (λ s. s ++ written_by rest) (held-append w chunk)
        ∙ append_assoc (held w) chunk (written_by rest) in
      held-run (append w chunk) rest (subst (λ s. length s ≤ limit) (sym e) h) ∙ e
  held-run w (tick ∷ rest) h =
      let fits : length (held w) ≤ limit =
        omega (arith, h, length-append (held w) (written_by rest)) in
      let e : held (flush w) ≡ held w = held-flush w fits in
      held-run (flush w) rest (rw e h) ∙ ap (λ s. s ++ written_by rest) e
