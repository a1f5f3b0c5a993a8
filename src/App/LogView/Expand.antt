-- ===== src/App/LogView/Expand.antt =====
-- app.js, the output of one log entry: the click that expands the entry, and `loadLogOutput`. A new
-- rendering of the list makes a new box. The output is shown as Colors has it.
use cockpit_cronplus.Common.{
  ℕ, suc, ◌-◌, ◌≤◌, ◌≡◌, refl, Bool, true, false, not, ◌&&◌, List, [], ◌∷◌, ◌++◌, if◌then◌else◌,
  ltb, Text, codes, is_empty, arith,
}

pub data Content : Type 0 where
  blank waiting : Content
  output : Text → Content

-- The data attributes of the box, whether the entry is expanded, what the box and the copy button
-- hold, the command lines that were spawned, and how many have not answered.
pub record Box : Type 0 where
  pub run_id : Text
  pub task_id : Text
  pub loaded : Bool
  pub expanded : Bool
  pub content : Content
  pub copy_text : Text
  pub spawned : List (List Text)
  pub pending : ℕ

abbrev output_args : Box → List Text
output_args b =
    codes "cronplus"
    ∷ codes "logs"
    ∷ ((if is_empty b.task_id then [] else b.task_id ∷ [])
        ++ codes "--json" ∷ codes "--run-id" ∷ b.run_id ∷ codes "-n" ∷ codes "1" ∷ [])

-- `loadLogOutput` up to its call.
unfoldable pub load_log_output : Box → Box
load_log_output b =
    if b.loaded then b else if is_empty b.run_id then record b { loaded = true } else record b {
      loaded = true;
      content = waiting;
      spawned = output_args b ∷ b.spawned;
      pending = suc b.pending;
    }

-- The answer of the command: the output of the first entry, empty where there is none.
unfoldable pub answer_output : Text → Box → Box
answer_output out b = record b {
  content = if is_empty out then blank else output out;
  copy_text = out;
  pending = b.pending - 1;
}

unfoldable pub fail_output : Box → Box
fail_output b = record b { loaded = false; content = blank; pending = b.pending - 1 }

-- The click on the entry's header.
unfoldable pub toggle_entry : Box → Box
unfolding load_log_output
toggle_entry b =
    let b' = record b { expanded = not b.expanded } in if b.expanded then b' else load_log_output b'

pub data Step : Box → Box → Type 0 where
  toggles : (b : Box) → Step b (toggle_entry b)
  answers : (b : Box) (out : Text) → ltb 0 b.pending ≡ true → Step b (answer_output out b)
  fails : (b : Box) → ltb 0 b.pending ≡ true → Step b (fail_output b)

pub data Reaches : Box → Box → Type 0 where
  here : {b : Box} → Reaches b b
  next : {b c d : Box} → Reaches b c → Step c d → Reaches b d

-- At most one request waits for its answer, and only while the box counts as loaded.
pub record IsValid (b : Box) : Type 0 where
  pub one : b.pending ≤ 1
  pub guarded : (ltb 0 b.pending && not b.loaded) ≡ false

Step-IsValid : {b c : Box} → Step b c → IsValid b → IsValid c
unfolding toggle_entry load_log_output answer_output fail_output
Step-IsValid (toggles b) v = record { one = ground arith; guarded = ground arith }
Step-IsValid (answers b out h) v = record { one = omega arith; guarded = ground arith }
Step-IsValid (fails b h) v = record { one = omega arith; guarded = ground arith }

pub Reaches-IsValid : {b c : Box} → Reaches b c → IsValid b → IsValid c
Reaches-IsValid here v = v
Reaches-IsValid (next r s) v = Step-IsValid s (Reaches-IsValid r v)

-- The output is there, and nothing is under way.
record IsShown (out : Text) (args : List (List Text)) (b : Box) : Type 0 where
  loaded : b.loaded ≡ true
  pending : b.pending ≡ 0
  copied : b.copy_text ≡ out
  spawned : b.spawned ≡ args

Step-IsShown :
    {out : Text} {args : List (List Text)} {b c : Box}
    → Step b c
    → IsShown out args b
    → IsShown out args c
unfolding toggle_entry load_log_output
Step-IsShown (toggles b) i =
    let held = i.loaded in
    record {
      loaded = ground (arith, held);
      pending = ground (arith, held, i.pending);
      copied = ground (arith, held, i.copied);
      spawned = ground (arith, held, i.spawned);
    }
Step-IsShown (answers b out h) i = absurd (cc (rw i.pending at h))
Step-IsShown (fails b h) i = absurd (cc (rw i.pending at h))

Reaches-IsShown :
    {out : Text} {args : List (List Text)} {b c : Box}
    → Reaches b c
    → IsShown out args b
    → IsShown out args c
Reaches-IsShown here i = i
Reaches-IsShown (next r s) i = Step-IsShown s (Reaches-IsShown r i)

-- Once the output of an entry has arrived, however often the entry is then opened and closed, no
-- command is spawned for it again, and the copy button keeps it.
pub Reaches-answer_output :
    {b c d : Box} (out : Text)
    → Reaches b c
    → IsValid b
    → ltb 0 c.pending ≡ true
    → Reaches (answer_output out c) d
    → (d.copy_text ≡ out) × (d.spawned ≡ c.spawned)
unfolding answer_output
Reaches-answer_output {c} out r v waits later =
    let valid = Reaches-IsValid r v in
    let arrived : IsShown out c.spawned (answer_output out c) = record {
      loaded = ground (arith, valid.guarded);
      pending = omega (arith, valid.one);
      copied = refl;
      spawned = refl;
    } in
    let shown = Reaches-IsShown later arrived in (shown.copied, shown.spawned)
