-- ===== src/App/Form/EnvVars.antt =====
-- The environment variables of the task dialog, one on a line.
use cockpit_cronplus.Common.{
  ℕ, suc, ◌≡◌, refl, sym, ◌∙◌, ap, false, some, List, [], ◌∷◌, ◌++◌, map, Text, codes, All,
  All-append, is_empty, text_eq, ||_neither, ◌==◌, split, split-join, has_char, trim, starts_with,
  find_index, take, drop, length, append_assoc, append-nil,
}
use cockpit_cronplus.App.Form.{env_line, env_text, set_var, add_env_line, add_env_lines, read_env}

-- A variable that stands on a line of its own: its name is not empty and has no "=", what it stands
-- on begins and ends with no white space and has no line feed, and is no comment.
pub record IsVar (v : Text × Text) : Type 0 where
  pub name : is_empty v.0 ≡ false
  pub equals : has_char b'=' v.0 ≡ false
  pub trimmed : trim (env_line v) ≡ env_line v
  pub one_line : has_char 10 (env_line v) ≡ false
  pub no_comment : starts_with (codes "#") v.0 ≡ false

-- The name is none of those.
abbrev pub IsNew : Text → List (Text × Text) → Type 0
IsNew k vars = All (λ v. text_eq v.0 k ≡ false) vars

-- Variables with different names.
abbrev pub IsEnv : List (Text × Text) → Type 0
IsEnv [] = Unit
IsEnv (v ∷ vars) = IsVar v × All (λ w. text_eq v.0 w.0 ≡ false) vars × IsEnv vars

set_var-IsNew :
    (k v : Text) (vars : List (Text × Text)) → IsNew k vars → set_var k v vars ≡ vars ++ (k, v) ∷ []
set_var-IsNew k v [] h = refl
set_var-IsNew k v (x ∷ vars) (differs, h) = rw (differs, set_var-IsNew k v vars h) refl

find_index-name :
    (k s : Text)
    → has_char b'=' k ≡ false
    → find_index (λ c. c == b'=') (k ++ b'=' ∷ s) ≡ some (length k)
find_index-name [] s h = refl
find_index-name (c ∷ k) s h =
    let (other, rest) = ||_neither (c == b'=') (has_char b'=' k) h in
    rw (other, find_index-name k s rest) refl

take-length : (k s : Text) → take (length k) (k ++ s) ≡ k
take-length [] s = refl
take-length (c ∷ k) s = ap (λ r. c ∷ r) (take-length k s)

drop-length : (k s : Text) → drop (length k) (k ++ s) ≡ s
drop-length [] s = refl
drop-length (c ∷ k) s = drop-length k s

drop-past : (k s : Text) (c : ℕ) → drop (suc (length k)) (k ++ c ∷ s) ≡ s
drop-past [] s c = refl
drop-past (d ∷ k) s c = drop-past k s c

add_env_line-env_line :
    (v : Text × Text) (vars : List (Text × Text))
    → IsVar v
    → IsNew v.0 vars
    → add_env_line (env_line v) vars ≡ vars ++ v ∷ []
unfolding add_env_line
add_env_line-env_line ([], w) vars h new = absurd (cc h.name)
add_env_line-env_line (c ∷ k, w) vars h new =
    rw
      (
        h.trimmed,
        h.no_comment,
        find_index-name (c ∷ k) w h.equals,
        h.trimmed,
        take-length k,
        drop-past k w b'=',
      )
      (set_var-IsNew (c ∷ k) w vars new)

-- The variables' names differ from those of a list.
abbrev IsApart : List (Text × Text) → List (Text × Text) → Type 0
IsApart vars [] = Unit
IsApart vars (v ∷ vs) = IsNew v.0 vars × IsApart vars vs

IsApart-append :
    (vars : List (Text × Text)) (v : Text × Text) (vs : List (Text × Text))
    → IsApart vars vs
    → All (λ w. text_eq v.0 w.0 ≡ false) vs
    → IsApart (vars ++ v ∷ []) vs
IsApart-append vars v [] a o = tt
IsApart-append vars v (w ∷ vs) (new, a) (other, o) = (
  All-append (λ x. text_eq x.0 w.0 ≡ false) vars (v ∷ []) new (other, tt),
  IsApart-append vars v vs a o,
)

add_env_lines-map :
    (vs vars : List (Text × Text))
    → IsEnv vs
    → IsApart vars vs
    → add_env_lines (map env_line vs) vars ≡ vars ++ vs
add_env_lines-map [] vars e a = sym (append-nil vars)
add_env_lines-map (v ∷ vs) vars (h, others, e) (new, a) =
    rw (add_env_lines, add_env_line-env_line v vars h new)
      (add_env_lines-map vs (vars ++ v ∷ []) e (IsApart-append vars v vs a others)
        ∙ append_assoc vars (v ∷ []) vs)

none_before : (vs : List (Text × Text)) → IsApart [] vs
none_before [] = tt
none_before (v ∷ vs) = (tt, none_before vs)

lines-IsVar :
    (vs : List (Text × Text)) → IsEnv vs → All (λ l. has_char 10 l ≡ false) (map env_line vs)
lines-IsVar [] e = tt
lines-IsVar (v ∷ vs) (h, _, e) = (h.one_line, lines-IsVar vs e)

-- The variables that the dialog shows are those that it reads back.
pub read_env-env_text : (vars : List (Text × Text)) → IsEnv vars → read_env (env_text vars) ≡ vars
unfolding read_env split add_env_line
read_env-env_text [] e = refl
read_env-env_text (v ∷ vars) e =
    rw (split-join 10 (env_line v) (map env_line vars) (lines-IsVar (v ∷ vars) e))
      (add_env_lines-map (v ∷ vars) [] e (none_before (v ∷ vars)))
