-- ===== src/App/Config/RoundTrip.antt =====
-- What is saved is what is loaded, and what is exported is what is imported.
use cockpit_cronplus.Common.{
  some_eq, or_else-full, ℕ, suc, ◌≡◌, ◌≢◌, refl, sym, ◌∙◌, ap, inl, inr, true, false, none, some,
  List, [], ◌∷◌, ◌++◌, map, Text, codes, All, Bool-cases, is_empty, text_eq, text_eq→eq, pos,
}
use cockpit_cronplus.App.Types.{num_or-full, is_enabled_given, Task}
use cockpit_cronplus.App.Store.{
  Page, Item, import_item, import_items, import_config, max_id, item_schedule,
}
use cockpit_cronplus.App.Config.{
  encode_tasks, load_tasks, save_tasks, export_config, write_tasks, reload, toast,
}
use cockpit_cronplus.Utils.Base64.{
  Browser, IsCodec, b64_encode, b64_decode, encode_task, decode_task,
}

module _ (b : Browser) (codec : IsCodec b) where
  b64_decode-b64_encode :
      (s : Text) {e : Text}
      → b.encode_utf8 s ≡ some e
      → (t : Text) × (b64_encode b s ≡ some t) × (b64_decode b t ≡ some s)
  unfolding b64_encode b64_decode
  b64_decode-b64_encode s {e} utf8 =
      let (t, coded, decoded) = codec.base64 e (codec.utf8_bytes s utf8) in
      (t, rw (b64_encode, utf8, coded) refl, rw (b64_decode, decoded) (codec.utf8_decodes s utf8))

  b64_decode-nil : b64_decode b [] ≡ some []
  unfolding b64_decode
  b64_decode-nil = rw (b64_decode, codec.empty.0) codec.empty.1

  decodes-full : (c s : Text) → b64_decode b c ≡ some s → is_empty s ≡ false → is_empty c ≡ false
  decodes-full (x ∷ c) s e h = refl
  decodes-full [] s e h = absurd (cc (h, ap is_empty (some_eq (sym b64_decode-nil ∙ e))))

  -- The command can be encoded.
  abbrev pub IsEncodable : Task → Type 0
  IsEncodable t = (e : Text) × (b.encode_utf8 t.command ≡ some e)

  -- Decoding puts the decoded command in.
  decode_task_lem :
      (t : Task) (c d : Text)
      → is_empty c ≡ false
      → b64_decode b c ≡ some d
      → decode_task b (record t { command = c }) ≡ record t { command = d }
  unfolding decode_task
  decode_task_lem t c d full decoded = elim (Bool-cases (text_eq d c)) [
    | inl same ↦
        rw (full, decoded, same) (ap (λ x. record t { command = x }) (sym (text_eq→eq d c same)))
    | inr other ↦ rw (full, decoded, other) refl
  ]

  decode_task-encode_task :
      (t : Task)
      → IsEncodable t
      → (t' : Task) × (encode_task b t ≡ some t') × (decode_task b t' ≡ t)
  unfolding encode_task
  decode_task-encode_task t (e, utf8) = elim (Bool-cases (is_empty t.command)) [
    | inl blank ↦ (t, rw blank refl, unfold decode_task in rw blank refl)
    | inr full ↦
        let (c, coded, decoded) = b64_decode-b64_encode t.command utf8 in
        (
          record t { command = c },
          rw (full, coded) refl,
          decode_task_lem t c t.command (decodes-full c t.command decoded full) decoded,
        )
  ]

  map-encode_tasks :
      (ts : List Task)
      → All IsEncodable ts
      → (file : List Task) × (encode_tasks b ts ≡ some file) × (map (decode_task b) file ≡ ts)
  map-encode_tasks [] h = ([], refl, refl)
  map-encode_tasks (t ∷ ts) (h, hs) =
      let (t', encoded, decoded) = decode_task-encode_task t h in
      let (file, all_encoded, all_decoded) = map-encode_tasks ts hs in
      (t' ∷ file, rw (encode_tasks, encoded, all_encoded) refl, rw (decoded, all_decoded) refl)

  -- Tasks whose commands can be encoded are saved without an error, and loaded again from what was
  -- written they are the same tasks.
  pub load_tasks-save_tasks :
      (p : Page)
      → All IsEncodable p.tasks
      → (file : List Task) × (save_tasks b true p.tasks
          ≡ write_tasks file ∷ reload ∷ toast (codes "task.saved") ∷ [])
        × ((load_tasks b p (some file)).0 ≡ p)
  unfolding save_tasks load_tasks
  load_tasks-save_tasks p h =
      let (file, encoded, decoded) = map-encode_tasks p.tasks h in
      (file, rw (save_tasks, encoded) refl, rw decoded refl)

-- A task as the dialog saves it: nothing that an import fills in is missing.
pub record IsComplete (t : Task) : Type 0 where
  pub command : is_empty t.command ≡ false
  pub enabled : t.enabled ≢ none
  pub run_user : is_empty t.run_user ≡ false
  pub retry_interval : t.retry_interval ≢ pos 0
  pub max_concurrent : t.max_concurrent ≢ pos 0
  pub schedule : is_empty t.schedule ≡ false

-- The tasks with the ids after `last`, in their order.
abbrev pub numbered : ℕ → List Task → List Task
numbered last [] = []
numbered last (t ∷ ts) = record t { id = suc last } ∷ numbered (suc last) ts

abbrev as_item : Task → Item
as_item t = record { task = t; second = []; minute = []; hour = []; day = []; month = []; dow = [] }

import_item_complete :
    (t : Task) (id : ℕ) → IsComplete t → import_item id (as_item t) ≡ record t { id = id }
unfolding import_item item_schedule
import_item_complete t id c = simp (
  is_enabled_given t c.enabled,
  or_else-full t.run_user (codes "root") c.run_user,
  num_or-full t.retry_interval (pos 60) c.retry_interval,
  num_or-full t.max_concurrent (pos 1) c.max_concurrent,
  c.schedule,
  or_else-full t.schedule (codes "0 * * * * *") c.schedule,
)

import_items_complete :
    (last : ℕ) (ts : List Task)
    → All IsComplete ts
    → import_items last (map as_item ts) ≡ numbered last ts
import_items_complete last [] h = refl
import_items_complete last (t ∷ ts) (c, h) =
    rw (c.command, import_item_complete t (suc last) c, import_items_complete (suc last) ts h) refl

-- Complete tasks that a page exports, and another page imports, stand there after its own tasks, in
-- their order and unchanged but for their ids, which go on from the largest one there.
pub import_config-export_config :
    (p q : Page)
    → All IsComplete p.tasks
    → (import_config q (some (export_config p))).0.tasks
      ≡ q.tasks ++ numbered (max_id q.tasks) p.tasks
unfolding import_config export_config
import_config-export_config p q h = rw (import_items_complete (max_id q.tasks) p.tasks h) refl
