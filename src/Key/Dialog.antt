-- ===== src/Key/Dialog.antt =====
-- The role dialog of pjsr/DistributedWBPP.js (RoleDialog) with dwbppSaveKey: what its buttons do to the key
-- that is shown, to the choice and to the setting. Message boxes are left out, but for their answer.
use distributed_wbpp.Prelude.{
  ℕ, ◌≡◌, Bool, true, false, not, ◌&&◌, Option, none, some, [], Text, Outcome, ok, throw, keep,
  is_empty, if◌then◌else◌,
}
use distributed_wbpp.Serializer.Listing.{is_space}
use distributed_wbpp.Key.{normalize_key, load_key, generate_key, format_key}

pub data Role : Type 0 where
  server client : Role

-- `keyEdit.text`, `role` and `key`, whether it was left, and the setting with the key, if there is one.
pub record Dialog : Type 0 where
  pub shown : Text
  pub role : Option Role
  pub key : Option Text
  pub is_left : Bool
  pub setting : Option Text

abbrev pub is_some : Option Text → Bool
is_some none = false
is_some (some k) = true

-- What is typed, and the buttons: whether a new key may replace one, whether the sidecar started and what it
-- wrote.
pub data Event : Type 0 where
  typed : Text → Event
  new_key_clicked : Bool → Bool → Option Text → Event
  server_clicked : Bool → Option Text → Event
  client_clicked : Event
  cancel_clicked : Event

-- dwbppSaveKey, then `d.key = key; d.role = role; d.ok();`
unfoldable pub accept : Role → Text → Dialog → Dialog
accept r k d = record d { role = some r; key = some k; is_left = true; setting = some k }

module _ (special : ℕ → Text) where
  abbrev pub shown_key : Text → Outcome Text
  shown_key saved = if is_empty saved then ok [] else format_key saved

  abbrev pub dialog_of : Option Text → Outcome Text → Outcome Dialog
  dialog_of setting (throw e) = throw e
  dialog_of setting (ok t) =
      ok (record { shown = t; role = none; key = none; is_left = false; setting = setting })

  -- The constructor.
  unfoldable pub open_dialog : Option Text → Bool → Outcome Dialog
  open_dialog setting read_ok = dialog_of setting (shown_key (load_key special setting read_ok))

  abbrev pub formatted : Outcome Text → Outcome Text
  formatted (ok k) = format_key k
  formatted (throw e) = throw e

  abbrev pub show : Outcome Text → Dialog → Dialog
  show (ok t) d = record d { shown = t }
  show (throw e) d = d

  unfoldable pub click_new_key : Bool → Bool → Option Text → Dialog → Dialog
  click_new_key answer started out d =
      if is_some (normalize_key special (some d.shown)) && not answer
      then d
      else show (formatted (generate_key special started out)) d

  abbrev pub accept_ok : Role → Outcome Text → Dialog → Dialog
  accept_ok r (ok k) d = accept r k d
  accept_ok r (throw e) d = d

  unfoldable pub click_server : Bool → Option Text → Dialog → Dialog
  unfolding accept
  click_server started out d = elim (normalize_key special (some d.shown)) [
    | some k ↦ accept server k d
    | none ↦
        if is_empty (keep (λ c. not (is_space c)) d.shown)
        then accept_ok server (generate_key special started out) d
        else d
  ]

  unfoldable pub click_client : Dialog → Dialog
  unfolding accept
  click_client d = elim (normalize_key special (some d.shown)) [
    | some k ↦ accept client k d
    | none ↦ d
  ]

  unfoldable pub on_event : Event → Dialog → Dialog
  unfolding click_new_key click_server click_client
  on_event (typed t) d = record d { shown = t }
  on_event (new_key_clicked answer started out) d = click_new_key answer started out d
  on_event (server_clicked started out) d = click_server started out d
  on_event client_clicked d = click_client d
  on_event cancel_clicked d = record d { is_left = true }

  -- A dialog that was opened, and the events until it is left.
  pub data Reached (setting : Option Text) (read_ok : Bool) : Dialog → Type 0 where
    opened : {d : Dialog} → open_dialog setting read_ok ≡ ok d → Reached setting read_ok d
    stepped :
        {d : Dialog} (e : Event)
        → Reached setting read_ok d
        → d.is_left ≡ false
        → Reached setting read_ok (on_event e d)
