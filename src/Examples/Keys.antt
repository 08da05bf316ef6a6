-- ===== src/Examples/Keys.antt =====
-- The cluster key of pjsr/DistributedWBPP.js, at one key.
use distributed_wbpp.Prelude.{ℕ, ◌≡◌, refl, true, false, none, some, [], ◌∷◌, Text, text, ok}
use distributed_wbpp.Key.{
  clean, to_upper, upper_unit, normalize_key, load_key, format_key, is_base32, is_alnum,
}
use distributed_wbpp.Key.Normal.{IsKey, every-All}
use distributed_wbpp.Key.Dialog.{
  Dialog, Event, server_clicked, open_dialog, on_event, opened, stepped,
}
use distributed_wbpp.Key.Picked.{IsPicked, dialog_lem}
use distributed_wbpp.Key.Layout.{normalize-format}

-- A case mapping that keeps what is not ASCII.
abbrev same : ℕ → Text
same c = c ∷ []

abbrev key : Text
key = text "ABCDEFGHIJKLMNOPQRSTUVWXYZ234567"

abbrev pasted : Text
pasted = text "abcd-efgh ijklmnopqrstuvwxyz 23-45-67"

key-IsKey : IsKey key
unfolding is_base32
key-IsKey = record { size = refl; digits = every-All is_base32 key refl }

normalize-format_example :
    (shown : Text) × (format_key key ≡ ok shown) × (normalize_key same (some shown) ≡ some key)
normalize-format_example = normalize-format same key key-IsKey

pasted_test : normalize_key same (some pasted) ≡ some key
unfolding normalize_key clean is_base32 is_alnum to_upper upper_unit
pasted_test = refl

-- A server with no key yet: the sidecar writes one.
abbrev no_key : Dialog
no_key = record { shown = []; role = none; key = none; is_left = false; setting = none }

no_key_opened : open_dialog same none false ≡ ok no_key
unfolding open_dialog load_key
no_key_opened = refl

abbrev clicks : Event
clicks = server_clicked true (some pasted)

dialog_lem_example : IsPicked same none (on_event same clicks no_key)
dialog_lem_example = dialog_lem same (stepped clicks (opened no_key_opened) refl)
