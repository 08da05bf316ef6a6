-- ===== src/Key/Picked.antt =====
-- The key that a role is started with, by the role dialog of pjsr/DistributedWBPP.js.
use distributed_wbpp.Prelude.{
  ℕ, ◌≡◌, refl, inl, inr, Bool, true, false, not, ◌&&◌, Option, none, some, Text, Outcome, ok,
  throw, arith, keep, is_empty, Bool-cases, Option-cases,
}
use distributed_wbpp.Serializer.Listing.{is_space}
use distributed_wbpp.Key.{normalize_key, load_key, generate_key}
use distributed_wbpp.Key.Normal.{IsKey, normalize_key_iff, normalize_key_fixed, keys_in_use_IsKey}
use distributed_wbpp.Key.Dialog.{
  Role, server, client, Dialog, Event, typed, new_key_clicked, server_clicked, client_clicked,
  cancel_clicked, accept, accept_ok, open_dialog, dialog_of, click_new_key, click_server,
  click_client, on_event, show, is_some, Reached, opened, stepped,
}

module _ (special : ℕ → Text) where
  -- Either no role is chosen, and the setting is as it was, or the dialog was left with a role and with a
  -- key that the setting has, and that the next dialog loads.
  abbrev Chosen : Option Text → Option Role → Option Text → Option Text → Bool → Type 0
  Chosen before none key setting is_left = (key ≡ none) × (setting ≡ before)
  Chosen before (some r) key setting is_left =
      (k : Text) × (key ≡ some k)
      × IsKey k
      × (setting ≡ some k)
      × (load_key special setting true ≡ k)
      × (is_left ≡ true)

  abbrev pub IsPicked : Option Text → Dialog → Type 0
  IsPicked before d = Chosen before d.role d.key d.setting d.is_left

  abbrev Unpicked : Option Text → Dialog → Type 0
  Unpicked before d = (d.role ≡ none) × (d.key ≡ none) × (d.setting ≡ before)

  unpicked :
      (before : Option Text) (r : Option Role) (key setting : Option Text) (is_left : Bool)
      → Chosen before r key setting is_left
      → is_left ≡ false
      → (r ≡ none) × (key ≡ none) × (setting ≡ before)
  unpicked before none key setting is_left (a, b) h = (refl, a, b)
  unpicked before (some r) key setting is_left (k, _, _, _, _, left) h =
      absurd (ground (arith, left, h))

  Unpicked-IsPicked : (before : Option Text) (d : Dialog) → Unpicked before d → IsPicked before d
  Unpicked-IsPicked before d (r, k, s) = rw r (k, s)

  accept-IsPicked :
      (before : Option Text) (r : Role) (k : Text) (d : Dialog)
      → IsKey k
      → IsPicked before (accept r k d)
  unfolding accept load_key
  accept-IsPicked before r k d v =
      (k, refl, v, refl, rw (normalize_key_fixed special k v) refl, refl)

  normal-IsKey : (t k : Text) → normalize_key special (some t) ≡ some k → IsKey k
  normal-IsKey t k h = ((normalize_key_iff special (some t) k).0 h).1

  show_keeps :
      (before : Option Text) (o : Outcome Text) (d : Dialog)
      → Unpicked before d
      → Unpicked before (show special o d)
  show_keeps before (ok t) d h = h
  show_keeps before (throw e) d h = h

  new_key_keeps :
      (before : Option Text) (answer started : Bool) (out : Option Text) (d : Dialog)
      → Unpicked before d
      → Unpicked before (click_new_key special answer started out d)
  unfolding click_new_key
  new_key_keeps before answer started out d h =
      elim (Bool-cases (is_some (normalize_key special (some d.shown)) && not answer)) [
        | inl e ↦ rw (e, click_new_key) h
        | inr e ↦ rw (e, click_new_key) (show_keeps before _ d h)
      ]

  accept_ok-IsPicked :
      (before : Option Text) (r : Role) (o : Outcome Text) (d : Dialog)
      → ((k : Text) → o ≡ ok k → IsKey k)
      → Unpicked before d
      → IsPicked before (accept_ok special r o d)
  accept_ok-IsPicked before r (ok k) d v h = accept-IsPicked before r k d (v k refl)
  accept_ok-IsPicked before r (throw e) d v h = Unpicked-IsPicked before d h

  server-IsPicked :
      (before : Option Text) (started : Bool) (out : Option Text) (d : Dialog)
      → Unpicked before d
      → IsPicked before (click_server special started out d)
  unfolding click_server
  server-IsPicked before started out d h =
      elim (Option-cases (normalize_key special (some d.shown))) [
        | inr (k, e) ↦
            rw (e, click_server) (accept-IsPicked before server k d (normal-IsKey d.shown k e))
        | inl e ↦ elim (Bool-cases (is_empty (keep (λ c. not (is_space c)) d.shown))) [
          | inl blank ↦
              rw (e, blank, click_server)
                (accept_ok-IsPicked before server (generate_key special started out) d
                  (keys_in_use_IsKey special started true out none).0 h)
          | inr full ↦ rw (e, full, click_server) (Unpicked-IsPicked before d h)
        ]
      ]

  client-IsPicked :
      (before : Option Text) (d : Dialog)
      → Unpicked before d
      → IsPicked before (click_client special d)
  unfolding click_client
  client-IsPicked before d h = elim (Option-cases (normalize_key special (some d.shown))) [
    | inr (k, e) ↦
        rw (e, click_client) (accept-IsPicked before client k d (normal-IsKey d.shown k e))
    | inl e ↦ rw (e, click_client) (Unpicked-IsPicked before d h)
  ]

  event-IsPicked :
      (before : Option Text) (e : Event) (d : Dialog)
      → Unpicked before d
      → IsPicked before (on_event special e d)
  unfolding on_event
  event-IsPicked before (typed t) d h = Unpicked-IsPicked before (record d { shown = t }) h
  event-IsPicked before (new_key_clicked answer started out) d h =
      Unpicked-IsPicked before (click_new_key special answer started out d)
        (new_key_keeps before answer started out d h)
  event-IsPicked before (server_clicked started out) d h = server-IsPicked before started out d h
  event-IsPicked before client_clicked d h = client-IsPicked before d h
  event-IsPicked before cancel_clicked d h =
      Unpicked-IsPicked before (record d { is_left = true }) h

  opened-IsPicked :
      (before : Option Text) (o : Outcome Text) (d : Dialog)
      → dialog_of special before o ≡ ok d
      → IsPicked before d
  opened-IsPicked before (throw e) d h = cc
  opened-IsPicked before (ok t) d h = Unpicked-IsPicked before d (ground (arith, h))

  -- Whatever is typed and clicked, whatever the sidecar writes and the user answers: if the role dialog ends
  -- with a role, then with a canonical key, which is in the setting, so that the next dialog loads it; else
  -- it has no key and the setting is what it was.
  pub dialog_lem :
      {before : Option Text} {read_ok : Bool} {d : Dialog}
      → Reached special before read_ok d
      → IsPicked before d
  unfolding open_dialog
  dialog_lem {before} {read_ok} (opened h) = opened-IsPicked before _ _ h
  dialog_lem {before} (stepped {d} e r h) =
      event-IsPicked before e d (unpicked before d.role d.key d.setting d.is_left (dialog_lem r) h)
