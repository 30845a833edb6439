-- ===== src/Dialogs/Callbacks.antt =====
-- webui/src/app/ui: the properties `onSuccess` and `onClose` that a page passes to a dialog.

pub data Callback : Type 0 where
  success close : Callback
