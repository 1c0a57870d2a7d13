-- ===== src/Nel/Network/Callbacks.antt =====
-- nel/CallbackManager.cpp with createMsgContext of nel/UnifiedConnection.cpp: the callbacks for services.
use zylib.Prelude.{
  ℕ, ◌≡◌, refl, ◌∙◌, ◌≢◌, inl, inr, false, none, List, [], ◌∷◌, arith, ◌==◌, Option-cases, All,
}
use zylib.Nel.Connection.{service_connect, service_disconnect}
use zylib.Nel.Network.{
  CallbackManager, find_callback, insert_callback, erase_callback, set_service_connect_callback,
  set_service_disconnect_callback, remove_service_connect_callback,
  remove_service_disconnect_callback, context_name, deliver,
}

-- What the user does with the manager, for a name.
pub data Change : Type 0 where
  sets_connect sets_disconnect : ℕ → ℕ → Change
  removes_connect removes_disconnect : ℕ → Change

abbrev pub name_of : Change → ℕ
name_of (sets_connect name cb) = name
name_of (sets_disconnect name cb) = name
name_of (removes_connect name) = name
name_of (removes_disconnect name) = name

unfoldable pub change : Change → CallbackManager → CallbackManager
change (sets_connect name cb) m = (set_service_connect_callback name cb m).0
change (sets_disconnect name cb) m = (set_service_disconnect_callback name cb m).0
change (removes_connect name) m = remove_service_connect_callback name m
change (removes_disconnect name) m = remove_service_disconnect_callback name m

unfoldable pub change_all : List Change → CallbackManager → CallbackManager
change_all [] m = m
change_all (c ∷ cs) m = change_all cs (change c m)

find_callback-insert :
    (key name cb : ℕ) (cbs : List (ℕ × ℕ))
    → name ≢ key
    → find_callback key (insert_callback name cb cbs).0 ≡ find_callback key cbs
unfolding insert_callback find_callback
find_callback-insert key name cb cbs ne = elim (Option-cases (find_callback name cbs)) [
  | inl new ↦
      let other : (name == key) ≡ false = ground arith in rw (insert_callback, new, other) refl
  | inr (old, e) ↦ rw (insert_callback, e) refl
]

find_callback-erase :
    (key name : ℕ) (cbs : List (ℕ × ℕ))
    → name ≢ key
    → find_callback key (erase_callback name cbs) ≡ find_callback key cbs
unfolding erase_callback find_callback
find_callback-erase key name [] ne = refl
find_callback-erase key name ((k, cb) ∷ cbs) ne =
    ground (arith, find_callback-erase key name cbs ne)

-- The callbacks for the empty name, of both kinds.
abbrev Silent : CallbackManager → Type 0
Silent m =
    (find_callback context_name m.up_cbs ≡ none) × (find_callback context_name m.down_cbs ≡ none)

change-Silent :
    (c : Change) (m : CallbackManager) → name_of c ≢ context_name → Silent m → Silent (change c m)
unfolding change set_service_connect_callback set_service_disconnect_callback
    remove_service_connect_callback remove_service_disconnect_callback
change-Silent (sets_connect name cb) m ne s =
    (find_callback-insert context_name name cb m.up_cbs ne ∙ s.0, s.1)
change-Silent (sets_disconnect name cb) m ne s =
    (s.0, find_callback-insert context_name name cb m.down_cbs ne ∙ s.1)
change-Silent (removes_connect name) m ne s =
    (find_callback-erase context_name name m.up_cbs ne ∙ s.0, s.1)
change-Silent (removes_disconnect name) m ne s =
    (s.0, find_callback-erase context_name name m.down_cbs ne ∙ s.1)

-- Whatever callbacks are set for services with a name, none is run when a service connects or disconnects: the
-- context that is looked up by has the empty name. The manager has none for the empty name.
pub change_all-silent :
    (cs : List Change) (m : CallbackManager) (msg_id : ℕ → ℕ)
    → find_callback context_name m.up_cbs ≡ none
    → find_callback context_name m.down_cbs ≡ none
    → All (λ c. name_of c ≢ context_name) cs
    → (deliver msg_id (change_all cs m) service_connect ≡ none)
      × (deliver msg_id (change_all cs m) service_disconnect ≡ none)
unfolding change_all deliver
change_all-silent [] m msg_id up down h = (up, down)
change_all-silent (c ∷ cs) m msg_id up down h =
    let s = change-Silent c m h.0 (up, down) in change_all-silent cs (change c m) msg_id s.0 s.1 h.1
