-- ===== src/Event/Server/Keeping.antt =====
-- eventserver/EventServer.cpp with EventSession.cpp: what keeps a session from being forgotten, and the
-- changes of the sessions and the tasks that keep it.
use zylib.Prelude.{
  ◌≡◌, refl, ◌∙◌, inl, inr, Bool, true, false, not, ◌||◌, none, some, List, [], ◌∷◌, ◌++◌, arith,
  ==_refl, Bool-cases, some-subst, All,
}
use zylib.Event.Session.{
  started, Session, SessionId, Note, handled, closed, timed_out, asks_shutdown, same_id,
}
use zylib.Event.Session.Sending.{asks, Sound}
use zylib.Event.Server.{
  Task, send_task, shutdown_task, Server, find_session, erase_session, put_session, submit_task,
  notify,
}

-- A task to release the session is queued.
abbrev pub asked : SessionId → List Task → Bool
asked sid [] = false
asked sid (send_task other bytes ∷ tasks) = asked sid tasks
asked sid (shutdown_task other ∷ tasks) = same_id other sid || asked sid tasks

-- A session that is shut down waits for its write event, or its release is queued.
pub record Kept (tasks : List Task) (s : Session) : Type 0 where
  pub sound : Sound s
  pub ends : (not s.is_shutdown || s.write_armed || asked s.sid tasks) ≡ true

same_id_refl : (a : SessionId) → same_id a a ≡ true
same_id_refl a = ground (arith, ==_refl a.fd, ==_refl a.seq_id)

same_id_comm : (a b : SessionId) → same_id a b ≡ same_id b a
same_id_comm a b = ground arith

-- Everything that was queued still is.
abbrev pub More : List Task → List Task → Type 0
More old new = (sid : SessionId) → asked sid old ≡ true → asked sid new ≡ true

pub asked-append :
    (sid : SessionId) (xs ys : List Task) → asked sid (xs ++ ys) ≡ (asked sid xs || asked sid ys)
asked-append sid [] ys = refl
asked-append sid (send_task other bytes ∷ xs) ys = asked-append sid xs ys
asked-append sid (shutdown_task other ∷ xs) ys = ground (arith, asked-append sid xs ys)

pub record Notified (sid : SessionId) (notes : List Note) (v v' : Server) : Type 0 where
  pub sessions : v'.sessions ≡ v.sessions
  pub more : More v.tasks v'.tasks
  pub asking : asks notes ≡ true → asked sid v'.tasks ≡ true

pub notify-Notified :
    (sid : SessionId) (notes : List Note) (v : Server) → Notified sid notes v (notify sid notes v)
unfolding notify submit_task
notify-Notified sid [] v = record { sessions = refl; more = λ o e. e; asking = λ e. cc }
notify-Notified sid (asks_shutdown ∷ notes) v =
    let ih = notify-Notified sid notes (submit_task v (shutdown_task sid)) in
    record {
      sessions = ih.sessions;
      more = λ o e. ih.more o (ground (arith, asked-append o v.tasks (shutdown_task sid ∷ [])));
      asking = λ e.
          ih.more sid
            (ground (arith, asked-append sid v.tasks (shutdown_task sid ∷ []), same_id_refl sid));
    }
notify-Notified sid (handled msgs ∷ notes) v =
    let ih = notify-Notified sid notes (record v { told = v.told ++ (sid, handled msgs) ∷ [] }) in
    record { sessions = ih.sessions; more = ih.more; asking = ih.asking }
notify-Notified sid (started ∷ notes) v =
    let ih = notify-Notified sid notes (record v { told = v.told ++ (sid, started) ∷ [] }) in
    record { sessions = ih.sessions; more = ih.more; asking = ih.asking }
notify-Notified sid (closed ∷ notes) v =
    let ih = notify-Notified sid notes (record v { told = v.told ++ (sid, closed) ∷ [] }) in
    record { sessions = ih.sessions; more = ih.more; asking = ih.asking }
notify-Notified sid (timed_out ∷ notes) v =
    let ih = notify-Notified sid notes (record v { told = v.told ++ (sid, timed_out) ∷ [] }) in
    record { sessions = ih.sessions; more = ih.more; asking = ih.asking }

Kept-mono : {old new : List Task} (s : Session) → More old new → Kept old s → Kept new s
Kept-mono s m k = record { sound = k.sound; ends = ground (arith, k.ends, m s.sid) }

pub All-Kept-mono :
    (old new : List Task) (ss : List Session) → More old new → All (Kept old) ss → All (Kept new) ss
All-Kept-mono old new [] m ks = ks
All-Kept-mono old new (s ∷ ss) m (k, ks) = (Kept-mono s m k, All-Kept-mono old new ss m ks)

pub put_session-Kept :
    {tasks : List Task} (t : Session) (ss : List Session)
    → Kept tasks t
    → All (Kept tasks) ss
    → All (Kept tasks) (put_session t ss)
unfolding put_session
put_session-Kept t [] k ks = ks
put_session-Kept t (s ∷ ss) k (ks, kss) = (ground arith, put_session-Kept t ss k kss)

pub find_session-Kept :
    {tasks : List Task} (sid : SessionId) (ss : List Session) (s : Session)
    → All (Kept tasks) ss
    → find_session sid ss ≡ some s
    → Kept tasks s × (same_id s.sid sid ≡ true)
unfolding find_session
find_session-Kept sid [] s ks e = cc
find_session-Kept {tasks} sid (t ∷ ss) s (k, ks) e = elim (Bool-cases (same_id t.sid sid)) [
  | inl f ↦ some-subst (λ x. Kept tasks x × (same_id x.sid sid ≡ true)) (rw f at e) (k, f)
  | inr f ↦ find_session-Kept sid ss s ks (rw f at e)
]

-- A queued release is no other session's.
other-Kept :
    {tasks : List Task} {sid : SessionId} (s : Session)
    → same_id s.sid sid ≡ false
    → Kept (shutdown_task sid ∷ tasks) s
    → Kept tasks s
other-Kept {tasks} {sid} s f k =
    let other : same_id sid s.sid ≡ false = same_id_comm sid s.sid ∙ f in
    record { sound = k.sound; ends = ground (arith, k.ends) }

pub missed-Kept :
    (tasks : List Task) (sid : SessionId) (ss : List Session)
    → All (Kept (shutdown_task sid ∷ tasks)) ss
    → find_session sid ss ≡ none
    → All (Kept tasks) ss
unfolding find_session
missed-Kept tasks sid [] ks e = ks
missed-Kept tasks sid (s ∷ ss) (k, ks) e = elim (Bool-cases (same_id s.sid sid)) [
  | inl f ↦ cc
  | inr f ↦ (other-Kept s f k, missed-Kept tasks sid ss ks (rw f at e))
]

pub erased-Kept :
    (tasks : List Task) (sid : SessionId) (ss : List Session)
    → All (Kept (shutdown_task sid ∷ tasks)) ss
    → All (Kept tasks) (erase_session sid ss)
unfolding erase_session
erased-Kept tasks sid [] ks = ks
erased-Kept tasks sid (s ∷ ss) (k, ks) =
    let ih = erased-Kept tasks sid ss ks in
    elim (Bool-cases (same_id s.sid sid)) [ inl f ↦ rw f ih | inr f ↦ rw f (other-Kept s f k, ih) ]

pub replaced-Kept :
    (tasks : List Task) (t : Session) (ss : List Session)
    → Kept tasks t
    → All (Kept (shutdown_task t.sid ∷ tasks)) ss
    → All (Kept tasks) (put_session t ss)
unfolding put_session
replaced-Kept tasks t [] k ks = ks
replaced-Kept tasks t (s ∷ ss) kt (k, ks) =
    let ih = replaced-Kept tasks t ss kt ks in
    elim (Bool-cases (same_id s.sid t.sid)) [
      | inl f ↦ rw f (kt, ih)
      | inr f ↦ rw f (other-Kept s f k, ih)
    ]

pub same_id→≡ : (a b : SessionId) → same_id a b ≡ true → a ≡ b
same_id→≡ a b e = ground arith
