-- ===== src/Event/Server/Leaks.antt =====
-- eventserver/EventServer.cpp with EventSession.cpp: no session is left without an event or a task that
-- ends it.
use zylib.Prelude.{
  ℕ, ◌+◌, ◌-◌, ◌^◌, ◌≡◌, refl, sym, ◌∙◌, inl, inr, Bool, true, false, none, some, List, [], ◌∷◌,
  arith, ◌==◌, if◌then◌else◌, Bool-cases, Option-cases, All,
}
use zylib.Event.Session.{
  Session, SessionId, Note, same_id, append_response, release, new_session, add_read, Decode,
  Reading, on_write, on_read, async_write,
}
use zylib.Event.Session.Sending.{Sound, Served, on_write-Served, on_read-Served, async_write-Served}
use zylib.Event.Server.{
  Task, send_task, shutdown_task, Server, find_session, put_session, submit_task, notify, put_notes,
  run_shutdown, write_event, on_accept, run_send, read_event, create_session, insert_session,
  is_some, execute_on, execute_task, step, run, new_server, send_response, shutdown_session, Input,
  accepts, readable, writable, executes, sends, shuts,
}
use zylib.Event.Server.Keeping.{
  asked, Kept, asked-append, notify-Notified, All-Kept-mono, put_session-Kept, find_session-Kept,
  missed-Kept, erased-Kept, replaced-Kept, same_id→≡,
}

abbrev AllKept : Server → Type 0
AllKept v = All (Kept v.tasks) v.sessions

put_notes-AllKept :
    (before : Bool) (v : Server) (s : Session) (r : Session × List Note)
    → Served before s r
    → (before ≡ true → asked s.sid v.tasks ≡ true)
    → AllKept v
    → AllKept (put_notes v r)
unfolding put_notes
put_notes-AllKept before v s (t, notes) h b ks =
    let v' : Server = record v { sessions = put_session t v.sessions } in
    let n = notify-Notified t.sid notes v' in
    let kept : Kept (notify t.sid notes v').tasks t = record {
      sound = h.sound;
      ends = ground (arith, h.released, n.asking, n.more s.sid, h.same);
    } in
    rw n.sessions
      (put_session-Kept t v.sessions kept (All-Kept-mono v.tasks _ v.sessions n.more ks))

-- A function applied to the session that a key finds.
on_found :
    (v : Server) (sid : SessionId) (f : Session → Server)
    → AllKept v
    → ((s : Session) → Kept v.tasks s → same_id s.sid sid ≡ true → AllKept (f s))
    → AllKept (elim (find_session sid v.sessions) [ none ↦ v | some s ↦ f s ])
on_found v sid f ks h = elim (Option-cases (find_session sid v.sessions)) [
  | inl e ↦ rw e ks
  | inr (s, e) ↦ let (k, same) = find_session-Kept sid v.sessions s ks e in rw e (h s k same)
]

on_test :
    (b : Bool) (x y : Server)
    → (b ≡ true → AllKept x)
    → (b ≡ false → AllKept y)
    → AllKept (if b then x else y)
on_test true x y h k = h refl
on_test false x y h k = k refl

run_send-AllKept :
    (v : Server) (sid : SessionId) (bytes chunks : List ℕ) (again : Bool)
    → AllKept v
    → AllKept (run_send v sid bytes chunks again)
unfolding run_send append_response
run_send-AllKept v sid bytes chunks again ks = on_found v sid _ ks (λ s k same.
    on_test s.is_shutdown _ _ (λ e. ks)
      (λ e.
        let t = append_response s bytes in
        let served = async_write-Served chunks again t k.sound.waits e in
        put_notes-AllKept false v t (async_write chunks again t) served (λ f. cc) ks))

run_shutdown-AllKept :
    (v : Server) (sid : SessionId)
    → All (Kept (shutdown_task sid ∷ v.tasks)) v.sessions
    → AllKept (run_shutdown v sid)
unfolding run_shutdown release
run_shutdown-AllKept v sid ks = elim (Option-cases (find_session sid v.sessions)) [
  | inl e ↦ rw (e, run_shutdown) (missed-Kept v.tasks sid v.sessions ks e)
  | inr (s, e) ↦
      let (k, same) = find_session-Kept sid v.sessions s ks e in
      rw (e, run_shutdown)
        (elim (Bool-cases s.wait_written) [
          | inl f ↦
              let t : Session = record s { is_shutdown = true; wait_written = true } in
              let kt : Kept v.tasks t = record {
                sound = record { waits = sym f ∙ k.sound.waits; pending = ground arith };
                ends = ground (arith, k.sound.waits);
              } in
              rw f
                (replaced-Kept v.tasks t v.sessions kt (rw (sym (same_id→≡ s.sid sid same)) at ks))
          | inr f ↦ rw f (erased-Kept v.tasks sid v.sessions ks)
        ])
]

read_event-AllKept :
    (decode : Decode) (v : Server) (sid : SessionId) (outcome : Reading)
    → AllKept v
    → AllKept (read_event decode v sid outcome)
unfolding read_event
read_event-AllKept decode v sid outcome ks = on_found v sid _ ks (λ s k same.
    on_test s.read_armed _ _
      (λ e.
        let t : Session = record s { read_armed = false } in
        let sound : Sound t = record { waits = k.sound.waits; pending = k.sound.pending } in
        let served = on_read-Served decode outcome t sound in
        put_notes-AllKept _ v t (on_read decode outcome t) served (λ d. ground (arith, k.ends)) ks)
      (λ e. ks))

write_event-AllKept :
    (v : Server) (sid : SessionId) (chunks : List ℕ) (again : Bool)
    → AllKept v
    → AllKept (write_event v sid chunks again)
unfolding write_event
write_event-AllKept v sid chunks again ks = on_found v sid _ ks (λ s k same.
    on_test s.write_armed _ _
      (λ e.
        let t : Session = record s { write_armed = false } in
        let served = on_write-Served chunks again t refl in
        put_notes-AllKept false v t (on_write chunks again t) served (λ f. cc) ks)
      (λ e. ks))

submit_task-AllKept : (v : Server) (t : Task) → AllKept v → AllKept (submit_task v t)
unfolding submit_task
submit_task-AllKept v t ks =
    All-Kept-mono v.tasks _ v.sessions (λ o e. ground (arith, asked-append o v.tasks (t ∷ []))) ks

reading-Kept : (tasks : List Task) (sid : SessionId) → Kept tasks (add_read (new_session sid))
unfolding new_session add_read
reading-Kept tasks sid = record { sound = record { waits = refl; pending = refl }; ends = refl }

new-Kept : (tasks : List Task) (sid : SessionId) → Kept tasks (new_session sid)
unfolding new_session
new-Kept tasks sid = record { sound = record { waits = refl; pending = refl }; ends = refl }

insert_session-Kept :
    (tasks : List Task) (s : Session) (ss : List Session)
    → Kept tasks s
    → All (Kept tasks) ss
    → All (Kept tasks) (insert_session s ss)
unfolding insert_session
insert_session-Kept tasks s ss k ks = elim (Option-cases (find_session s.sid ss)) [
  | inl e ↦ rw (insert_session, e) (k, ks)
  | inr (t, e) ↦ rw (insert_session, e) ks
]

on_accept-AllKept : (v : Server) (fd : ℕ) → AllKept v → AllKept (on_accept v fd)
unfolding on_accept create_session new_session
on_accept-AllKept v fd ks =
    let s =
      new_session
        (record { fd = fd; seq_id = (if v.seq_id == 2 ^ 31 - 1 then 0 else v.seq_id) + 1 }) in
    let inserted = insert_session-Kept v.tasks s v.sessions (new-Kept v.tasks s.sid) ks in
    on_test (is_some (find_session s.sid v.sessions)) _ _ (λ e. inserted)
      (λ e. put_session-Kept (add_read s) _ (reading-Kept v.tasks s.sid) inserted)

execute_on-AllKept :
    (v : Server) (tasks : List Task) (chunks : List ℕ) (again : Bool)
    → All (Kept tasks) v.sessions
    → AllKept v
    → AllKept (execute_on v tasks chunks again)
unfolding execute_on
execute_on-AllKept v [] chunks again ks kv = kv
execute_on-AllKept v (send_task sid bytes ∷ rest) chunks again ks kv =
    run_send-AllKept (record v { tasks = rest }) sid bytes chunks again
      (All-Kept-mono _ rest v.sessions (λ o e. e) ks)
execute_on-AllKept v (shutdown_task sid ∷ rest) chunks again ks kv =
    run_shutdown-AllKept (record v { tasks = rest }) sid ks

step-AllKept : (decode : Decode) (v : Server) (i : Input) → AllKept v → AllKept (step decode v i)
unfolding step execute_task send_response shutdown_session
step-AllKept decode v (accepts fd) ks = on_accept-AllKept v fd ks
step-AllKept decode v (readable sid outcome) ks = read_event-AllKept decode v sid outcome ks
step-AllKept decode v (writable sid chunks again) ks = write_event-AllKept v sid chunks again ks
step-AllKept decode v (executes chunks again) ks = execute_on-AllKept v v.tasks chunks again ks ks
step-AllKept decode v (sends sid bytes) ks = submit_task-AllKept v (send_task sid bytes) ks
step-AllKept decode v (shuts sid) ks = submit_task-AllKept v (shutdown_task sid) ks

run-AllKept :
    (decode : Decode) (v : Server) (is : List Input) → AllKept v → AllKept (run decode v is)
unfolding run
run-AllKept decode v [] ks = ks
run-AllKept decode v (i ∷ is) ks =
    run-AllKept decode (step decode v i) is (step-AllKept decode v i ks)

pub run-Kept :
    (decode : Decode) (is : List Input)
    → All (Kept (run decode new_server is).tasks) (run decode new_server is).sessions
unfolding new_server
run-Kept decode is = run-AllKept decode new_server is _
